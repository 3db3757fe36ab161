-- ===== src/Access.antt =====
-- app/modules/access: the capabilities of a job's participants, and the invitations by which one
-- role hands the next its capability.
pub mod Model
pub mod Links
pub mod Authenticate
pub mod Invitations
pub mod Answers
pub mod Reissue
pub mod Revocation
pub mod RevokedLinks
pub mod RevokedTrees
pub mod Refusal
pub mod Rate
pub mod Delegation
mod Tests
