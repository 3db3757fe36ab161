-- ===== src/Workspace.antt =====
-- app/modules/access/workspace.py: browser sessions over several jobs, and their contact points.
pub mod Sessions
pub mod Membership
pub mod Contacts
pub mod Withdrawal
pub mod Isolation
mod Tests
