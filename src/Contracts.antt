-- ===== src/Contracts.antt =====
-- The contracts that cross component boundaries (app/contracts): event envelopes, provider errors.
pub mod Events
pub mod Ports
pub mod Maintenance
