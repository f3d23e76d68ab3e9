-- ===== src/Tests.antt =====
-- Tests of the definitions on small inputs, and the theorems applied to them.
pub mod Storage
pub mod Cache
pub mod Group
pub mod Restore
pub mod Protocol
pub mod Metadata
pub mod Health
pub mod Broker
pub mod Connection
