-- ===== src/Group.antt =====
-- pkg/broker/coordinator.go: consumer groups, their members, generations and assignments.
pub mod Types
pub mod State
pub mod Assign
pub mod Persist
pub mod Wire
pub mod Coordinator
