-- ===== src/Transfer.antt =====
-- The ownership transfer of SM-015-SEC.
pub mod Notice
pub mod Proof
pub mod Stage
pub mod Finalize
pub mod Broker
pub mod Guard
pub mod Ownership
pub mod Archive
pub mod Inbox
pub mod System
mod Scenario
mod Tests
