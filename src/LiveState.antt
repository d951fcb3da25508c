-- ===== src/LiveState.antt =====
-- app/device_live_state.py: the latest state of each device, in memory.
pub mod Blocks
pub mod Alarms
pub mod Snapshot
pub mod Store
pub mod Fields
pub mod Retained
pub mod Follows
pub mod Shown
pub mod Slots
mod Tests
