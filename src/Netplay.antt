-- ===== src/Netplay.antt =====
-- netplay/, rollback play over a network.
pub mod Console
pub mod Outcome
pub mod Game
pub mod Snapshots
pub mod Steps
pub mod Inputs
pub mod Replay
pub mod Queues
pub mod Confirm
pub mod Synced
pub mod Delayed
pub mod Frames
pub mod Session
pub mod Peers
mod Tests
