-- ===== src/Journal.antt =====
-- app/desktop_nodes/journal.py: the bounded history of operations of the desktop nodes.
pub mod Operations
pub mod Ordered
pub mod Replay
pub mod Calls
pub mod Log
pub mod Recovery
pub mod Index
mod Examples
