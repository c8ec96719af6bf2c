-- ===== src/Nodes.antt =====
-- app/desktop_nodes/service.py: the queue of commands that the bridge relays to the desktop nodes.
pub mod Models
pub mod Queue
pub mod Calls
pub mod Moves
pub mod Steps
pub mod ClaimSteps
pub mod Once
pub mod Limits
pub mod Journaled
pub mod Ends
pub mod Recovery
mod Examples
