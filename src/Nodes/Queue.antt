-- ===== src/Nodes/Queue.antt =====
-- app/desktop_nodes/service.py: the operations of `DesktopNodeService` on the nodes and their queues.
mod Agents
mod Dispatch
mod Results
unfoldable pub use Agents.*
unfoldable pub use Dispatch.*
unfoldable pub use Results.*
