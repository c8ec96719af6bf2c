-- ===== src/Coordinator/Delivery.antt =====
-- app/coordinator/service.py: `status`, `claim` and the leases of the physical chat. A call reads the clock
-- once here, and `backoff` is the value of `_web_backoff_until` (a file). Touching a lease before and again
-- under the lock is one touch.
mod Readiness
mod Claiming
mod Leasing
unfoldable pub use Readiness.*
unfoldable pub use Claiming.*
unfoldable pub use Leasing.*
