-- ===== src/OAuth.antt =====
-- app/auth: the single-owner OAuth server. `Store` is its database and `Provider` the grants over it.
pub mod Models
pub mod Store
pub mod Provider
pub mod Calls
pub mod Effects
pub mod Steps
pub mod Single
pub mod Tokens
pub mod Flow
mod Examples
