-- ===== src/Coordinator.antt =====
-- app/coordinator/service.py: the wakes that the bridge sends to the coordinator's chat, one pending wake
-- to a channel, claimed under a lease by the transport that delivers it.
pub mod Texts
pub mod Models
pub mod Rules
pub mod Arming
pub mod Delivery
pub mod Transport
pub mod Escalation
pub mod Calls
pub mod Changes
pub mod Steps
pub mod ClaimSteps
pub mod TransportSteps
pub mod AnswerSteps
pub mod Effects
pub mod Sound
pub mod Exclusion
pub mod Grants
pub mod Once
pub mod Agreement
pub mod Cooldown
pub mod Keeping
pub mod Spacing
pub mod Packing
mod Examples
