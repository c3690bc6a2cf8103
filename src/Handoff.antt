-- ===== src/Handoff.antt =====
-- The token handoff channel on the public host (aistat/handoff.py).
pub mod State
pub mod Validation
pub mod Intake
pub mod Pull
pub mod Acks
pub mod Machine
pub mod Change
pub mod History
pub mod Plaintext
pub mod Epochs
pub mod Answer
pub mod Expiry
pub mod Slots
pub mod Nonces
pub mod Settlement
pub mod Requests
mod Tests
