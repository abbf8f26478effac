-- ===== src/Session.antt =====
-- activation_session.py: the journal of test activations, the recovery of a test and the
-- transition that commits a tested system or rolls it back.
pub mod Errors
pub mod Record
pub mod RoundTrip
pub mod Host
pub mod Exec
pub mod Machine
pub mod Commands
pub mod Recover
pub mod Transition
pub mod Refusals
pub mod Triple
pub mod Attested
pub mod Sound
