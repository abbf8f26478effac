-- ===== src/Helper.antt =====
-- helper_service.py: the privileged helper's request dispatcher.
pub mod Target
pub mod State
pub mod Response
pub mod Steps
pub mod Plans
pub mod HomeManager
pub mod Managed
pub mod FlakeLock
pub mod Activation
pub mod Prune
pub mod Capabilities
pub mod Handle
pub mod Sanction
pub mod Sound
pub mod Receipts
pub mod Yields
pub mod Fresh
pub mod Holds
