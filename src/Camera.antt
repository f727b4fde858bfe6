-- ===== src/Camera.antt =====
-- include/nodus_vision: the value contracts of frames and health, and the order of identities.
pub mod Contracts
pub mod Names
pub mod Order
pub mod Samples
mod Tests
