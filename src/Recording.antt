-- ===== src/Recording.antt =====
-- src/recording: the recorder that runs beside the capture thread.
pub mod Contracts
pub mod Queue
pub mod Sidecar
pub mod Manager
pub mod Manifest
mod Tests
