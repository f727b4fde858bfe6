-- ===== src/Recording/Manager.antt =====
-- src/recording/recording_manager.cpp: the sole owner of the recording lifecycle. The state, the
-- parts that it calls and the exceptions are in State; Setup, Start, Stop, Submit, Finalize and
-- Worker have the operations; the other children prove and test.
pub mod State
pub mod Setup
pub mod Start
pub mod Stop
pub mod Submit
pub mod Finalize
pub mod Worker
pub mod Outcomes
pub mod Invariant
pub mod Lifecycle
pub mod Replay
mod Samples
mod Tests
