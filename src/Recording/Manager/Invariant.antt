-- ===== src/Recording/Manager/Invariant.antt =====
-- The invariant of the recording manager, and the events that its threads bring about.
pub mod Queueing
pub mod Closing
pub mod Stopping
pub mod Opening
pub mod Starting
pub mod Running
pub mod Taking
pub mod Finishing
pub mod Stepping
use nodus_vision.Prelude.{
  ℕ, ◌+◌, ◌*◌, ◌%◌, ◌^◌, ◌<◌, ◌≡◌, Bool, true, false, not, Option, none, some, Text,
}
use nodus_vision.Prelude.Int.{pos_part}
use nodus_vision.Prelude.Result.{ok}
use nodus_vision.Recording.Contracts.{RecordingState}
use nodus_vision.Recording.Queue.Fifo.{IsRing, AllFrames, contents}
use nodus_vision.Recording.Sidecar.{SidecarWriter}
use nodus_vision.Recording.Sidecar.Ledger.{IsConsistent}
use nodus_vision.Recording.Manager.State.{Parts, Worker, Manager}
use nodus_vision.Recording.Manager.Stop.{is_recording}

-- Which states go with a stopped, a finished, a closing and a working thread; the Boolean is
-- m_stop_requested.
abbrev pub rests : RecordingState → Bool
rests RecordingState.idle = true
rests RecordingState.finalized = true
rests RecordingState.faulted = true
rests _ = false

abbrev pub settled : RecordingState → Bool
settled RecordingState.finalized = true
settled RecordingState.faulted = true
settled _ = false

abbrev pub works : RecordingState → Bool → Bool
works RecordingState.recording stop = not stop
works RecordingState.finalizing stop = stop
works _ stop = false

abbrev pub closes : RecordingState → Bool → Bool
closes RecordingState.finalizing stop = stop
closes _ stop = false

abbrev pub is_allowed : Worker → RecordingState → Bool → Bool
is_allowed Worker.no_thread state stop = rests state
is_allowed Worker.ended state stop = settled state
is_allowed Worker.closing state stop = closes state stop
is_allowed _ state stop = works state stop

abbrev pub IsSome : {A : Type 0} → Option A → Type 0
IsSome none = ⊥
IsSome (some a) = Unit

-- The sidecar is a ledger of `n` lines (modulo 2^64).
abbrev pub HasLines : Option SidecarWriter → ℕ → Type 0
HasLines none n = ⊥
HasLines (some s) n = IsConsistent s × (s.entry_count ≡ n % 2 ^ 64)

-- Of the frames admitted, `submitted` are counted, `queued` wait in the queue and `inflight` are
-- with the worker; `extra` of the last have their line already.
pub record Balanced {W : Type 0} (inflight extra : ℕ) (writer : Option W)
    (sidecar : Option SidecarWriter) (submitted admitted queued : ℕ) : Type 0 where
  pub video : IsSome writer
  pub lines : HasLines sidecar (submitted + extra)
  pub in_range : submitted < 2 ^ 64
  pub balance : admitted ≡ (submitted + inflight + queued) % 2 ^ 64

abbrev pub Working : {W : Type 0} → Worker → Option W → Option SidecarWriter → ℕ → ℕ → ℕ → Type 0
Working Worker.no_thread w s n a q = Unit
Working Worker.ended w s n a q = Unit
Working Worker.at_loop w s n a q = Balanced 0 0 w s n a q
Working (Worker.holding frame) w s n a q = IsSome frame × Balanced 1 0 w s n a q
Working (Worker.written identity) w s n a q = Balanced 1 1 w s n a q
Working Worker.closing w s n a q = (q ≡ 0) × Balanced 0 0 w s n a q

pub record Inv {P : Parts} (m : Manager P) : Type 0 where
  pub ring : IsRing m.queue
  pub frames : AllFrames (contents m.queue)
  pub standing : is_allowed m.worker m.state m.stop_requested ≡ true
  pub admits : m.admitting ≡ is_recording m.state
  pub working :
      Working m.worker m.writer m.sidecar m.submitted_frame_count m.admitted_frame_count
        m.queue.count

-- While a recording runs, the files take a stop request for it, and the clock does not pass the
-- finalize timeout while it is written: `now` are the clock's readings.
abbrev pub TakesStop : {P : Parts} → Manager P → (ℕ → ℕ) → Type 0
TakesStop {P} m now =
    m.state ≡ RecordingState.recording
    → (now 1 < now 0 + pos_part m.config.finalize_timeout_ms * 1_000_000)
      × ((text : Text) → (P.write_stop_request m.artifact_paths text m.disk).0 ≡ ok tt)
