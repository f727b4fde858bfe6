-- ===== src/Recording/Manager/Invariant/Closing.antt =====
-- Closing a recording while the files take the stop request: what `beginFinalizationLocked` leaves,
-- and that every way of closing keeps the invariant.
use nodus_vision.Prelude.{ℕ, ◌+◌, ◌*◌, ◌<◌, ◌≡◌, refl, true, false, Text, leb, arith}
use nodus_vision.Prelude.Int.{pos_part}
use nodus_vision.Recording.Contracts.{RecordingState, RecordingStopReason}
use nodus_vision.Recording.Manager.State.{Parts, Ambient, Manager, returned}
use nodus_vision.Recording.Manager.Stop.{begin_finalization, is_recording}
use nodus_vision.Recording.Manager.Invariant.{Inv, TakesStop}

abbrev pub finalize_timeout_ns : {P : Parts} → Manager P → ℕ
finalize_timeout_ns m = pos_part m.config.finalize_timeout_ms * 1_000_000

-- The manager once the stop request is on disk.
abbrev pub closed :
    {P : Parts} → RecordingStopReason → Text → Text → Text → Ambient → Manager P → Manager P
closed {P} reason stop_evidence stop_request_id stop_canonical env m = record m {
  state = RecordingState.finalizing;
  admitting = false;
  stop_requested = true;
  finalize_deadline = env.steady_now 0 + finalize_timeout_ns m;
  disk = (P.write_stop_request m.artifact_paths stop_evidence m.disk).1;
  stop_reason = reason;
  stop_request_id = stop_request_id;
  stop_canonical = stop_canonical;
}

late : (a b : ℕ) → a < b → leb b a ≡ false
late a b h = ground arith

pub begin_finalization_lem :
    {P : Parts} (reason : RecordingStopReason) (stop_evidence stop_request_id stop_canonical : Text)
    (env : Ambient) (m : Manager P)
    → TakesStop m env.steady_now
    → m.state ≡ RecordingState.recording
    → begin_finalization reason stop_evidence stop_request_id stop_canonical env m
      ≡ (returned tt, closed reason stop_evidence stop_request_id stop_canonical env m)
unfolding begin_finalization
begin_finalization_lem reason ev id can env m h running = ground (
  arith,
  (h running).1 ev,
  late (env.steady_now 1) (env.steady_now 0 + finalize_timeout_ns m) (h running).0,
)

-- Closing a recording keeps the invariant.
pub closed-Inv :
    {P : Parts} (reason : RecordingStopReason) (stop_evidence stop_request_id stop_canonical : Text)
    (env : Ambient) (m : Manager P)
    → m.state ≡ RecordingState.recording
    → Inv m
    → Inv (closed reason stop_evidence stop_request_id stop_canonical env m)
closed-Inv reason ev id can env m e v = record {
  ring = v.ring;
  frames = v.frames;
  standing = ground (arith, v.standing);
  admits = unfold is_recording in refl;
  working = v.working;
}
