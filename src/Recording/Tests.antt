-- ===== src/Recording/Tests.antt =====
-- Identities, the queue and the sidecar on concrete values.
use nodus_vision.Prelude.{
  ◌≡◌, ◌≢◌, ◌↔◌, ◌≤◌, refl, true, false, none, some, [], ◌∷◌, ◌++◌, bytes, length, All, arith,
  Option, List, ◌<◌,
}
use nodus_vision.Prelude.Int.{pos}
use nodus_vision.Prelude.Result.{ok}
use nodus_vision.Camera.Samples.{identity_of, frame_of}
use nodus_vision.Recording.Contracts.{is_recording_id_valid, is_recording_request_id_valid}
use nodus_vision.Recording.Contracts.Identity.{
  IsRecordingId, IsPathComponent, RequestCharacter, is_recording_id_valid_iff,
  is_recording_id_valid-IsPathComponent, is_recording_request_id_valid_iff,
}
use nodus_vision.Recording.Queue.{FrameQueue, cleared, push, pop}
use nodus_vision.Recording.Queue.Fifo.{
  IsRing, contents, cleared-IsRing, push-contents, pop-contents,
}
use nodus_vision.Recording.Sidecar.{
  RecordingFrameEntry, SidecarWriter, no_identity, append, finalize_sidecar,
}
use nodus_vision.Recording.Sidecar.Ledger.{
  IsConsistent, appends, call, call-IsConsistent, finalize-append,
}

is_recording_id_valid_iff_example :
    (is_recording_id_valid (bytes "run-1") ≡ true) ↔ IsRecordingId (bytes "run-1")
is_recording_id_valid_iff_example = is_recording_id_valid_iff (bytes "run-1")

valid_id : is_recording_id_valid (bytes "run-1") ≡ true
unfolding is_recording_id_valid bytes nodus_vision.Prelude.text_eq
valid_id = refl

is_recording_id_valid-IsPathComponent_example : IsPathComponent (bytes "run-1")
is_recording_id_valid-IsPathComponent_example =
    is_recording_id_valid-IsPathComponent (bytes "run-1") valid_id

is_recording_request_id_valid_iff_example :
    (is_recording_request_id_valid (bytes "req:1") ≡ true) ↔ (
      (1 ≤ length (bytes "req:1"))
      × (length (bytes "req:1") ≤ 128)
      × All RequestCharacter (bytes "req:1"))
is_recording_request_id_valid_iff_example = is_recording_request_id_valid_iff (bytes "req:1")

-- A ring of two places.
abbrev two_places : FrameQueue
two_places = record { slots = none ∷ none ∷ []; head = 0; tail = 0; count = 0 }

two_places-IsRing : IsRing two_places
unfolding cleared
two_places-IsRing = cleared-IsRing 2 (omega arith)

push-contents_example :
    IsRing (push two_places (frame_of 1 1))
    × (contents (push two_places (frame_of 1 1))
        ≡ contents two_places ++ (some (frame_of 1 1) ∷ []))
push-contents_example = push-contents two_places (frame_of 1 1) two_places-IsRing (omega arith)

-- Frames 1 and 2, the first in the last place.
abbrev wrapped : FrameQueue
wrapped = record {
  slots = some (frame_of 1 2) ∷ some (frame_of 1 1) ∷ [];
  head = 1;
  tail = 1;
  count = 2;
}

wrapped-IsRing : IsRing wrapped
wrapped-IsRing = record {
  room = omega arith;
  head_in = omega arith;
  tail_in = omega arith;
  tail_at = omega arith;
  fits = omega arith;
}

pop-contents_example :
    IsRing (pop wrapped).1 × (contents wrapped ≡ (pop wrapped).0 ∷ contents (pop wrapped).1)
pop-contents_example = pop-contents wrapped wrapped-IsRing (omega arith)

abbrev sidecar : SidecarWriter
sidecar = record {
  lines = [];
  stream_good = true;
  recording_id = bytes "run-1";
  sensor_frame = bytes "camera";
  calibration_id = bytes "cal";
  last_identity = no_identity;
  entry_count = 0;
  has_identity = false;
  finalized = false;
}

abbrev entry : RecordingFrameEntry
entry = record { video_frame_index = 0; video_pts = pos 0; identity = identity_of 1 1 }

call-IsConsistent_example : IsConsistent (call sidecar (appends entry true))
call-IsConsistent_example =
    call-IsConsistent sidecar (appends entry true)
      (record { ordered = tt; counted = refl; last = refl })

finalize-append_example :
    ((append (finalize_sidecar sidecar true true).1 entry true).0 ≢ ok tt)
    × ((append (finalize_sidecar sidecar true true).1 entry true).1.lines ≡ sidecar.lines)
finalize-append_example =
    finalize-append sidecar entry true true true (unfold finalize_sidecar in refl)
