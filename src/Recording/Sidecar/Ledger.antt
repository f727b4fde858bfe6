-- ===== src/Recording/Sidecar/Ledger.antt =====
-- The order of the lines.
use nodus_vision.Prelude.{
  Text, if_cases, ◌||◌, is_empty, ◌%◌, ◌^◌, ◌<◌, ◌≡◌, ◌≢◌, ◌⊎◌, not, ◌&&◌, inl, inr, ◌∙◌, refl,
  inc_u64, Bool-cases, Bool, true, false, List, [], ◌∷◌, length, arith,
}
use nodus_vision.Prelude.Result.{Result, ok, err}
use nodus_vision.Camera.Order.{is_strictly_after, is_strictly_after_iff}
use nodus_vision.Recording.Contracts.{is_recording_id_valid}
use nodus_vision.Recording.Sidecar.{
  RecordingFrameEntry, Line, SidecarWriter, open_sidecar, append, finalize_sidecar, make_line,
  violates_order,
}

-- A line comes after the one below it.
abbrev pub FollowsOn : Line → List Line → Type 0
FollowsOn l [] = Unit
FollowsOn l (m ∷ ms) =
    (m.capture_generation < l.capture_generation)
    ⊎ ((m.capture_generation ≡ l.capture_generation) × (m.frame_number < l.frame_number))

-- Newest first: each line counts the lines below it, and its identity is newer than theirs.
abbrev pub IsLedger : List Line → Type 0
IsLedger [] = Unit
IsLedger (l ∷ ls) = (l.video_frame_index ≡ length ls % 2 ^ 64) × FollowsOn l ls × IsLedger ls

abbrev LastIs : SidecarWriter → List Line → Type 0
LastIs s [] = s.has_identity ≡ false
LastIs s (l ∷ ls) =
    (s.has_identity ≡ true)
    × (l.capture_generation ≡ s.last_identity.capture_generation)
    × (l.frame_number ≡ s.last_identity.frame_number)

pub record IsConsistent (s : SidecarWriter) : Type 0 where
  pub ordered : IsLedger s.lines
  pub counted : s.entry_count ≡ length s.lines % 2 ^ 64
  pub last : LastIs s s.lines

-- A call of the worker.
pub data Call : Type 0 where
  appends : RecordingFrameEntry → Bool → Call
  finalizes : Bool → Bool → Call

pub call : SidecarWriter → Call → SidecarWriter
call s (appends entry writes) = (append s entry writes).1
call s (finalizes flushes closes) = (finalize_sidecar s flushes closes).1

make_line-FollowsOn :
    (s : SidecarWriter) (entry : RecordingFrameEntry) (ls : List Line)
    → LastIs s ls
    → (s.has_identity && not (is_strictly_after entry.identity s.last_identity)) ≡ false
    → FollowsOn (make_line s entry) ls
unfolding make_line
make_line-FollowsOn s entry [] h e = tt
make_line-FollowsOn s entry (l ∷ ls) h e =
    ground (arith, is_strictly_after_iff entry.identity s.last_identity)

in_order :
    (s : SidecarWriter) (entry : RecordingFrameEntry)
    → violates_order s entry ≡ false
    → (s.finalized ≡ false)
      × (entry.video_frame_index ≡ s.entry_count)
      × ((s.has_identity && not (is_strictly_after entry.identity s.last_identity)) ≡ false)
unfolding violates_order
in_order s entry h = (ground arith, ground arith, ground arith)

written :
    (s : SidecarWriter) (entry : RecordingFrameEntry)
    → IsConsistent s
    → violates_order s entry ≡ false
    → IsConsistent (record s {
      lines = make_line s entry ∷ s.lines;
      last_identity = entry.identity;
      has_identity = true;
      entry_count = inc_u64 s.entry_count;
    })
unfolding make_line
written s entry v e =
    let (open_file, at, after) = in_order s entry e in
    record {
      ordered = (at ∙ v.counted, make_line-FollowsOn s entry s.lines v.last after, v.ordered);
      counted = omega (arith, v.counted);
      last = (refl, refl, refl);
    }

append-IsConsistent :
    (s : SidecarWriter) (entry : RecordingFrameEntry) (writes : Bool)
    → IsConsistent s
    → IsConsistent (append s entry writes).1
unfolding append
append-IsConsistent s entry writes v = elim (Bool-cases (violates_order s entry)) [
  | inl e ↦ rw e v
  | inr e ↦ elim (Bool-cases (s.stream_good && writes)) [
    | inl g ↦ rw (e, g) (written s entry v e)
    | inr g ↦ rw (e, g) (record { ordered = v.ordered; counted = v.counted; last = v.last })
  ]
]

-- Every call, whether it throws or not, keeps a ledger of the lines that the stream has taken, those
-- of the calls of append that returned: each line's video index is the number of the lines before it
-- (modulo 2^64), and its identity is newer than that of the line before it.
pub call-IsConsistent : (s : SidecarWriter) (c : Call) → IsConsistent s → IsConsistent (call s c)
unfolding call
call-IsConsistent s (appends entry writes) v = append-IsConsistent s entry writes v
call-IsConsistent s (finalizes flushes closes) v = unfold finalize_sidecar in ground arith

-- A closed file takes no further line: after a `finalize` that returns, no `append` returns, and the
-- lines stay as they are.
pub finalize-append :
    (s : SidecarWriter) (entry : RecordingFrameEntry) (flushes closes writes : Bool)
    → (finalize_sidecar s flushes closes).0 ≡ ok tt
    → let t = (finalize_sidecar s flushes closes).1 in
      ((append t entry writes).0 ≢ ok tt) × ((append t entry writes).1.lines ≡ s.lines)
unfolding append finalize_sidecar violates_order
finalize-append s entry flushes closes writes h = ground arith

-- A file that opens is empty.
abbrev pub IsFresh : Result SidecarWriter → Type 0
IsFresh (err e) = Unit
IsFresh (ok s) = IsConsistent s × (s.entry_count ≡ 0)

pub open_sidecar-IsFresh :
    (recording_id sensor_frame calibration_id : Text) (is_open : Bool)
    → IsFresh (open_sidecar recording_id sensor_frame calibration_id is_open)
unfolding open_sidecar
open_sidecar-IsFresh id frame calibration is_open =
    if_cases IsFresh
      (not (is_recording_id_valid id) || (is_empty frame || (is_empty calibration || not is_open)))
      _ _ (λ e. tt) (λ e. (record { ordered = tt; counted = refl; last = refl }, refl))

-- An `append` that returns adds one line.
abbrev pub IsAppended : SidecarWriter → Result (Unit {0}) × SidecarWriter → Type 0
IsAppended s (err e, t) = Unit
IsAppended s (ok _, t) = IsConsistent t × (t.entry_count ≡ inc_u64 s.entry_count)

pub append-IsAppended :
    (s : SidecarWriter) (entry : RecordingFrameEntry) (writes : Bool)
    → IsConsistent s
    → IsAppended s (append s entry writes)
unfolding append
append-IsAppended s entry writes v =
    if_cases (IsAppended s) (violates_order s entry) _ _ (λ e. tt)
      λ e.
        if_cases (IsAppended s) (not (s.stream_good && writes)) _ _ (λ bad. tt)
          (λ good. (written s entry v e, refl))
