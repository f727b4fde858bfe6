-- ===== src/Recording/Manager/Replay/Accepted.antt =====
-- What an accepted stop request leaves.
use nodus_vision.Prelude.{
  ◌≡◌, refl, sym, ◌∙◌, Bool, true, false, not, ◌&&◌, ◌||◌, Option, none, some, Text, bytes, text_eq,
  text_eq_iff, arith, if_cases, not-false,
}
use nodus_vision.Prelude.Result.{ok, err, runtime_error}
use nodus_vision.Recording.Contracts.{
  RecordingState, RecordingStopReason, RecordingStartRequest, is_recording_id_valid,
  is_recording_request_id_valid,
}
use nodus_vision.Recording.Manager.State.{
  PersistedRecordingArtifact, Parts, Ambient, RecordingStopResult, Manager, Outcome, returned,
  thrown, blocked, undefined, then_act, pure,
}
use nodus_vision.Recording.Manager.Stop.{
  begin_finalization, canonical_stop, is_recording, is_finalizing, replay_stop, stop_active,
  replay_finalized, stop_persisted, stop_found, finalize_or_replay,
}

-- Neither e_FINALIZED nor e_FAULTED.
abbrev pub is_open : RecordingState → Bool
is_open RecordingState.finalized = false
is_open RecordingState.faulted = false
is_open _ = true

-- The manager has taken the request and is not done with it.
abbrev pub Takes : {P : Parts} → RecordingStartRequest → Text → Manager P → Type 0
Takes request canonical m =
    (m.recording_id ≡ request.recording_id)
    × (m.stop_request_id ≡ request.request_id)
    × (m.stop_canonical ≡ canonical)
    × (is_open m.state ≡ true)

abbrev pub Stops :
    {P : Parts} → RecordingStartRequest → Text → Outcome RecordingStopResult × Manager P → Type 0
Stops request canonical (returned RecordingStopResult.accepted, m) = Takes request canonical m
Stops request canonical (_, m) = Unit

begin_finalization_cases :
    {P : Parts} (reason : RecordingStopReason) (evidence id canonical : Text) (env : Ambient)
    (m : Manager P)
    → (begin_finalization reason evidence id canonical env m).0 ≡ returned tt
    → let n = (begin_finalization reason evidence id canonical env m).1 in
      (n.recording_id ≡ m.recording_id)
      × (n.stop_request_id ≡ id)
      × (n.stop_canonical ≡ canonical)
      × (is_open n.state ≡ true)
unfolding begin_finalization
begin_finalization_cases reason evidence id canonical env m h = ground arith

same_text : (s t : Text) → text_eq s t ≡ true → t ≡ s
same_text s t h = sym ((text_eq_iff s t).0 h)

both_true : {a b : Bool} → a && b ≡ true → (a ≡ true) × (b ≡ true)
both_true {a} {b} h = ground arith

module _ {P : Parts} (request : RecordingStartRequest) (canonical : Text) (env : Ambient) where
  abbrev Stopped : Outcome RecordingStopResult × Manager P → Type 0
  Stopped r = Stops request canonical r

  answer-Stops :
      (m : Manager P) (s : RecordingState)
      → m.state ≡ s
      → (m.recording_id ≡ request.recording_id)
        × (m.stop_request_id ≡ request.request_id)
        × (m.stop_canonical ≡ canonical)
      → Stopped (elim s [
        | RecordingState.faulted ↦
            (thrown (runtime_error (bytes "Recording finalization faulted.")), m)
        | RecordingState.finalized ↦ (returned RecordingStopResult.replayed, m)
        | _ ↦ (returned RecordingStopResult.accepted, m)
      ])
  answer-Stops m RecordingState.faulted e h = tt
  answer-Stops m RecordingState.finalized e h = tt
  answer-Stops m RecordingState.disabled e h = (h.0, h.1, h.2, rw e refl)
  answer-Stops m RecordingState.idle e h = (h.0, h.1, h.2, rw e refl)
  answer-Stops m RecordingState.preparing e h = (h.0, h.1, h.2, rw e refl)
  answer-Stops m RecordingState.recording e h = (h.0, h.1, h.2, rw e refl)
  answer-Stops m RecordingState.finalizing e h = (h.0, h.1, h.2, rw e refl)

  replay_stop-Stops :
      (m : Manager P)
      → (text_eq request.recording_id m.recording_id
          && text_eq request.request_id m.stop_request_id)
        ≡ true
      → Stopped (replay_stop canonical m)
  unfolding replay_stop
  replay_stop-Stops m h =
      if_cases Stopped (text_eq canonical m.stop_canonical) _ _
        (λ same. answer-Stops m m.state refl (
          same_text request.recording_id m.recording_id (both_true h).0,
          same_text request.request_id m.stop_request_id (both_true h).1,
          same_text canonical m.stop_canonical same,
        ))
        (λ e. tt)

  closed-Stops :
      (r : Outcome (Unit {0}) × Manager P)
      → (r.0 ≡ returned tt → Takes request canonical r.1)
      → Stopped ((then_act r.0 (λ _. pure RecordingStopResult.accepted)) r.1)
  closed-Stops (returned _, m) h = h refl
  closed-Stops (thrown e, m) h = tt
  closed-Stops (blocked, m) h = tt
  closed-Stops (undefined, m) h = tt

  stop_active-Stops : (m : Manager P) → Stopped (stop_active request canonical env m)
  unfolding stop_active
  stop_active-Stops m =
      if_cases Stopped (not (text_eq request.recording_id m.recording_id)) _ _ (λ e. tt)
        λ same.
          if_cases Stopped (not (is_recording m.state)) _ _ (λ e. tt)
            λ rec.
              closed-Stops
                (begin_finalization RecordingStopReason.requested canonical request.request_id
                  canonical env m)
                (λ h.
                  let (id, req, can, partial) =
                    begin_finalization_cases RecordingStopReason.requested canonical
                      request.request_id canonical env m h in
                  (
                    id ∙ same_text request.recording_id m.recording_id (not-false _ same),
                    req,
                    can,
                    partial,
                  ))

  stop_persisted-Stops :
      (artifact : PersistedRecordingArtifact) (stop_request : Text) (m : Manager P)
      → Stopped (stop_persisted artifact stop_request request canonical env m)
  unfolding stop_persisted replay_finalized
  stop_persisted-Stops artifact stop_request m =
      if_cases Stopped (not (text_eq stop_request canonical)) _ _ (λ e. tt)
        λ same.
          if_cases Stopped artifact.finalized _ _
            (λ e.
              if_cases Stopped (not (is_recording m.state) && not (is_finalizing m.state)) _ _
                (λ a. tt) (λ a. tt))
            λ partial.
              if_cases Stopped
                (not (is_finalizing m.state) || not (text_eq request.recording_id m.recording_id)) _
                _ (λ e. tt) (λ e. stop_active-Stops m)

  stop_found-Stops :
      (persisted : Option PersistedRecordingArtifact) (m : Manager P)
      → Stopped (stop_found persisted request canonical env m)
  unfolding stop_found
  stop_found-Stops none m = stop_active-Stops m
  stop_found-Stops (some artifact) m =
      elim artifact.stop_request
        as (λ evidence. Stopped (elim evidence [
          | none ↦ stop_active request canonical env m
          | some stop_request ↦ stop_persisted artifact stop_request request canonical env m
        ])) [
          | none ↦ stop_active-Stops m
          | some stop_request ↦ stop_persisted-Stops artifact stop_request m
        ]

pub finalize_or_replay-Stops :
    {P : Parts} (request : RecordingStartRequest) (env : Ambient) (m : Manager P)
    → Stops request (canonical_stop request) (finalize_or_replay request env m)
unfolding finalize_or_replay
finalize_or_replay-Stops {P} request env m =
    if_cases Keeps
      (not (is_recording_request_id_valid request.request_id)
        || not (is_recording_id_valid request.recording_id))
      _ _ (λ e. tt)
      λ safe.
        if_cases Keeps
          (text_eq request.recording_id m.recording_id
            && text_eq request.request_id m.stop_request_id)
          _ _ (λ same. replay_stop-Stops request (canonical_stop request) env m same)
          λ other.
            elim (P.find_persisted_artifact request.recording_id m.disk)
              as (λ found. Keeps (elim found [
                | err e ↦ (thrown e, m)
                | ok persisted ↦ stop_found persisted request (canonical_stop request) env m
              ])) [
                | err e ↦ tt
                | ok persisted ↦ stop_found-Stops request (canonical_stop request) env persisted m
              ]
  where
    Keeps : Outcome RecordingStopResult × Manager P → Type 0
    Keeps r = Stops request (canonical_stop request) r
