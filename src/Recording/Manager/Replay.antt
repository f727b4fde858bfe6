-- ===== src/Recording/Manager/Replay.antt =====
-- Requests that are sent twice: `startOrReplay` and `finalizeOrReplay`.
pub mod Accepted
pub mod Stops
use nodus_vision.Prelude.{
  ◌≡◌, refl, sym, ◌∙◌, subst, Bool, true, false, not, ◌&&◌, ◌||◌, Option, none, some, Text, text_eq,
  text_eq_refl, text_eq_iff, ltb, arith, if_cases, not-false, if◌then◌else◌, bytes,
}
use nodus_vision.Prelude.Result.{Result, ok, err, runtime_error}
use nodus_vision.Recording.Contracts.{
  RecordingState, RecordingStartRequest, serialize_recording_start_request,
}
use nodus_vision.Recording.Manager.State.{
  Parts, Ambient, Worker, RecordingStartResult, RecordingStopResult, Manager, Outcome, returned,
  thrown, blocked, undefined, Act, ◌>>=◌, ◌>>◌, on_disk, modify, pure, of_result,
  PersistedRecordingArtifact, then_act, or_rethrow, fault,
}
use nodus_vision.Recording.Manager.Setup.{is_active, join_worker}
use nodus_vision.Recording.Manager.Start.{
  require_free_space, open_outputs, begin_recording, start_worker, prepare, start_new,
  start_persisted, start_canonical_request, start_or_replay,
}

-- The manager has the request's identity and content.
abbrev Named : {P : Parts} → RecordingStartRequest → Text → Manager P → Type 0
Named request canonical m =
    (m.recording_id ≡ request.recording_id)
    × (m.start_request_id ≡ request.request_id)
    × (m.start_canonical ≡ canonical)

-- A call that answers e_STARTED leaves the manager with the request's names.
abbrev Names :
    {P : Parts} → RecordingStartRequest → Text → Outcome RecordingStartResult × Manager P → Type 0
Names request canonical (returned RecordingStartResult.started, m) = Named request canonical m
Names request canonical (_, m) = Unit

module _ {P : Parts} (request : RecordingStartRequest) (canonical : Text) (env : Ambient) where
  -- What comes before does not matter.
  after_any :
      {A : Type 0} (r : Outcome A × Manager P) (f : A → Act P RecordingStartResult)
      → ((a : A) (n : Manager P) → Names request canonical (f a n))
      → Names request canonical (then_act r.0 f r.1)
  after_any (returned a, m) f h = h a m
  after_any (thrown e, m) f h = tt
  after_any (blocked, m) f h = tt
  after_any (undefined, m) f h = tt

  after-Names :
      {A : Type 0} (act : Act P A) (f : A → Act P RecordingStartResult) (m : Manager P)
      → ((a : A) (n : Manager P) → Names request canonical (f a n))
      → Names request canonical ((act >>= f) m)
  after-Names act f m h = after_any (act m) f h

  started-Names :
      (r : Outcome (Unit {0})) (m : Manager P)
      → Named request canonical m
      → Names request canonical (
          then_act r
            (λ _. (do
              modify (λ m. record m {
                worker = Worker.at_loop;
                state = RecordingState.recording;
                admitting = true;
              })
              pure RecordingStartResult.started))
            m)
  started-Names (returned a) m h = h
  started-Names (thrown e) m h = tt
  started-Names blocked m h = tt
  started-Names undefined m h = tt

  start_worker-Names :
      (m : Manager P)
      → Names request canonical (start_worker env (begin_recording request canonical env m))
  unfolding start_worker begin_recording
  start_worker-Names m =
      started-Names (of_result env.thread_start) (begin_recording request canonical env m)
        (refl, refl, refl)

  prepare-Names : (m : Manager P) → Names request canonical (prepare request canonical env m)
  unfolding prepare
  prepare-Names m = after-Names (on_disk P.initialize) _ m λ _ n.
      after-Names require_free_space _ n λ _ o.
        after-Names (on_disk (P.create_staging request)) _ o λ paths p.
          after-Names (open_outputs request paths env) _ (record p { artifact_paths = paths })
            (λ _ q. start_worker-Names q)

  rethrown-Names :
      (r : Outcome RecordingStartResult × Manager P)
      → Names request canonical r
      → Names request canonical (or_rethrow (λ _. r) fault r.1)
  rethrown-Names (returned a, n) h = h
  rethrown-Names (thrown e, n) h = tt
  rethrown-Names (blocked, n) h = tt
  rethrown-Names (undefined, n) h = tt

  start_persisted-Names :
      (persisted : Option PersistedRecordingArtifact) (m : Manager P)
      → Names request canonical (start_persisted persisted request canonical env m)
  unfolding start_persisted start_new
  start_persisted-Names none m =
      rethrown-Names _ (prepare-Names (record m { state = RecordingState.preparing }))
  start_persisted-Names (some artifact) m =
      if_cases (Names request canonical) (not (text_eq artifact.start_request canonical)) _ _
        (λ e. tt) (λ e. tt)

  start_canonical_request-Names :
      (m : Manager P) → Names request canonical (start_canonical_request request canonical env m)
  unfolding start_canonical_request
  start_canonical_request-Names m =
      if_cases (Names request canonical)
        (text_eq request.recording_id m.recording_id
          && text_eq request.request_id m.start_request_id)
        _ _
        (λ same.
          if_cases (Names request canonical) (text_eq canonical m.start_canonical) _ _ (λ e. tt)
            (λ e. tt))
        λ other.
          if_cases (Names request canonical) (is_active m.state) _ _ (λ e. tt)
            λ quiet. after-Names join_worker _ m λ _ n.
              elim (P.find_persisted_artifact request.recording_id n.disk)
                as (λ found. Names {P = P} request canonical (elim found [
                  | err e ↦ (thrown e, n)
                  | ok persisted ↦ start_persisted persisted request canonical env n
                ])) [ err e ↦ tt | ok persisted ↦ start_persisted-Names persisted n ]

same_text : (a b : Text) → a ≡ b → text_eq b a ≡ true
same_text a b h = (text_eq_iff b a).1 (sym h)

repeat_start :
    {P : Parts} (request : RecordingStartRequest) (canonical : Text) (env : Ambient) (m : Manager P)
    → Named request canonical m
    → start_canonical_request request canonical env m ≡ (returned RecordingStartResult.replayed, m)
unfolding start_canonical_request
repeat_start request canonical env m (id, req, can) =
    rw
      (
        same_text m.recording_id request.recording_id id,
        same_text m.start_request_id request.request_id req,
        same_text m.start_canonical canonical can,
      )
      refl

started_Named :
    {P : Parts} (request : RecordingStartRequest) (canonical : Text)
    (r : Outcome RecordingStartResult × Manager P)
    → Names request canonical r
    → r.0 ≡ returned RecordingStartResult.started
    → Named request canonical r.1
started_Named request canonical (returned RecordingStartResult.started, m) h e = h
started_Named request canonical (returned RecordingStartResult.replayed, m) h e = cc e
started_Named request canonical (thrown x, m) h e = cc e
started_Named request canonical (blocked, m) h e = cc e
started_Named request canonical (undefined, m) h e = cc e

-- A start request that started a recording, sent once more, is answered with e_REPLAYED and changes
-- nothing.
pub start_or_replay-again :
    {P : Parts} (request : RecordingStartRequest) (env again : Ambient) (m : Manager P)
    → (start_or_replay request env m).0 ≡ returned RecordingStartResult.started
    → let n = (start_or_replay request env m).1 in
      start_or_replay request again n ≡ (returned RecordingStartResult.replayed, n)
unfolding start_or_replay
start_or_replay-again {P} request env again m h =
    elim_serialized (serialize_recording_start_request P.serialize_object request) h
  where
    elim_serialized :
        (r : Result Text)
        → (elim r as (λ _. Outcome RecordingStartResult × Manager P) [
          | err e ↦ (thrown e, m)
          | ok canonical ↦ start_canonical_request request canonical env m
        ]).0
          ≡ returned RecordingStartResult.started
        → let n =
            (elim r as (λ _. Outcome RecordingStartResult × Manager P) [
              | err e ↦ (thrown e, m)
              | ok canonical ↦ start_canonical_request request canonical env m
            ]).1 in
          (elim r as (λ _. Outcome RecordingStartResult × Manager P) [
            | err e ↦ (thrown e, n)
            | ok canonical ↦ start_canonical_request request canonical again n
          ])
          ≡ (returned RecordingStartResult.replayed, n)
    elim_serialized (err e) h = cc h
    elim_serialized (ok canonical) h =
        repeat_start request canonical again (start_canonical_request request canonical env m).1 (
          started_Named request canonical (start_canonical_request request canonical env m)
            (start_canonical_request-Names request canonical env m) h)
