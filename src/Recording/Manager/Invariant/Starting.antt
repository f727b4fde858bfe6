-- ===== src/Recording/Manager/Invariant/Starting.antt =====
-- `startOrReplay` keeps the invariant, and neither waits for the worker nor follows a null pointer.
use nodus_vision.Prelude.{
  ◌≡◌, refl, Bool, true, false, not, ◌&&◌, Option, none, some, Text, text_eq, arith, if_cases,
  subst, [],
}
use nodus_vision.Prelude.Result.{ok, err}
use nodus_vision.Recording.Contracts.{
  RecordingState, RecordingStartRequest, serialize_recording_start_request,
}
use nodus_vision.Recording.Manager.State.{
  PersistedRecordingArtifact, Parts, Ambient, Worker, RecordingStartResult, Manager, Outcome,
  returned, thrown, blocked, undefined, or_rethrow, fault,
}
use nodus_vision.Recording.Manager.Setup.{is_active, join_worker}
use nodus_vision.Recording.Manager.Start.{
  start_new, start_persisted, start_canonical_request, start_or_replay,
}
use nodus_vision.Recording.Manager.Outcomes.{Post, bind-Post}
use nodus_vision.Recording.Manager.Invariant.{is_allowed, Inv}
use nodus_vision.Recording.Manager.Invariant.Stopping.{is_idle, restored-Inv}
use nodus_vision.Recording.Manager.Invariant.Opening.{Ready, fault-Inv, prepare-Inv}

pub ended_rests :
    (s : RecordingState) (stop : Bool)
    → is_allowed Worker.ended s stop ≡ true
    → is_allowed Worker.no_thread s stop ≡ true
ended_rests s stop h = ground arith

quiet_idle :
    (w : Worker) (s : RecordingState) (stop : Bool)
    → is_allowed w s stop ≡ true
    → is_active s ≡ false
    → is_idle w ≡ true
unfolding is_active
quiet_idle w s stop h e = ground arith

module _ {P : Parts} (request : RecordingStartRequest) (canonical : Text) (env : Ambient) where
  abbrev Keeps : Outcome RecordingStartResult × Manager P → Type 0
  Keeps r = Post (λ _. Inv) Inv r

  or_rethrow-Inv :
      (r : Outcome RecordingStartResult × Manager P)
      → Post (λ _ n. Inv n) Ready r
      → Keeps (or_rethrow (λ _. r) fault r.1)
  or_rethrow-Inv (returned a, n) h = h
  or_rethrow-Inv (thrown e, n) h = fault-Inv n h
  or_rethrow-Inv (blocked, n) h = h
  or_rethrow-Inv (undefined, n) h = h

  start_new-Inv : (m : Manager P) → Ready m → Keeps (start_new request canonical env m)
  unfolding start_new
  start_new-Inv m h =
      or_rethrow-Inv _
        (prepare-Inv request canonical env (record m { state = RecordingState.preparing }) h)

  start_persisted-Inv :
      (persisted : Option PersistedRecordingArtifact) (m : Manager P)
      → m.worker ≡ Worker.no_thread
      → Inv m
      → Keeps (start_persisted persisted request canonical env m)
  unfolding start_persisted
  start_persisted-Inv none m w v = start_new-Inv m (w, v.ring, v.frames)
  start_persisted-Inv (some artifact) m w v =
      if_cases Keeps (not (text_eq artifact.start_request canonical)) _ _ (λ e. v)
        (λ e. restored-Inv artifact request canonical m (rw w refl) v)

  abbrev Joined : Unit {0} → Manager P → Type 0
  Joined a n = Inv n × (n.worker ≡ Worker.no_thread)

  join-Joined :
      (m : Manager P) (w : Worker)
      → m.worker ≡ w
      → is_idle w ≡ true
      → Inv m
      → Post Joined Inv (elim w [
        | Worker.no_thread ↦ (returned tt, m)
        | Worker.ended ↦ (returned tt, record m { worker = Worker.no_thread })
        | _ ↦ (blocked, m)
      ])
  join-Joined m Worker.no_thread e h v = (v, e)
  join-Joined m Worker.ended e h v = (
    record {
      ring = v.ring;
      frames = v.frames;
      standing =
          ended_rests m.state m.stop_requested
            (subst (λ t. is_allowed t m.state m.stop_requested ≡ true) e v.standing);
      admits = v.admits;
      working = tt;
    },
    refl,
  )
  join-Joined m Worker.at_loop e h v = cc h
  join-Joined m Worker.closing e h v = cc h
  join-Joined m (Worker.holding f) e h v = cc h
  join-Joined m (Worker.written i) e h v = cc h

  start_canonical_request-Inv :
      (m : Manager P) → Inv m → Keeps (start_canonical_request request canonical env m)
  unfolding start_canonical_request
  start_canonical_request-Inv m v =
      if_cases Keeps
        (text_eq request.recording_id m.recording_id
          && text_eq request.request_id m.start_request_id)
        _ _ (λ same. if_cases Keeps (text_eq canonical m.start_canonical) _ _ (λ e. v) (λ e. v))
        λ other.
          if_cases Keeps (is_active m.state) _ _ (λ e. v)
            λ quiet.
              bind-Post Joined (λ _. Inv) Inv join_worker _ m
                (unfold join_worker in
                  join-Joined m m.worker refl
                    (quiet_idle m.worker m.state m.stop_requested v.standing quiet) v)
                λ _ n (w, t).
                  elim (P.find_persisted_artifact request.recording_id n.disk)
                    as (λ found. Keeps (elim found [
                      | err e ↦ (thrown e, n)
                      | ok persisted ↦ start_persisted persisted request canonical env n
                    ])) [ err e ↦ w | ok persisted ↦ start_persisted-Inv persisted n t w ]

-- A start request, new or repeated, keeps the invariant, whether it returns or throws; it neither
-- waits for the worker thread under the lock nor follows a null pointer.
pub start_or_replay-Inv :
    {P : Parts} (request : RecordingStartRequest) (env : Ambient) (m : Manager P)
    → Inv m
    → Post (λ _. Inv) Inv (start_or_replay request env m)
unfolding start_or_replay
start_or_replay-Inv {P} request env m v =
    elim (serialize_recording_start_request P.serialize_object request)
      as (λ r. Keeps {P = P} request [] env (elim r [
        | err e ↦ (thrown e, m)
        | ok canonical ↦ start_canonical_request request canonical env m
      ])) [ err e ↦ v | ok canonical ↦ start_canonical_request-Inv request canonical env m v ]
