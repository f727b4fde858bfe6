-- ===== src/Recording/Manager/Invariant/Stopping.antt =====
-- `finalizeOrReplay` and `finalize` keep the invariant, as long as the files take every stop request
-- and the clock does not pass the finalize timeout meanwhile.
use nodus_vision.Prelude.{
  ℕ, ◌≡◌, refl, sym, Bool, true, false, not, ◌&&◌, ◌||◌, Option, none, some, Text, [], text_eq,
  arith, if_cases, not-false, if◌then◌else◌,
}
use nodus_vision.Prelude.Result.{ok, err}
use nodus_vision.Recording.Contracts.{
  RecordingState, RecordingStopReason, RecordingStartRequest, is_recording_id_valid,
  is_recording_request_id_valid,
}
use nodus_vision.Recording.Queue.{capacity}
use nodus_vision.Recording.Queue.Fifo.{cleared-IsRing, cleared-AllFrames}
use nodus_vision.Recording.Sidecar.{SidecarWriter}
use nodus_vision.Recording.Manager.State.{
  PersistedRecordingArtifact, Parts, Ambient, Worker, RecordingStopResult, Manager, Outcome, thrown,
  ◌>>◌, pure,
}
use nodus_vision.Recording.Manager.Setup.{restore_persisted_artifact}
use nodus_vision.Recording.Manager.Stop.{
  is_recording, is_finalizing, replay_stop, stop_active, begin_finalization, replay_finalized,
  stop_persisted, stop_found, finalize_or_replay, request_shutdown, close_for_shutdown,
  canonical_stop, serialize_internal_stop_evidence,
}
use nodus_vision.Recording.Manager.Invariant.{is_allowed, settled, Working, Inv, TakesStop}
use nodus_vision.Recording.Manager.Invariant.Queueing.{is_recording_lem}
use nodus_vision.Recording.Manager.Invariant.Closing.{begin_finalization_lem, closed-Inv}

-- A thread that is not at work: it has returned, or there is none.
abbrev pub is_idle : Worker → Bool
is_idle Worker.no_thread = true
is_idle Worker.ended = true
is_idle _ = false

-- With a state neither recording nor finalizing, no thread is at work.
pub standing_idle :
    (w : Worker) (s : RecordingState) (stop : Bool)
    → is_allowed w s stop ≡ true
    → is_recording s ≡ false
    → is_finalizing s ≡ false
    → is_idle w ≡ true
unfolding is_recording is_finalizing
standing_idle w s stop h r f = ground arith

idle_allowed :
    (w : Worker) (s : RecordingState) (stop : Bool)
    → is_idle w ≡ true
    → settled s ≡ true
    → is_allowed w s stop ≡ true
idle_allowed w s stop h e = ground arith

Working-idle :
    {W : Type 0} (w : Option W) (s : Option SidecarWriter) (n a q : ℕ) (t : Worker)
    → is_idle t ≡ true
    → Working t w s n a q
Working-idle w s n a q Worker.no_thread h = tt
Working-idle w s n a q Worker.ended h = tt
Working-idle w s n a q Worker.at_loop h = cc h
Working-idle w s n a q Worker.closing h = cc h
Working-idle w s n a q (Worker.holding f) h = cc h
Working-idle w s n a q (Worker.written i) h = cc h

settled_rest :
    (b : Bool) → settled (if b then RecordingState.finalized else RecordingState.faulted) ≡ true
settled_rest true = refl
settled_rest false = refl

not_recording_rest :
    (b : Bool)
    → is_recording (if b then RecordingState.finalized else RecordingState.faulted) ≡ false
unfolding is_recording
not_recording_rest true = refl
not_recording_rest false = refl

pub restored-Inv :
    {P : Parts} (artifact : PersistedRecordingArtifact) (request : RecordingStartRequest)
    (canonical : Text) (m : Manager P)
    → is_idle m.worker ≡ true
    → Inv m
    → Inv (restore_persisted_artifact artifact request canonical m)
unfolding restore_persisted_artifact
restored-Inv artifact request canonical m idle v = record {
  ring = cleared-IsRing (capacity m.queue) v.ring.room;
  frames = cleared-AllFrames (capacity m.queue);
  standing = idle_allowed m.worker _ true idle (settled_rest artifact.finalized);
  admits = sym (not_recording_rest artifact.finalized);
  working = Working-idle m.writer m.sidecar 0 0 _ m.worker idle;
}

-- The stop evidence that a replay takes up is nothing to the invariant.
evidence-Inv :
    {P : Parts} (request_id canonical : Text) (reason : RecordingStopReason) (m : Manager P)
    → Inv m
    → Inv (record m {
      stop_request_id = request_id;
      stop_canonical = canonical;
      stop_reason = reason;
    })
evidence-Inv request_id canonical reason m v = record {
  ring = v.ring;
  frames = v.frames;
  standing = v.standing;
  admits = v.admits;
  working = v.working;
}

both_false : (a b : Bool) → not a && not b ≡ true → (a ≡ false) × (b ≡ false)
both_false a b h = ground arith

module _ {P : Parts} (env : Ambient) (m : Manager P) (v : Inv m)
    (takes : TakesStop m env.steady_now) where
  abbrev Keeps : Outcome RecordingStopResult × Manager P → Type 0
  Keeps r = Inv r.1

  closing_active :
      (request : RecordingStartRequest) (canonical : Text)
      → is_recording m.state ≡ true
      → Inv
          ((do
            begin_finalization RecordingStopReason.requested canonical request.request_id canonical
                env
            pure RecordingStopResult.accepted)
            m).1
  closing_active request canonical rec =
      rw
        (begin_finalization_lem RecordingStopReason.requested canonical request.request_id canonical
          env m takes (is_recording_lem m.state rec))
        (closed-Inv RecordingStopReason.requested canonical request.request_id canonical env m
          (is_recording_lem m.state rec) v)

  stop_active-Inv :
      (request : RecordingStartRequest) (canonical : Text)
      → Inv (stop_active request canonical env m).1
  unfolding stop_active
  stop_active-Inv request canonical =
      if_cases Keeps (not (text_eq request.recording_id m.recording_id)) _ _ (λ e. v)
        λ same.
          if_cases Keeps (not (is_recording m.state)) _ _ (λ e. v)
            λ rec. closing_active request canonical (not-false _ rec)

  replay_finalized-Inv :
      (artifact : PersistedRecordingArtifact) (request : RecordingStartRequest) (canonical : Text)
      → Inv (replay_finalized artifact request canonical m).1
  unfolding replay_finalized
  replay_finalized-Inv artifact request canonical =
      if_cases Keeps (not (is_recording m.state) && not (is_finalizing m.state)) _ _
        (λ e.
          let free = both_false _ _ e in
          evidence-Inv request.request_id canonical RecordingStopReason.requested
            (restore_persisted_artifact artifact request [] m)
            (restored-Inv artifact request [] m
              (standing_idle m.worker m.state m.stop_requested v.standing free.0 free.1) v))
        (λ e. v)

  stop_persisted-Inv :
      (artifact : PersistedRecordingArtifact) (stop_request : Text)
      (request : RecordingStartRequest) (canonical : Text)
      → Inv (stop_persisted artifact stop_request request canonical env m).1
  unfolding stop_persisted
  stop_persisted-Inv artifact stop_request request canonical =
      if_cases Keeps (not (text_eq stop_request canonical)) _ _ (λ e. v)
        λ same.
          if_cases Keeps artifact.finalized _ _
            (λ e. replay_finalized-Inv artifact request canonical)
            λ partial.
              if_cases Keeps
                (not (is_finalizing m.state) || not (text_eq request.recording_id m.recording_id)) _
                _ (λ e. v) (λ e. stop_active-Inv request canonical)

  stop_found-Inv :
      (persisted : Option PersistedRecordingArtifact) (request : RecordingStartRequest)
      (canonical : Text)
      → Inv (stop_found persisted request canonical env m).1
  unfolding stop_found
  stop_found-Inv none request canonical = stop_active-Inv request canonical
  stop_found-Inv (some artifact) request canonical =
      elim artifact.stop_request
        as (λ evidence. Keeps (elim evidence [
          | none ↦ stop_active request canonical env m
          | some stop_request ↦ stop_persisted artifact stop_request request canonical env m
        ])) [
          | none ↦ stop_active-Inv request canonical
          | some stop_request ↦ stop_persisted-Inv artifact stop_request request canonical
        ]

  replay_stop-state : (canonical : Text) → (replay_stop canonical m).1 ≡ m
  unfolding replay_stop
  replay_stop-state canonical = ground arith

  -- A stop request, new or repeated, keeps the invariant.
  pub finalize_or_replay-Inv :
      (request : RecordingStartRequest) → Inv (finalize_or_replay request env m).1
  unfolding finalize_or_replay
  finalize_or_replay-Inv request =
      if_cases Keeps
        (not (is_recording_request_id_valid request.request_id)
          || not (is_recording_id_valid request.recording_id))
        _ _ (λ e. v)
        λ safe.
          if_cases Keeps
            (text_eq request.recording_id m.recording_id
              && text_eq request.request_id m.stop_request_id)
            _ _ (λ e. rw (replay_stop-state (canonical_stop request)) v)
            λ other.
              elim (P.find_persisted_artifact request.recording_id m.disk)
                as (λ found. Keeps (elim found [
                  | err e ↦ (thrown e, m)
                  | ok persisted ↦ stop_found persisted request (canonical_stop request) env m
                ])) [
                  | err e ↦ v
                  | ok persisted ↦ stop_found-Inv persisted request (canonical_stop request)
                ]

  close_for_shutdown-Inv : is_recording m.state ≡ true → Inv (close_for_shutdown env m)
  unfolding close_for_shutdown
  close_for_shutdown-Inv rec =
      let evidence =
        serialize_internal_stop_evidence m.recording_id RecordingStopReason.application_shutdown in
      let e =
        begin_finalization_lem RecordingStopReason.application_shutdown evidence [] [] env m takes
          (is_recording_lem m.state rec) in
      rw (close_for_shutdown, e, e)
        (closed-Inv RecordingStopReason.application_shutdown evidence [] [] env m
          (is_recording_lem m.state rec) v)

  request_shutdown_lem :
      (request_shutdown env m).1 ≡ (if is_recording m.state then close_for_shutdown env m else m)
  unfolding request_shutdown is_recording
  request_shutdown_lem = ground arith

  -- A shutdown keeps the invariant, up to where it joins the worker.
  pub request_shutdown-Inv : Inv (request_shutdown env m).1
  request_shutdown-Inv =
      rw request_shutdown_lem
        (if_cases Inv (is_recording m.state) _ _ close_for_shutdown-Inv (λ e. v))
