-- ===== src/Recording/Manager/Lifecycle.antt =====
-- The capture thread, the callers and the worker thread, interleaved: every call of
-- src/recording/recording_manager.cpp as an event.
use nodus_vision.Prelude.{
  ◌+◌, ◌<◌, ◌==◌, ◌||◌, if◌then◌else◌, bytes, ℕ, ◌≡◌, refl, subst, Bool, false, Option, List, [],
  ◌∷◌, arith, if_cases,
}
use nodus_vision.Prelude.Result.{Result, invalid_argument, ok, err}
use nodus_vision.Camera.Contracts.{CapturedFrame}
use nodus_vision.Recording.Contracts.{RecordingStartRequest}
use nodus_vision.Recording.Queue.Fifo.{contents, contents-empty, cleared-IsRing, cleared-AllFrames}
use nodus_vision.Recording.Manager.State.{
  undefined, RecordingManagerConfig, Parts, Ambient, Worker, RecordingStartResult, Manager, Outcome,
  returned, thrown, blocked,
}
use nodus_vision.Recording.Manager.Setup.{is_config_invalid, initial, construct, join_worker}
use nodus_vision.Recording.Manager.Start.{start_or_replay}
use nodus_vision.Recording.Manager.Stop.{
  is_recording, finalize_or_replay, request_shutdown, shutdown_join,
}
use nodus_vision.Recording.Manager.Submit.{try_submit_frame}
use nodus_vision.Recording.Manager.Worker.{worker_step}
use nodus_vision.Recording.Manager.Outcomes.{Post}
use nodus_vision.Recording.Manager.Invariant.{HasLines, Inv, TakesStop}
use nodus_vision.Recording.Manager.Invariant.Queueing.{try_submit_frame-Inv}
use nodus_vision.Recording.Manager.Invariant.Stopping.{finalize_or_replay-Inv, request_shutdown-Inv}
use nodus_vision.Recording.Manager.Invariant.Starting.{start_or_replay-Inv, ended_rests}
use nodus_vision.Recording.Manager.Invariant.Stepping.{
  TakesOnDuration, standing_at, balance_at, worker_step-Inv,
}

-- What a thread does with the manager, one hold of the lock at a time. `works` is the worker's next
-- step, and `joins` the end of `finalize`.
pub data Event : Type 0 where
  starts : RecordingStartRequest → Ambient → Event
  offers : Option CapturedFrame → Bool → Event
  stops : RecordingStartRequest → Ambient → Event
  shuts_down : Ambient → Event
  joins : Event
  works : Ambient → Event

unfoldable pub step : {P : Parts} → Manager P → Event → Manager P
step m (starts request env) = (start_or_replay request env m).1
step m (offers frame owns_lock) = (try_submit_frame frame owns_lock m).1
step m (stops request env) = (finalize_or_replay request env m).1
step m (shuts_down env) = (request_shutdown env m).1
step m joins = (shutdown_join m).1
step m (works env) = worker_step env m

unfoldable pub run : {P : Parts} → Manager P → List Event → Manager P
run m [] = m
run m (e ∷ es) = run (step m e) es

-- The files take the stop request that an event may write.
abbrev TakesStopFor : {P : Parts} → Manager P → Event → Type 0
TakesStopFor m (stops request env) = TakesStop m env.steady_now
TakesStopFor m (shuts_down env) = TakesStop m env.steady_now
TakesStopFor m (works env) = TakesOnDuration m env
TakesStopFor m _ = Unit

abbrev pub TakeStops : {P : Parts} → Manager P → List Event → Type 0
TakeStops m [] = Unit
TakeStops m (e ∷ es) = TakesStopFor m e × TakeStops (step m e) es

module _ {P : Parts} where
  Post-Inv : (r : Outcome RecordingStartResult × Manager P) → Post (λ _. Inv) Inv r → Inv r.1
  Post-Inv (returned a, n) h = h
  Post-Inv (thrown e, n) h = h
  Post-Inv (blocked, n) h = absurd h
  Post-Inv (undefined, n) h = absurd h

  joined :
      (m : Manager P) (w : Worker)
      → m.worker ≡ w
      → Inv m
      → Inv
          (elim w as (λ _. Outcome (Unit {0}) × Manager P) [
            | Worker.no_thread ↦ (returned tt, m)
            | Worker.ended ↦ (returned tt, record m { worker = Worker.no_thread })
            | _ ↦ (blocked, m)
          ]).1
  joined m Worker.ended e v = record {
    ring = v.ring;
    frames = v.frames;
    standing = ended_rests m.state m.stop_requested (standing_at m Worker.ended e v);
    admits = v.admits;
    working = tt;
  }
  joined m Worker.no_thread e v = v
  joined m Worker.at_loop e v = v
  joined m Worker.closing e v = v
  joined m (Worker.holding f) e v = v
  joined m (Worker.written i) e v = v

  any_step-Inv : (e : Event) (m : Manager P) → TakesStopFor m e → Inv m → Inv (step m e)
  unfolding step
  any_step-Inv (starts request env) m p v = Post-Inv _ (start_or_replay-Inv request env m v)
  any_step-Inv (offers frame owns_lock) m p v = try_submit_frame-Inv frame owns_lock m v
  any_step-Inv (stops request env) m p v = finalize_or_replay-Inv env m v p request
  any_step-Inv (shuts_down env) m p v = request_shutdown-Inv env m v p
  any_step-Inv joins m p v = unfold shutdown_join in unfold join_worker in joined m m.worker refl v
  any_step-Inv (works env) m p v = worker_step-Inv env m p v

  run-Inv : (es : List Event) (m : Manager P) → TakeStops m es → Inv m → Inv (run m es)
  unfolding run
  run-Inv [] m p v = v
  run-Inv (e ∷ es) m p v = run-Inv es (step m e) p.1 (any_step-Inv e m p.0 v)

some_room : (n : ℕ) (rest : Bool) → (n == 0 || rest) ≡ false → 0 < n
some_room n rest h = ground arith

initial-Inv :
    {P : Parts} (config : RecordingManagerConfig) (disk : P.Disk)
    → is_config_invalid config ≡ false
    → Inv (initial {P = P} config disk)
unfolding initial is_config_invalid
initial-Inv config disk h = record {
  ring = cleared-IsRing config.queue_capacity_frames (some_room config.queue_capacity_frames _ h);
  frames = cleared-AllFrames config.queue_capacity_frames;
  standing = refl;
  admits = unfold is_recording in refl;
  working = tt;
}

abbrev ReachesInv : {P : Parts} → Result (Manager P) → Type 0
ReachesInv (ok m) = Inv m
ReachesInv (err e) = Unit

construct-ReachesInv :
    (P : Parts) (config : RecordingManagerConfig) → ReachesInv (construct P config)
unfolding construct
construct-ReachesInv P config =
    elim (P.open_store config.root)
      as (λ r. ReachesInv {P = P} (elim r [
        | err e ↦ err e
        | ok disk ↦
            if is_config_invalid config
            then err (invalid_argument (bytes "Recording manager configuration is invalid."))
            else ok (initial config disk)
      ])) [
        | err e ↦ tt
        | ok disk ↦
            if_cases (ReachesInv {P = P}) (is_config_invalid config) _ _ (λ e. tt)
              (λ e. initial-Inv config disk e)
      ]

-- A new manager has the invariant.
pub construct-Inv :
    (P : Parts) (config : RecordingManagerConfig) (m : Manager P)
    → construct P config ≡ ok m
    → Inv m
construct-Inv P config m h = subst ReachesInv h (construct-ReachesInv P config)

-- In every state that a manager reaches from its constructor, by any calls of the callers, of the
-- capture thread and of the worker, as long as every stop request that is written while a recording
-- runs is taken by the files before the finalize timeout, the invariant holds: the queue is a ring of
-- frames, the worker stands where the state allows it, frames are admitted exactly in e_RECORDING,
-- and while the worker thread runs the admitted frames are those counted, with it or queued, each
-- counted one with its line.
pub run-reaches-Inv :
    {P : Parts} (config : RecordingManagerConfig) (m : Manager P) (es : List Event)
    → construct P config ≡ ok m
    → TakeStops m es
    → Inv (run m es)
run-reaches-Inv {P} config m es h p = run-Inv es m p (construct-Inv P config m h)

plus_zero : (n : ℕ) → n + 0 ≡ n
plus_zero n = omega arith

closing_balance :
    {P : Parts} (m : Manager P)
    → Inv m
    → m.worker ≡ Worker.closing
    → (contents m.queue ≡ [])
      × (m.admitted_frame_count ≡ m.submitted_frame_count)
      × HasLines m.sidecar m.submitted_frame_count
closing_balance m v e =
    let (none_left, b) = balance_at m Worker.closing e v in
    (
      contents-empty m.queue none_left,
      omega (arith, b.balance, b.in_range, none_left),
      subst (HasLines m.sidecar) (plus_zero m.submitted_frame_count) b.lines,
    )

-- Whenever a run from the constructor brings the worker out of its loop without a fault, where every
-- stop request that is written while a recording runs is taken by the files before the finalize
-- timeout, the queue is empty, as many frames are counted as admitted, and the sidecar has a line for
-- each.
pub run-closing_balance :
    {P : Parts} (config : RecordingManagerConfig) (m : Manager P) (es : List Event)
    → construct P config ≡ ok m
    → TakeStops m es
    → (run m es).worker ≡ Worker.closing
    → (contents (run m es).queue ≡ [])
      × ((run m es).admitted_frame_count ≡ (run m es).submitted_frame_count)
      × HasLines (run m es).sidecar (run m es).submitted_frame_count
run-closing_balance config m es h p = closing_balance (run m es) (run-reaches-Inv config m es h p)
