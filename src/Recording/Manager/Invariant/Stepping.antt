-- ===== src/Recording/Manager/Invariant/Stepping.antt =====
-- The steps of the worker thread, from wherever it stands, keep the invariant.
use nodus_vision.Prelude.{ℕ, ◌∙◌, ◌≡◌, refl, subst, Bool, true, false, Option, none, some, arith}
use nodus_vision.Recording.Contracts.{RecordingState}
use nodus_vision.Recording.Sidecar.{SidecarWriter}
use nodus_vision.Recording.Manager.State.{Parts, Ambient, Worker, Manager}
use nodus_vision.Recording.Manager.Stop.{is_recording}
use nodus_vision.Recording.Manager.Finalize.{finalize_artifacts}
use nodus_vision.Recording.Manager.Worker.{
  or_fault, take_frame, process_frame, count_frame, worker_step,
}
use nodus_vision.Recording.Manager.Invariant.{
  is_allowed, closes, IsSome, HasLines, Working, Inv, TakesStop,
}
use nodus_vision.Recording.Manager.Invariant.Running.{process_frame-Inv, count_frame-Inv}
use nodus_vision.Recording.Manager.Invariant.Taking.{later, take_frame-Inv}
use nodus_vision.Recording.Manager.Invariant.Finishing.{finalize_artifacts-Inv, or_fault-Inv}

closes_lem : (s : RecordingState) (stop : Bool) → closes s stop ≡ true → is_recording s ≡ false
unfolding is_recording
closes_lem s stop h = ground arith

HasLines-IsSome : (s : Option SidecarWriter) (n : ℕ) → HasLines s n → IsSome s
HasLines-IsSome none n h = h
HasLines-IsSome (some s) n h = tt

-- What the worker's next step relies on: only at the top of the loop does it close a recording.
abbrev pub TakesOnDuration : {P : Parts} → Manager P → Ambient → Type 0
TakesOnDuration m env = m.worker ≡ Worker.at_loop → TakesStop m (later env).steady_now

module _ {P : Parts} where
  pub standing_at :
      (m : Manager P) (w : Worker)
      → m.worker ≡ w
      → Inv m
      → is_allowed w m.state m.stop_requested ≡ true
  standing_at m w e v = subst (λ t. is_allowed t m.state m.stop_requested ≡ true) e v.standing

  pub balance_at :
      (m : Manager P) (w : Worker)
      → m.worker ≡ w
      → Inv m
      → Working w m.writer m.sidecar m.submitted_frame_count m.admitted_frame_count m.queue.count
  balance_at m w e v =
      subst
        (λ t.
          Working t m.writer m.sidecar m.submitted_frame_count m.admitted_frame_count m.queue.count)
        e v.working

  step-Inv :
      (env : Ambient) (m : Manager P) (w : Worker)
      → m.worker ≡ w
      → TakesOnDuration m env
      → Inv m
      → Inv (elim w [
        | Worker.no_thread ↦ m
        | Worker.at_loop ↦ or_fault (take_frame env) m
        | Worker.holding frame ↦ or_fault (process_frame frame env) m
        | Worker.written identity ↦ count_frame identity m
        | Worker.closing ↦ or_fault (finalize_artifacts env) m
        | Worker.ended ↦ m
      ])
  step-Inv env m Worker.no_thread e p v = v
  step-Inv env m Worker.ended e p v = v
  step-Inv env m Worker.at_loop e p v =
      or_fault-Inv (take_frame env m) (take_frame-Inv env m (p e) (v, e))
  step-Inv env m (Worker.holding none) e p v = absurd (balance_at m (Worker.holding none) e v).0
  step-Inv env m (Worker.holding (some frame)) e p v =
      or_fault-Inv (process_frame (some frame) env m) (
        process_frame-Inv env frame m (record {
          ring = v.ring;
          frames = v.frames;
          standing = standing_at m (Worker.holding (some frame)) e v;
          admits = v.admits;
          balance = (balance_at m (Worker.holding (some frame)) e v).1;
        }))
  step-Inv env m (Worker.written identity) e p v = count_frame-Inv identity m (record {
    ring = v.ring;
    frames = v.frames;
    standing = standing_at m (Worker.written identity) e v;
    admits = v.admits;
    balance = balance_at m (Worker.written identity) e v;
  })
  step-Inv env m Worker.closing e p v = or_fault-Inv (finalize_artifacts env m) (
      finalize_artifacts-Inv env m (
        (v.ring, v.frames),
        v.admits ∙ closes_lem m.state m.stop_requested (standing_at m Worker.closing e v),
        (balance_at m Worker.closing e v).1.video,
        HasLines-IsSome m.sidecar _ (balance_at m Worker.closing e v).1.lines,
      ))

  -- A step of the worker thread keeps the invariant.
  pub worker_step-Inv :
      (env : Ambient) (m : Manager P) → TakesOnDuration m env → Inv m → Inv (worker_step env m)
  unfolding worker_step
  worker_step-Inv env m p v = step-Inv env m m.worker refl p v
