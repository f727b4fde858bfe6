-- ===== src/Recording/Manager/Invariant/Taking.antt =====
-- The locked part at the top of the worker's loop keeps the invariant.
use nodus_vision.Prelude.{
  Text, [], ℕ, ◌+◌, ◌-◌, ◌<◌, ◌≡◌, subst, Bool, true, false, not, ◌&&◌, Option, none, some, leb,
  ◌==◌, arith, if_cases, if◌then◌else◌,
}
use nodus_vision.Camera.Contracts.{CapturedFrame}
use nodus_vision.Recording.Contracts.{RecordingState, RecordingStopReason}
use nodus_vision.Recording.Queue.{pop}
use nodus_vision.Recording.Queue.Fifo.{IsFrame, pop-contents, pop-AllFrames, count-pop}
use nodus_vision.Recording.Sidecar.{SidecarWriter}
use nodus_vision.Recording.Manager.State.{Parts, Ambient, Worker, Manager}
use nodus_vision.Recording.Manager.Stop.{serialize_internal_stop_evidence}
use nodus_vision.Recording.Manager.Worker.{close_on_duration, take_frame}
use nodus_vision.Recording.Manager.Outcomes.{Post, bind-Post}
use nodus_vision.Recording.Manager.Invariant.{
  is_allowed, works, closes, IsSome, Balanced, Working, Inv, TakesStop,
}
use nodus_vision.Recording.Manager.Invariant.Running.{Stocked, Runs}
use nodus_vision.Recording.Manager.Invariant.Closing.{begin_finalization_lem, closed-Inv}

abbrev pub Looping : {P : Parts} → Manager P → Type 0
Looping m = Inv m × (m.worker ≡ Worker.at_loop)

not_stopped :
    (s : RecordingState) (stop : Bool)
    → works s stop ≡ true
    → stop ≡ false
    → s ≡ RecordingState.recording
not_stopped s stop h e = ground arith

stopped :
    (s : RecordingState) (stop : Bool) → works s stop ≡ true → stop ≡ true → closes s stop ≡ true
stopped s stop h e = ground arith

taken :
    {W : Type 0} (w : Option W) (s : Option SidecarWriter) (n a q : ℕ)
    → 0 < q
    → Balanced 0 0 w s n a q
    → Balanced 1 0 w s n a (q - 1)
taken w s n a q h b = record {
  video = b.video;
  lines = b.lines;
  in_range = b.in_range;
  balance = omega (arith, b.balance, h);
}

not_empty : (n : ℕ) → (n == 0) ≡ false → 0 < n
not_empty n h = ground arith

empty_lem : (n : ℕ) → (n == 0) ≡ true → n ≡ 0
empty_lem n h = ground arith

both_true : {a b : Bool} → not a && b ≡ true → (a ≡ false) × (b ≡ true)
both_true {a} {b} h = ground arith

IsFrame-IsSome : (o : Option CapturedFrame) → IsFrame o → IsSome o
IsFrame-IsSome none h = h
IsFrame-IsSome (some f) h = h

abbrev evidence : {P : Parts} → Manager P → Text
evidence m = serialize_internal_stop_evidence m.recording_id RecordingStopReason.max_duration

-- The clock after its first reading.
abbrev pub later : Ambient → Ambient
later env = record env { steady_now = λ k. env.steady_now (k + 1) }

module _ {P : Parts} (env : Ambient) where
  Inv-standing : (m : Manager P) → Looping m → works m.state m.stop_requested ≡ true
  Inv-standing m (v, w) = subst (λ t. is_allowed t m.state m.stop_requested ≡ true) w v.standing

  Inv-balance :
      (m : Manager P)
      → Looping m
      → Balanced 0 0 m.writer m.sidecar m.submitted_frame_count m.admitted_frame_count m.queue.count
  Inv-balance m (v, w) =
      subst
        (λ t.
          Working t m.writer m.sidecar m.submitted_frame_count m.admitted_frame_count m.queue.count)
        w v.working

  close_on_duration-Looping :
      (m : Manager P)
      → TakesStop m (later env).steady_now
      → Looping m
      → Post (λ _. Looping) Stocked (close_on_duration env m)
  unfolding close_on_duration
  close_on_duration-Looping m prompt (v, w) =
      if_cases (Post (λ _. Looping) Stocked)
        (not m.stop_requested && leb m.duration_deadline (env.steady_now 0)) _ _
        (λ over.
          let running =
            not_stopped m.state m.stop_requested (Inv-standing m (v, w)) (both_true over).0 in
          rw
            (begin_finalization_lem RecordingStopReason.max_duration (evidence m) [] [] (later env)
              m prompt running)
            (
              closed-Inv RecordingStopReason.max_duration (evidence m) [] [] (later env) m running
                  v,
              w,
            ))
        (λ e. (v, w))

  next-Inv :
      (m : Manager P)
      → Looping m
      → Inv (
          if m.queue.count == 0
          then (if m.stop_requested then record m { worker = Worker.closing } else m)
          else record m { worker = Worker.holding (pop m.queue).0; queue = (pop m.queue).1 })
  next-Inv m (v, w) =
      if_cases Inv (m.queue.count == 0) _ _
        (λ none_left.
          if_cases Inv m.stop_requested _ _
            (λ stop. record {
              ring = v.ring;
              frames = v.frames;
              standing = stopped m.state m.stop_requested (Inv-standing m (v, w)) stop;
              admits = v.admits;
              working = (empty_lem m.queue.count none_left, Inv-balance m (v, w));
            })
            (λ go_on. v))
        λ some_left.
          let room = not_empty m.queue.count some_left in
          record {
            ring = (pop-contents m.queue v.ring room).0;
            frames = (pop-AllFrames m.queue v.ring room v.frames).1;
            standing = Inv-standing m (v, w);
            admits = v.admits;
            working = (
              IsFrame-IsSome _ (pop-AllFrames m.queue v.ring room v.frames).0,
              rw (count-pop m.queue) (
                  taken m.writer m.sidecar m.submitted_frame_count m.admitted_frame_count
                    m.queue.count room (Inv-balance m (v, w))),
            );
          }

  -- The top of the worker's loop keeps the invariant.
  pub take_frame-Inv :
      (m : Manager P) → TakesStop m (later env).steady_now → Looping m → Runs (take_frame env m)
  unfolding take_frame
  take_frame-Inv m prompt h =
      bind-Post (λ _. Looping) (λ _. Inv) Stocked (close_on_duration env) _ m
        (close_on_duration-Looping m prompt h) (λ _ n k. next-Inv n k)
