-- ===== src/Recording/Manager/Invariant/Running.antt =====
-- The steps of the worker thread keep the invariant.
use nodus_vision.Prelude.{
  ℕ, ◌+◌, ◌%◌, ◌^◌, ◌≡◌, refl, Bool, true, false, Option, none, some, inc_u64, arith,
}
use nodus_vision.Prelude.Result.{Result, ok, err, Exception}
use nodus_vision.Camera.Contracts.{FrameIdentity, VideoFrameView, CapturedFrame}
use nodus_vision.Recording.Queue.Fifo.{IsRing, AllFrames, contents}
use nodus_vision.Recording.Sidecar.{RecordingFrameEntry, SidecarWriter, append}
use nodus_vision.Recording.Sidecar.Ledger.{IsAppended, append-IsAppended}
use nodus_vision.Recording.Manager.State.{
  Parts, Ambient, Worker, Manager, Outcome, undefined, Act, ◌>>=◌, throw_when, of_result,
}
use nodus_vision.Recording.Manager.Stop.{is_recording}
use nodus_vision.Recording.Manager.Finalize.{
  require_finalize_within_deadline, timeout_error, is_past_deadline,
}
use nodus_vision.Recording.Manager.Worker.{
  worker_fault, is_out_of_order, order_error, generation_error, is_other_generation, to_int64,
  write_video, append_line, write_color, process_frame, count_frame,
}
use nodus_vision.Recording.Manager.Outcomes.{Post, bind-Post, result-Post}
use nodus_vision.Recording.Manager.Invariant.{works, IsSome, HasLines, Balanced, Inv}

-- What outlives a fault of the worker.
abbrev pub Stocked : {P : Parts} → Manager P → Type 0
Stocked m = IsRing m.queue × AllFrames (contents m.queue)

-- The worker is in its loop and has taken one frame; its line is written if `extra` is 1.
pub record Held {P : Parts} (extra : ℕ) (m : Manager P) : Type 0 where
  pub ring : IsRing m.queue
  pub frames : AllFrames (contents m.queue)
  pub standing : works m.state m.stop_requested ≡ true
  pub admits : m.admitting ≡ is_recording m.state
  pub balance :
      Balanced 1 extra m.writer m.sidecar m.submitted_frame_count m.admitted_frame_count
        m.queue.count

pub worker_fault-Inv : {P : Parts} (m : Manager P) → Stocked m → Inv (worker_fault m)
unfolding worker_fault
worker_fault-Inv m (r, f) = record {
  ring = r;
  frames = f;
  standing = refl;
  admits = unfold is_recording in refl;
  working = tt;
}

abbrev pub Runs : {P : Parts} → Outcome (Unit {0}) × Manager P → Type 0
Runs r = Post (λ _. Inv) Stocked r

counted :
    {W : Type 0} (w : Option W) (s : Option SidecarWriter) (n a q : ℕ)
    → Balanced 1 1 w s n a q
    → Balanced 0 0 w s (inc_u64 n) a q
counted w none n a q b = absurd b.lines
counted w (some s) n a q b = record {
  video = b.video;
  lines = (b.lines.0, omega (arith, b.lines.1));
  in_range = omega arith;
  balance = omega (arith, b.balance);
}

module _ {P : Parts} where
  written-Inv :
      (identity : FrameIdentity) (m : Manager P)
      → Held 1 m
      → Inv (record m { worker = Worker.written identity })
  written-Inv identity m h = record {
    ring = h.ring;
    frames = h.frames;
    standing = h.standing;
    admits = h.admits;
    working = h.balance;
  }

  -- Counting a frame keeps the invariant.
  pub count_frame-Inv :
      (identity : FrameIdentity) (m : Manager P) → Held 1 m → Inv (count_frame identity m)
  unfolding count_frame
  count_frame-Inv identity m h = record {
    ring = h.ring;
    frames = h.frames;
    standing = h.standing;
    admits = h.admits;
    working =
        counted m.writer m.sidecar m.submitted_frame_count m.admitted_frame_count m.queue.count
          h.balance;
  }

  -- A guard that throws leaves the manager alone.
  pub throw_when-Post :
      (R : Manager P → Type 0) (bad : Bool) (e : Exception) (m : Manager P)
      → R m
      → Stocked m
      → Post (λ _. R) Stocked (throw_when bad e m)
  throw_when-Post R true e m h k = k
  throw_when-Post R false e m h k = h

  Held-Stocked : (x : ℕ) (m : Manager P) → Held x m → Stocked m
  Held-Stocked x m h = (h.ring, h.frames)

  with_writer :
      (writer : P.Writer) (m : Manager P) → Held 0 m → Held 0 (record m { writer = some writer })
  with_writer writer m h = record {
    ring = h.ring;
    frames = h.frames;
    standing = h.standing;
    admits = h.admits;
    balance = record {
      video = tt;
      lines = h.balance.lines;
      in_range = h.balance.in_range;
      balance = h.balance.balance;
    };
  }

  video-Post :
      (color : VideoFrameView) (m : Manager P) (w : Option P.Writer)
      → IsSome w
      → Held 0 m
      → Post {P = P} {A = ℕ}
          (λ _. Held 0)
          Stocked
          (elim w [
            | none ↦ (undefined, m)
            | some writer ↦
                let (r, writer') = P.write_frame color writer in
                (of_result r, record m { writer = some writer' })
          ])
  video-Post color m none s h = absurd s
  video-Post color m (some writer) s h =
      let (r, writer') = P.write_frame color writer in
      result-Post (λ _. Held 0) Stocked r (record m { writer = some writer' })
        (λ _. with_writer writer' m h) (h.ring, h.frames)

  write_video-Post :
      (color : VideoFrameView) (m : Manager P)
      → Held 0 m
      → Post (λ _. Held 0) Stocked (write_video color m)
  unfolding write_video
  write_video-Post color m h = video-Post color m m.writer h.balance.video h

  appended-Post :
      (m : Manager P) (s : SidecarWriter) (r : Result (Unit {0}) × SidecarWriter)
      → s.entry_count ≡ (m.submitted_frame_count + 0) % 2 ^ 64
      → IsAppended s r
      → Held 0 m
      → Post (λ _. Held 1) Stocked (of_result r.0, record m { sidecar = some r.1 })
  appended-Post m s (err e, t) c a h = (h.ring, h.frames)
  appended-Post m s (ok _, t) c (v, e) h = record {
    ring = h.ring;
    frames = h.frames;
    standing = h.standing;
    admits = h.admits;
    balance = record {
      video = h.balance.video;
      lines = (v, omega (arith, c, e));
      in_range = h.balance.in_range;
      balance = h.balance.balance;
    };
  }

  line-Post :
      (entry : RecordingFrameEntry) (takes : Bool) (m : Manager P) (s : Option SidecarWriter)
      → HasLines s (m.submitted_frame_count + 0)
      → Held 0 m
      → Post {P = P} {A = Unit {0}}
          (λ _. Held 1)
          Stocked
          (elim s [
            | none ↦ (undefined, m)
            | some sidecar ↦
                let (r, sidecar') = append sidecar entry takes in
                (of_result r, record m { sidecar = some sidecar' })
          ])
  line-Post entry takes m none l h = absurd l
  line-Post entry takes m (some s) (v, c) h =
      appended-Post m s (append s entry takes) c (append-IsAppended s entry takes v) h

  append_line-Post :
      (env : Ambient) (index : ℕ) (identity : FrameIdentity) (m : Manager P)
      → Held 0 m
      → Post (λ _. Held 1) Stocked (append_line index identity env m)
  unfolding append_line
  append_line-Post env index identity m h =
      line-Post
        (record { video_frame_index = index; video_pts = to_int64 index; identity = identity })
        env.stream_takes m m.sidecar h.balance.lines h

  -- A frame whose order is right has a color image.
  write_color-Post :
      (env : Ambient) (color : Option VideoFrameView) (identity : FrameIdentity) (m : Manager P)
      → IsSome color
      → Held 0 m
      → Post (λ _. Held 1) Stocked (write_color color identity env m)
  unfolding write_color
  write_color-Post env none identity m s h = absurd s
  write_color-Post env (some color) identity m s h =
      bind-Post (λ _. Held 0) (λ _. Held 1) Stocked (write_video color) _ m
        (write_video-Post color m h) (λ index n k. append_line-Post env index identity n k)

  in_order_IsSome :
      (color : Option VideoFrameView) (identity : FrameIdentity) (m : Manager P)
      → is_out_of_order color identity m ≡ false
      → IsSome color
  unfolding is_out_of_order
  in_order_IsSome none identity m h = cc h
  in_order_IsSome (some color) identity m h = tt

  -- The rule for a guard.
  pub guard-Post :
      (R : Manager P → Type 0) (bad : Bool) (e : Exception) (f : Unit {0} → Act P (Unit {0}))
      (m : Manager P)
      → Stocked m
      → (bad ≡ false → Post (λ _. R) Stocked (f tt m))
      → Post (λ _. R) Stocked ((throw_when bad e >>= f) m)
  guard-Post R true e f m k h = k
  guard-Post R false e f m k h = h refl

  pub process_frame-Inv :
      (env : Ambient) (frame : CapturedFrame) (m : Manager P)
      → Held 0 m
      → Runs (process_frame (some frame) env m)
  unfolding process_frame require_finalize_within_deadline
  process_frame-Inv env frame m h =
      guard-Post Inv (is_past_deadline 0 env m) timeout_error _ m (h.ring, h.frames)
        λ in_time.
          guard-Post Inv (is_out_of_order frame.color_view frame.snapshot.identity m) order_error _
            m (h.ring, h.frames)
            λ in_order.
              guard-Post Inv (is_other_generation frame.snapshot.identity m) generation_error _ m
                (h.ring, h.frames)
                λ same.
                  bind-Post (λ _. Held 1) (λ _. Inv) Stocked
                    (write_color frame.color_view frame.snapshot.identity env) _ m
                    (write_color-Post env frame.color_view frame.snapshot.identity m
                      (in_order_IsSome frame.color_view frame.snapshot.identity m in_order) h)
                    (λ _ n k. written-Inv frame.snapshot.identity n k)
