-- ===== src/Recording/Manager/Invariant/Opening.antt =====
-- The `try` block of `startOrReplay`: a recording that starts has the invariant, and one that does not
-- leaves the manager without a thread.
use nodus_vision.Prelude.{
  ◌≡◌, refl, true, none, some, Text, arith, if_cases, bytes, if◌then◌else◌, ltb,
}
use nodus_vision.Prelude.Result.{Result, ok, err, runtime_error}
use nodus_vision.Recording.Contracts.{RecordingState, RecordingStartRequest}
use nodus_vision.Recording.Queue.{capacity}
use nodus_vision.Recording.Queue.Fifo.{
  IsRing, AllFrames, contents, cleared-IsRing, cleared-AllFrames, count-cleared,
}
use nodus_vision.Recording.Sidecar.{SidecarWriter, open_sidecar}
use nodus_vision.Recording.Sidecar.Ledger.{IsFresh, open_sidecar-IsFresh}
use nodus_vision.Recording.Manager.State.{
  RecordingArtifactPaths, Parts, Ambient, Worker, RecordingStartResult, Manager, Outcome, returned,
  thrown, ◌>>=◌, ◌>>◌, on_disk, from_result, modify, fault,
}
use nodus_vision.Recording.Manager.Start.{
  no_space, require_free_space, writer_config, open_outputs, begin_recording, start_worker, prepare,
}
use nodus_vision.Recording.Manager.Stop.{is_recording}
use nodus_vision.Recording.Manager.Outcomes.{Post, bind-Post, on_disk-Post, from_result-Post}
use nodus_vision.Recording.Manager.Invariant.{IsSome, HasLines, Inv}

-- Between the join and the new thread.
abbrev pub Ready : {P : Parts} → Manager P → Type 0
Ready m = (m.worker ≡ Worker.no_thread) × IsRing m.queue × AllFrames (contents m.queue)

abbrev Opened : {P : Parts} → Manager P → Type 0
Opened m = Ready m × IsSome m.writer × HasLines m.sidecar 0

pub fault-Inv : {P : Parts} (m : Manager P) → Ready m → Inv (fault m)
fault-Inv m (w, r, f) = record {
  ring = r;
  frames = f;
  standing = rw w refl;
  admits = unfold is_recording in refl;
  working = rw w tt;
}

module _ {P : Parts} (request : RecordingStartRequest) (canonical : Text) (env : Ambient) where
  abbrev Started : Outcome RecordingStartResult × Manager P → Type 0
  Started r = Post (λ _ n. Inv n) Ready r

  working_from :
      (m : Manager P)
      → Opened m
      → Inv (record (begin_recording request canonical env m) {
        worker = Worker.at_loop;
        state = RecordingState.recording;
        admitting = true;
      })
  unfolding begin_recording
  working_from m (ready, w, s) = record {
    ring = cleared-IsRing (capacity m.queue) ready.1.room;
    frames = cleared-AllFrames (capacity m.queue);
    standing = refl;
    admits = unfold is_recording in refl;
    working = record {
      video = w;
      lines = s;
      in_range = omega arith;
      balance = omega (arith, count-cleared (capacity m.queue));
    };
  }

  begin_recording-Ready :
      (m : Manager P) → Opened m → Ready (begin_recording request canonical env m)
  unfolding begin_recording
  begin_recording-Ready m (ready, w, s) = (
    ready.0,
    cleared-IsRing (capacity m.queue) ready.1.room,
    cleared-AllFrames (capacity m.queue),
  )

  abbrev Begun : Manager P → Type 0
  Begun n =
      Inv (record n { worker = Worker.at_loop; state = RecordingState.recording; admitting = true })

  begin_recording-Inv :
      (m : Manager P)
      → Opened m
      → Started ((modify (begin_recording request canonical env) >> start_worker env) m)
  unfolding start_worker
  begin_recording-Inv m h =
      let n = begin_recording request canonical env m in
      bind-Post (λ _. Begun) (λ _. Inv) Ready (from_result env.thread_start) _ n
        (from_result-Post (λ _. Begun) Ready env.thread_start n (λ a. working_from m h)
          (begin_recording-Ready m h))
        (λ _ o v. v)

  open_sidecar-Post :
      (r : Result SidecarWriter) (m : Manager P)
      → IsFresh r
      → Ready m × IsSome m.writer
      → Post
          (λ _. Opened)
          Ready
          ((from_result r >>= λ s. modify (λ n. record n { sidecar = some s })) m)
  open_sidecar-Post (err e) m f h = h.0
  open_sidecar-Post (ok s) m f h = (h.0, h.1, (f.0, f.1))

  open_outputs-Opened :
      (paths : RecordingArtifactPaths) (m : Manager P)
      → Ready m
      → Post (λ _. Opened) Ready (open_outputs request paths env m)
  unfolding open_outputs
  open_outputs-Opened paths m h =
      bind-Post (λ _. Ready) (λ _. Opened) Ready
        (on_disk (P.open_writer (writer_config P paths m.config))) _ m
        (on_disk-Post (λ _. Ready) Ready (P.open_writer (writer_config P paths m.config)) m
          (λ a d. h) (λ d. h))
        λ writer n ready.
          open_sidecar-Post
            (open_sidecar request.recording_id m.config.sensor_frame m.config.calibration_id
              env.sidecar_opens)
            (record n { writer = some writer })
            (open_sidecar-IsFresh request.recording_id m.config.sensor_frame m.config.calibration_id
              env.sidecar_opens)
            (ready, tt)

  abbrev Spared : Outcome (Unit {0}) × Manager P → Type 0
  Spared r = Post (λ _. Ready) Ready r

  require_free_space-Post :
      (m : Manager P) → Ready m → Post (λ _. Ready) Ready (require_free_space m)
  unfolding require_free_space
  require_free_space-Post m h =
      elim (P.available_space m.disk)
        as (λ space. Spared (elim space [
          | none ↦ (thrown (runtime_error (bytes no_space)), m)
          | some available ↦
              if ltb available m.config.minimum_free_bytes
              then (thrown (runtime_error (bytes no_space)), m)
              else (returned tt, m)
        ])) [
          | none ↦ h
          | some available ↦
              if_cases Spared (ltb available m.config.minimum_free_bytes) _ _ (λ e. h) (λ e. h)
        ]

  pub prepare-Inv :
      (m : Manager P) → Ready m → Post (λ _ n. Inv n) Ready (prepare request canonical env m)
  unfolding prepare
  prepare-Inv m h =
      bind-Post (λ _. Ready) (λ _. Inv) Ready (on_disk P.initialize) _ m
        (on_disk-Post (λ _. Ready) Ready P.initialize m (λ a d. h) (λ d. h))
        λ _ n k.
          bind-Post (λ _. Ready) (λ _. Inv) Ready require_free_space _ n
            (require_free_space-Post n k)
            λ _ o l.
              bind-Post (λ _. Ready) (λ _. Inv) Ready (on_disk (P.create_staging request)) _ o
                (on_disk-Post (λ _. Ready) Ready (P.create_staging request) o (λ a d. l) (λ d. l))
                λ paths p i.
                  bind-Post (λ _. Opened) (λ _. Inv) Ready (open_outputs request paths env) _
                    (record p { artifact_paths = paths })
                    (open_outputs-Opened paths (record p { artifact_paths = paths }) i)
                    (λ _. begin_recording-Inv)
