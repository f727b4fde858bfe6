-- ===== src/Recording/Manager/Invariant/Finishing.antt =====
-- `finalizeArtifacts` and the whole of the worker's steps keep the invariant.
use nodus_vision.Prelude.{◌≡◌, refl, Bool, true, false, Option, none, some, bytes}
use nodus_vision.Prelude.Result.{Result, Exception}
use nodus_vision.Recording.Contracts.{RecordingState}
use nodus_vision.Recording.Sidecar.{SidecarWriter, finalize_sidecar}
use nodus_vision.Recording.Manager.State.{
  RecordingArtifactDigest, FinalizedRecordingManifest, Parts, Ambient, Worker, Manager, Outcome,
  returned, thrown, blocked, undefined, on_disk, from_result, throw_when, of_result,
}
use nodus_vision.Recording.Manager.Stop.{is_recording}
use nodus_vision.Recording.Manager.Finalize.{
  timeout_error, is_past_deadline, require_finalize_within_deadline, make_manifest, close_video,
  close_lines, close_files, digest, activate, publish_artifact, finalize_artifacts,
}
use nodus_vision.Recording.Manager.Worker.{or_fault}
use nodus_vision.Recording.Manager.Outcomes.{
  Post, bind-Post, result-Post, on_disk-Post, from_result-Post,
}
use nodus_vision.Recording.Manager.Invariant.{IsSome, Inv}
use nodus_vision.Recording.Manager.Invariant.Running.{Stocked, Runs, worker_fault-Inv, guard-Post}

-- The worker left the loop: nobody admits frames, and both files are there.
abbrev pub Shut : {P : Parts} → Manager P → Type 0
Shut m = Stocked m × (m.admitting ≡ false) × IsSome m.writer × IsSome m.sidecar

module _ {P : Parts} where
  abbrev Shuts : Outcome (Unit {0}) × Manager P → Type 0
  Shuts r = Post (λ _. Shut) Stocked r

  video-Shut :
      (m : Manager P) (w : Option P.Writer)
      → IsSome w
      → Shut m
      → Shuts (elim w [
        | none ↦ (undefined, m)
        | some writer ↦
            let (r, writer') = P.finalize_writer writer in
            (of_result r, record m { writer = some writer' })
      ])
  video-Shut m none s h = absurd s
  video-Shut m (some writer) s h =
      let (r, writer') = P.finalize_writer writer in
      result-Post (λ _. Shut) Stocked r (record m { writer = some writer' })
        (λ _. (h.0, h.1, tt, h.3)) h.0

  close_video-Shut : (m : Manager P) → Shut m → Shuts (close_video m)
  unfolding close_video
  close_video-Shut m h = video-Shut m m.writer h.2 h

  lines-Shut :
      (flushes closes : Bool) (m : Manager P) (s : Option SidecarWriter)
      → IsSome s
      → Shut m
      → Shuts (elim s [
        | none ↦ (undefined, m)
        | some sidecar ↦
            let (r, sidecar') = finalize_sidecar sidecar flushes closes in
            (of_result r, record m { sidecar = some sidecar' })
      ])
  lines-Shut flushes closes m none s h = absurd s
  lines-Shut flushes closes m (some sidecar) s h =
      let (r, sidecar') = finalize_sidecar sidecar flushes closes in
      result-Post (λ _. Shut) Stocked r (record m { sidecar = some sidecar' })
        (λ _. (h.0, h.1, h.2, tt)) h.0

  close_lines-Shut : (env : Ambient) (m : Manager P) → Shut m → Shuts (close_lines env m)
  unfolding close_lines
  close_lines-Shut env m h = lines-Shut env.stream_takes env.stream_closes m m.sidecar h.3 h

  finalized-Inv :
      (m : Manager P)
      → Shut m
      → Inv (record m { state = RecordingState.finalized; worker = Worker.ended })
  finalized-Inv m (stock, a, w, s) = record {
    ring = stock.0;
    frames = stock.1;
    standing = refl;
    admits = unfold is_recording in a;
    working = tt;
  }

  guarded : (bad : Bool) (e : Exception) (m : Manager P) → Shut m → Shuts (throw_when bad e m)
  guarded true e m h = h.0
  guarded false e m h = h

  close_files-Shut : (env : Ambient) (m : Manager P) → Shut m → Shuts (close_files env m)
  unfolding close_files require_finalize_within_deadline
  close_files-Shut env m h = guard-Post Shut (is_past_deadline 0 env m) timeout_error _ m h.0 λ _.
      bind-Post (λ _. Shut) (λ _. Shut) Stocked close_video _ m (close_video-Shut m h)
        λ _ n k. guard-Post Shut (is_past_deadline 1 env n) timeout_error _ n k.0 λ _.
          bind-Post (λ _. Shut) (λ _. Shut) Stocked (close_lines env) _ n (close_lines-Shut env n k)
            (λ _ o l. guarded (is_past_deadline 2 env o) timeout_error o l)

  -- What does not touch the manager.
  result-Shut :
      {A : Type 0} (r : Result A) (m : Manager P)
      → Shut m
      → Post (λ _. Shut) Stocked (from_result r m)
  result-Shut r m h = from_result-Post (λ _. Shut) Stocked r m (λ a. h) h.0

  disk-Shut :
      {A : Type 0} (f : P.Disk → Result A × P.Disk) (m : Manager P)
      → Shut m
      → Post (λ _. Shut) Stocked (on_disk f m)
  disk-Shut f m h = on_disk-Post (λ _. Shut) Stocked f m (λ a d. h) (λ d. h.0)

  activate-Inv :
      (fields : FinalizedRecordingManifest) (video sidecar : RecordingArtifactDigest)
      (env : Ambient) (m : Manager P)
      → Shut m
      → Runs (activate fields video sidecar env m)
  unfolding activate require_finalize_within_deadline
  activate-Inv fields video sidecar env m h =
      let r = P.serialize_manifest fields video sidecar in
      let rename = P.activate_finalized m.artifact_paths in
      bind-Post (λ _. Shut) (λ _. Inv) Stocked (from_result r) _ m (result-Shut r m h)
        λ manifest n k.
          let write = P.write_finalized_manifest m.artifact_paths manifest in
          bind-Post (λ _. Shut) (λ _. Inv) Stocked (on_disk write) _ n (disk-Shut write n k)
            λ _ o l. guard-Post Inv (is_past_deadline 4 env o) timeout_error _ o l.0 λ _.
              bind-Post (λ _. Shut) (λ _. Inv) Stocked (on_disk rename) _ o (disk-Shut rename o l)
                (λ _ p i. finalized-Inv p i)

  publish_artifact-Inv : (env : Ambient) (m : Manager P) → Shut m → Runs (publish_artifact env m)
  unfolding publish_artifact require_finalize_within_deadline
  publish_artifact-Inv env m h =
      let video = digest (bytes "color.mp4") m in
      let lines = digest (bytes "frames.jsonl") m in
      bind-Post (λ _. Shut) (λ _. Inv) Stocked (from_result video) _ m (result-Shut video m h)
        λ v n k.
          bind-Post (λ _. Shut) (λ _. Inv) Stocked (from_result lines) _ n (result-Shut lines n k)
            λ l o i. guard-Post Inv (is_past_deadline 3 env o) timeout_error _ o i.0 λ _.
              let stopped = record o {
                stopped_monotonic_ns = env.monotonic_now_ns;
                stopped_unix_epoch_ns = env.unix_now_ns;
              } in
              activate-Inv (make_manifest stopped) v l env stopped i

  pub finalize_artifacts-Inv :
      (env : Ambient) (m : Manager P) → Shut m → Runs (finalize_artifacts env m)
  unfolding finalize_artifacts
  finalize_artifacts-Inv env m h =
      bind-Post (λ _. Shut) (λ _. Inv) Stocked (close_files env) _ m (close_files-Shut env m h)
        (λ _ n k. publish_artifact-Inv env n k)

  pub or_fault-Inv : (r : Outcome (Unit {0}) × Manager P) → Runs r → Inv (or_fault (λ _. r) r.1)
  or_fault-Inv (returned a, n) h = h
  or_fault-Inv (thrown e, n) h = worker_fault-Inv n h
  or_fault-Inv (blocked, n) h = absurd h
  or_fault-Inv (undefined, n) h = absurd h
