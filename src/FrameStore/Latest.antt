-- ===== src/FrameStore/Latest.antt =====
-- What the slot holds after any history, and what its readers get.
use nodus_vision.Prelude.{
  ℕ, ◌*◌, ◌-◌, ◌≤◌, ◌≡◌, ◌⊎◌, ◌↔◌, inl, inr, refl, false, Option, none, some, List, [], ◌∷◌, All,
  arith, Bool-cases,
}
use nodus_vision.Prelude.Int.{ℤ, pos, pos_part, ◌<ℤ◌}
use nodus_vision.Camera.Contracts.{FrameIdentity, CapturedFrame}
use nodus_vision.Camera.Order.{is_newer_identity, is_newer_identity_iff, Newer, Newer-irrefl}
use nodus_vision.FrameStore.{
  FrameStore, empty, publish_frame, acquire_fresh_frame, has_newer_frame, wait_for_frame_after,
  clear, Event, publish, cleared, step, run,
}

-- The frames published since the last `clear`, newest call first.
abbrev pub seen : List CapturedFrame → List Event → List CapturedFrame
seen fs [] = fs
seen fs (publish now none ∷ es) = seen fs es
seen fs (publish now (some f) ∷ es) = seen (f ∷ fs) es
seen fs (cleared ∷ es) = seen [] es

abbrev pub Has : CapturedFrame → List CapturedFrame → Type 0
Has f [] = ⊥
Has f (g ∷ gs) = (g ≡ f) ⊎ Has f gs

abbrev pub NoneNewer : CapturedFrame → List CapturedFrame → Type 0
NoneNewer f = All (λ g. ¬ Newer g.snapshot.identity f.snapshot.identity)

-- The frame is the latest one in some store of the list.
abbrev pub HeldBy : CapturedFrame → List FrameStore → Type 0
HeldBy f [] = ⊥
HeldBy f (s ∷ ss) = (s.latest_frame ≡ some f) ⊎ HeldBy f ss

-- The slot holds one of the frames, and none of them is newer.
abbrev pub IsLatest : Option CapturedFrame → List CapturedFrame → Type 0
IsLatest none fs = fs ≡ []
IsLatest (some f) fs = Has f fs × NoneNewer f fs

NoneNewer-mono :
    (f g : CapturedFrame) (fs : List CapturedFrame)
    → Newer g.snapshot.identity f.snapshot.identity
    → NoneNewer f fs
    → NoneNewer g fs
NoneNewer-mono f g [] n h = tt
NoneNewer-mono f g (x ∷ fs) n (h, hs) = (λ m. h (omega arith), NoneNewer-mono f g fs n hs)

publish-IsLatest :
    (o : Option CapturedFrame) (at now : ℕ) (f : CapturedFrame) (fs : List CapturedFrame)
    → IsLatest o fs
    → IsLatest
        (publish_frame (record { latest_frame = o; published_at = at }) now (some f)).0.latest_frame
        (f ∷ fs)
unfolding publish_frame
publish-IsLatest none at now f fs h = rw h (inl refl, (Newer-irrefl f.snapshot.identity, tt))
publish-IsLatest (some g) at now f fs (m, n) =
    elim (Bool-cases (is_newer_identity f.snapshot.identity g.snapshot.identity)) [
      | inl e ↦ rw e (
        inl refl,
        (
          Newer-irrefl f.snapshot.identity,
          NoneNewer-mono g f fs
              ((is_newer_identity_iff f.snapshot.identity g.snapshot.identity).0 e) n,
        ),
      )
      | inr e ↦ rw e (
        inr m,
        ((λ k. cc (e, (is_newer_identity_iff f.snapshot.identity g.snapshot.identity).1 k)), n),
      )
    ]

step-IsLatest :
    (s : FrameStore) (fs : List CapturedFrame) (e : Event)
    → IsLatest s.latest_frame fs
    → IsLatest (step s e).latest_frame (seen fs (e ∷ []))
unfolding step publish_frame clear
step-IsLatest s fs (publish now none) h = h
step-IsLatest s fs (publish now (some f)) h =
    publish-IsLatest s.latest_frame s.published_at now f fs h
step-IsLatest s fs cleared h = refl

run_from-IsLatest :
    (s : FrameStore) (fs : List CapturedFrame) (es : List Event)
    → IsLatest s.latest_frame fs
    → IsLatest (run s es).latest_frame (seen fs es)
unfolding run step clear
run_from-IsLatest s fs [] h = h
run_from-IsLatest s fs (publish now none ∷ es) h =
    run_from-IsLatest (step s (publish now none)) fs es (step-IsLatest s fs (publish now none) h)
run_from-IsLatest s fs (publish now (some f) ∷ es) h =
    run_from-IsLatest (step s (publish now (some f))) (f ∷ fs) es
      (step-IsLatest s fs (publish now (some f)) h)
run_from-IsLatest s fs (cleared ∷ es) h = run_from-IsLatest (step s cleared) [] es refl

-- After any history of publications and clears that starts from the empty store, the slot is empty
-- exactly when no frame was published since the last clear; otherwise it holds one of those frames,
-- and none of them has a newer identity.
pub run-IsLatest : (es : List Event) → IsLatest (run empty es).latest_frame (seen [] es)
run-IsLatest es = run_from-IsLatest empty [] es refl

-- A reader with an age limit gets a frame exactly when the slot holds it, the limit is positive and
-- the time since its publication does not exceed the limit (milliseconds against nanoseconds).
pub acquire_fresh_frame_iff :
    (s : FrameStore) (now : ℕ) (max_age : ℤ) (f : CapturedFrame)
    → (acquire_fresh_frame s now max_age ≡ some f) ↔ (
        (s.latest_frame ≡ some f)
        × (pos 0 <ℤ max_age)
        × (now - s.published_at ≤ pos_part max_age * 1_000_000))
unfolding acquire_fresh_frame
acquire_fresh_frame_iff s now max_age f = ground arith

module _ (identity : FrameIdentity) where
  -- A waiting reader goes away empty-handed exactly when none of the stores that it saw held a
  -- frame newer than the identity it gave.
  pub wait_for_frame_after-none :
      (s : FrameStore) (later : List FrameStore)
      → (wait_for_frame_after identity s later ≡ none)
        ↔ All (λ t. has_newer_frame t identity ≡ false) (s ∷ later)
  unfolding wait_for_frame_after
  wait_for_frame_after-none s [] = ground arith
  wait_for_frame_after-none s (s' ∷ later) = ground (arith, wait_for_frame_after-none s' later)

  -- What it gets otherwise is newer than that identity, and was the latest frame of a store it saw.
  pub wait_for_frame_after-Newer :
      (s : FrameStore) (later : List FrameStore) (f : CapturedFrame)
      → wait_for_frame_after identity s later ≡ some f
      → Newer f.snapshot.identity identity × HeldBy f (s ∷ later)
  unfolding wait_for_frame_after
  wait_for_frame_after-Newer s [] f h =
      ground (arith, is_newer_identity_iff f.snapshot.identity identity)
  wait_for_frame_after-Newer s (s' ∷ later) f h = ground (
    arith,
    is_newer_identity_iff f.snapshot.identity identity,
    wait_for_frame_after-Newer s' later f,
  )
