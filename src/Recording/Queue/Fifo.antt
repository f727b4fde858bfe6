-- ===== src/Recording/Queue/Fifo.antt =====
-- The ring refines a first-in first-out list.
use nodus_vision.Prelude.{
  ℕ, zero, suc, ◌+◌, ◌-◌, ◌%◌, ◌≤◌, ◌<◌, ◌≡◌, ◌≢◌, ◌⊎◌, inl, inr, refl, sym, subst, Option, none,
  some, List, [], ◌∷◌, ◌++◌, length, length-set, length-replicate, get_elem?-set_self,
  get_elem?-set_ne, set, replicate, arith,
}
use native.Mathlib.Decide.{dec_lt}
use native.Mathlib.Nat.{mod-eq_of_lt, mod_self}
use nodus_vision.Camera.Contracts.{CapturedFrame}
use nodus_vision.Recording.Queue.{FrameQueue, capacity, cleared, slot, push, pop}

-- The slots from `i` on, `n` of them, around the end of the ring.
read : List (Option CapturedFrame) → ℕ → ℕ → List (Option CapturedFrame)
read slots i zero = []
read slots i (suc n) = slot slots i ∷ read slots ((i + 1) % length slots) n

-- Oldest first.
pub contents : FrameQueue → List (Option CapturedFrame)
contents q = read q.slots q.head q.count

abbrev pub AllFrames : List (Option CapturedFrame) → Type 0
AllFrames [] = Unit
AllFrames (none ∷ os) = ⊥
AllFrames (some f ∷ os) = AllFrames os

-- `t` stands `n` places after `i` on a ring of `c` places.
abbrev pub Lands : ℕ → ℕ → ℕ → ℕ → Type 0
Lands c i n t = (i + n ≡ t) ⊎ (i + n ≡ t + c)

-- `t` is none of the `n` places from `i` on.
abbrev Clear : ℕ → ℕ → ℕ → ℕ → Type 0
Clear c i n t = (i + n ≤ t) ⊎ ((t < i) × (i + n ≤ t + c))

pub record IsRing (q : FrameQueue) : Type 0 where
  pub room : 0 < capacity q
  pub head_in : q.head < capacity q
  pub tail_in : q.tail < capacity q
  pub tail_at : Lands (capacity q) q.head q.count q.tail
  pub fits : q.count ≤ capacity q

abbrev Wraps : ℕ → ℕ → Type 0
Wraps c i = ((i + 1 < c) × ((i + 1) % c ≡ i + 1)) ⊎ ((i + 1 ≡ c) × ((i + 1) % c ≡ 0))

next_cases : (c i : ℕ) → i < c → Wraps c i
next_cases c i h = elim (dec_lt (i + 1) c) [
  | yes p ↦ inl (p, mod-eq_of_lt p)
  | no p ↦ let e : i + 1 ≡ c = omega arith in inr (e, rw e (mod_self c))
]

slot-set_ne :
    (xs : List (Option CapturedFrame)) (t i : ℕ) (v : Option CapturedFrame)
    → t ≢ i
    → slot (set xs t v) i ≡ slot xs i
unfolding slot
slot-set_ne xs t i v h = rw (get_elem?-set_ne xs t i v h, slot)

slot-set_self :
    (xs : List (Option CapturedFrame)) (t i : ℕ) (v : Option CapturedFrame)
    → t < length xs
    → t ≡ i
    → slot (set xs t v) i ≡ v
unfolding slot
slot-set_self xs t i v h e = rw (← e) (rw (get_elem?-set_self xs t v h, slot))

read-set_unread :
    (n i t : ℕ) (xs : List (Option CapturedFrame)) (v : Option CapturedFrame)
    → i < length xs
    → t < length xs
    → Clear (length xs) i n t
    → read (set xs t v) i n ≡ read xs i n
unfolding read
read-set_unread zero i t xs v hi ht h = refl
read-set_unread (suc n) i t xs v hi ht h = ground (
  arith,
  length-set xs t v,
  next_cases (length xs) i hi,
  slot-set_ne xs t i v (omega arith),
  read-set_unread n ((i + 1) % length xs) t xs v,
)

read-set_end :
    (n i t : ℕ) (xs : List (Option CapturedFrame)) (v : Option CapturedFrame)
    → i < length xs
    → t < length xs
    → n < length xs
    → Lands (length xs) i n t
    → read (set xs t v) i (suc n) ≡ read xs i n ++ (v ∷ [])
unfolding read
read-set_end zero i t xs v hi ht hn h = ground (arith, slot-set_self xs t i v ht (omega arith))
read-set_end (suc n) i t xs v hi ht hn h = ground (
  arith,
  length-set xs t v,
  next_cases (length xs) i hi,
  slot-set_ne xs t i v (omega arith),
  read-set_end n ((i + 1) % length xs) t xs v,
)

-- The empty ring is well formed and holds nothing.
pub cleared-IsRing : (n : ℕ) → 0 < n → IsRing (cleared n)
unfolding cleared
cleared-IsRing n h =
    let l : length (replicate {A = Option CapturedFrame} n none) ≡ n = length-replicate n none in
    omega (arith, l)

-- A push on a ring with a free slot keeps it well formed and adds the frame at the end.
pub push-contents :
    (q : FrameQueue) (f : CapturedFrame)
    → IsRing q
    → q.count < capacity q
    → IsRing (push q f) × (contents (push q f) ≡ contents q ++ (some f ∷ []))
unfolding push contents
push-contents q f r h =
    let l = length-set q.slots q.tail (some f) in
    let n = next_cases (capacity q) q.tail r.tail_in in
    let e = read-set_end q.count q.head q.tail q.slots (some f) in
    (ground (arith, l, n), ground (arith, e))

read_suc :
    (n i : ℕ) (xs : List (Option CapturedFrame))
    → 0 < n
    → read xs i n ≡ slot xs i ∷ read xs ((i + 1) % length xs) (n - 1)
unfolding read
read_suc zero i xs h = elim h [ ]
read_suc (suc n) i xs h = ground arith

-- A pop of a ring that is not empty keeps it well formed and takes the oldest frame away.
pub pop-contents :
    (q : FrameQueue)
    → IsRing q
    → 0 < q.count
    → IsRing (pop q).1 × (contents q ≡ (pop q).0 ∷ contents (pop q).1)
unfolding pop contents
pop-contents q r h =
    let l = length-set q.slots q.head none in
    let n = next_cases (capacity q) q.head r.head_in in
    let e = read-set_unread (q.count - 1) ((q.head + 1) % capacity q) q.head q.slots none in
    (ground (arith, l, n), ground (arith, l, n, e, read_suc q.count q.head q.slots h))

pub count-push : (q : FrameQueue) (f : CapturedFrame) → (push q f).count ≡ q.count + 1
unfolding push
count-push q f = refl

pub count-pop : (q : FrameQueue) → (pop q).1.count ≡ q.count - 1
unfolding pop
count-pop q = refl

AllFrames-append :
    (os : List (Option CapturedFrame)) (f : CapturedFrame)
    → AllFrames os
    → AllFrames (os ++ (some f ∷ []))
AllFrames-append [] f h = tt
AllFrames-append (none ∷ os) f h = absurd h
AllFrames-append (some g ∷ os) f h = AllFrames-append os f h

-- The slots in use hold frames, and no null pointer.
pub push-AllFrames :
    (q : FrameQueue) (f : CapturedFrame)
    → IsRing q
    → q.count < capacity q
    → AllFrames (contents q)
    → AllFrames (contents (push q f))
push-AllFrames q f r h a =
    subst AllFrames (sym (push-contents q f r h).1) (AllFrames-append (contents q) f a)

abbrev pub IsFrame : Option CapturedFrame → Type 0
IsFrame none = ⊥
IsFrame (some f) = Unit

split_frames :
    (o : Option CapturedFrame) (os : List (Option CapturedFrame))
    → AllFrames (o ∷ os)
    → IsFrame o × AllFrames os
split_frames none os h = absurd h
split_frames (some f) os h = (tt, h)

pub pop-AllFrames :
    (q : FrameQueue)
    → IsRing q
    → 0 < q.count
    → AllFrames (contents q)
    → IsFrame (pop q).0 × AllFrames (contents (pop q).1)
pop-AllFrames q r h a =
    split_frames (pop q).0 (contents (pop q).1) (subst AllFrames (pop-contents q r h).1 a)

pub cleared-AllFrames : (n : ℕ) → AllFrames (contents (cleared n))
unfolding cleared contents read
cleared-AllFrames n = tt

pub count-cleared : (n : ℕ) → (cleared n).count ≡ 0
unfolding cleared
count-cleared n = refl

pub contents-empty : (q : FrameQueue) → q.count ≡ 0 → contents q ≡ []
unfolding contents read
contents-empty q e = subst (λ n. read q.slots q.head n ≡ []) (sym e) refl
