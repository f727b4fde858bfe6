-- ===== src/Recording/Manager/Outcomes.antt =====
-- Postconditions of the manager's calls: what holds when a call returns, and what holds when it
-- throws. A call with a postcondition neither waits for the thread nor follows a null pointer.
use nodus_vision.Prelude.Result.{Result, ok, err}
use nodus_vision.Recording.Manager.State.{
  Parts, Manager, Outcome, returned, thrown, blocked, undefined, Act, then_act, ◌>>=◌, of_result,
  on_disk, from_result,
}

module _ {P : Parts} {A : Type 0} where
  abbrev pub Post : (A → Manager P → Type 0) → (Manager P → Type 0) → Outcome A × Manager P → Type 0
  Post Q E (returned a, m) = Q a m
  Post Q E (thrown e, m) = E m
  Post Q E (blocked, m) = ⊥
  Post Q E (undefined, m) = ⊥

module _ {P : Parts} {A B : Type 0} where
  then_act-Post :
      (R : A → Manager P → Type 0) (Q : B → Manager P → Type 0) (E : Manager P → Type 0)
      (r : Outcome A × Manager P) (f : A → Act P B)
      → Post R E r
      → ((a : A) (n : Manager P) → R a n → Post Q E (f a n))
      → Post Q E (then_act r.0 f r.1)
  then_act-Post R Q E (returned a, m) f h k = k a m h
  then_act-Post R Q E (thrown e, m) f h k = h
  then_act-Post R Q E (blocked, m) f h k = absurd h
  then_act-Post R Q E (undefined, m) f h k = absurd h

  -- The rule for a sequence of two calls.
  pub bind-Post :
      (R : A → Manager P → Type 0) (Q : B → Manager P → Type 0) (E : Manager P → Type 0)
      (act : Act P A) (f : A → Act P B) (m : Manager P)
      → Post R E (act m)
      → ((a : A) (n : Manager P) → R a n → Post Q E (f a n))
      → Post Q E ((act >>= f) m)
  bind-Post R Q E act f m h k = then_act-Post R Q E (act m) f h k

module _ {P : Parts} {A : Type 0} where
  pub result-Post :
      (Q : A → Manager P → Type 0) (E : Manager P → Type 0) (r : Result A) (n : Manager P)
      → ((a : A) → Q a n)
      → E n
      → Post Q E (of_result r, n)
  result-Post Q E (ok a) n q e = q a
  result-Post Q E (err x) n q e = e

  -- The rule for a call that changes the files: its postcondition must not depend on them.
  pub on_disk-Post :
      (Q : A → Manager P → Type 0) (E : Manager P → Type 0) (f : P.Disk → Result A × P.Disk)
      (m : Manager P)
      → ((a : A) (d : P.Disk) → Q a (record m { disk = d }))
      → ((d : P.Disk) → E (record m { disk = d }))
      → Post Q E (on_disk f m)
  on_disk-Post Q E f m q e =
      let (r, d) = f m.disk in result-Post Q E r (record m { disk = d }) (λ a. q a d) (e d)

  pub from_result-Post :
      (Q : A → Manager P → Type 0) (E : Manager P → Type 0) (r : Result A) (m : Manager P)
      → ((a : A) → Q a m)
      → E m
      → Post Q E (from_result r m)
  from_result-Post Q E r m q e = result-Post Q E r m q e
