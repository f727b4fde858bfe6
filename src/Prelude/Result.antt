-- ===== src/Prelude/Result.antt =====
-- A call that may throw returns a `Result`; the exception carries its `what()` text where the
-- source writes one.
use nodus_vision.Prelude.Bytes.{Text}
use mathlib.Core.Path.{◌≡◌, refl, subst}
use mathlib.Core.Bool.{Bool, true, false}

pub data Exception : Type 0 where
  invalid_argument : Text → Exception
  runtime_error : Text → Exception
  recording_not_found : Text → Exception
  out_of_range : Exception
  system_error : Exception

pub data Result {ℓ} (A : Type ℓ) : Type ℓ where
  ok : A → Result A
  err : Exception → Result A

-- An exception passes the rest of the calls by.
infixl 5 ◌>>=◌ ◌>>◌
abbrev pub ◌>>=◌ : {A B : Type 0} → Result A → (A → Result B) → Result B
err exception >>= rest = err exception
ok value >>= rest = rest value

-- `if (rejected) throw exception;`
abbrev pub throw_if : Bool → Exception → Result (Unit {0})
throw_if true exception = err exception
throw_if false exception = ok tt

abbrev pub ◌>>◌ : {A B : Type 0} → Result A → Result B → Result B
call >> rest = call >>= (λ _. rest)

abbrev pub is_ok {ℓ} : {A : Type ℓ} → Result A → Bool
is_ok (ok value) = true
is_ok (err exception) = false

-- What holds of the value of a call that returns one.
abbrev pub Ensures {κ} : {A : Type 0} → (A → Type κ) → Result A → Type κ
Ensures P (ok value) = P value
Ensures P (err exception) = Unit

pub Ensures-bind {κ ι} :
    {A B : Type 0} (P : A → Type κ) (Q : B → Type ι) (call : Result A) (rest : A → Result B)
    → Ensures P call
    → ((value : A) → P value → Ensures Q (rest value))
    → Ensures Q (call >>= rest)
Ensures-bind P Q (ok value) rest p h = h value p
Ensures-bind P Q (err exception) rest p h = tt

-- The same where nothing is known of the value but where it comes from.
pub Ensures-call {ι} :
    {A B : Type 0} (Q : B → Type ι) (call : Result A) (rest : A → Result B)
    → ((value : A) → call ≡ ok value → Ensures Q (rest value))
    → Ensures Q (call >>= rest)
Ensures-call Q (ok value) rest h = h value refl
Ensures-call Q (err exception) rest h = tt

pub Ensures-throw_if {ι} :
    {B : Type 0} (Q : B → Type ι) (rejected : Bool) (exception : Exception) (rest : Result B)
    → (rejected ≡ false → Ensures Q rest)
    → Ensures Q (throw_if rejected exception >> rest)
Ensures-throw_if Q true exception rest h = tt
Ensures-throw_if Q false exception rest h = h refl

pub Ensures-ok {κ} :
    {A : Type 0} (P : A → Type κ) (call : Result A) {value : A}
    → Ensures P call
    → call ≡ ok value
    → P value
Ensures-ok P call p e = subst (Ensures P) e p

-- A call that returns goes on.
pub seq_ok :
    {A : Type 0} (call : Result (Unit {0})) (rest : Result A)
    → call ≡ ok tt
    → is_ok rest ≡ true
    → is_ok (call >> rest) ≡ true
seq_ok call rest e h = rw (e, h)

pub not_thrown : (b : Bool) (e : Exception) → b ≡ false → throw_if b e ≡ ok tt
not_thrown b e h = rw h

pub bind_ok :
    {A B : Type 0} (call : Result A) (f : A → B)
    → is_ok call ≡ true
    → is_ok (call >>= (λ a. ok (f a))) ≡ true
bind_ok (ok a) f h = refl
bind_ok (err e) f h = h

pub two_ok :
    {A B C : Type 0} (x : Result A) (y : Result B) (f : A → B → C)
    → is_ok x ≡ true
    → is_ok y ≡ true
    → is_ok (x >>= (λ a. y >>= (λ b. ok (f a b)))) ≡ true
two_ok (ok a) (ok b) f h k = refl
two_ok (ok a) (err e) f h k = k
two_ok (err e) y f h k = h

pub bind_is_ok :
    {A B : Type 0} (call : Result A) (rest : A → Result B)
    → is_ok call ≡ true
    → Ensures (λ a. is_ok (rest a) ≡ true) call
    → is_ok (call >>= rest) ≡ true
bind_is_ok (ok a) rest e h = h
bind_is_ok (err exception) rest e h = e
