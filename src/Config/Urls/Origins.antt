-- ===== src/Config/Urls/Origins.antt =====
-- What `requireAllowedOrigins` of src/config/vision_config.cpp ensures of the origins it returns.
use nodus_vision.Prelude.{
  ℕ, suc, ◌+◌, ◌≤◌, ◌≡◌, refl, subst, Bool, true, false, ◌||◌, or-false, List, [], ◌∷◌, ◌++◌, Text,
  text_eq, text_eq_iff, is_empty, any, All, All-append, length, length-append, ltb, if_cases, arith,
}
use nodus_vision.Prelude.Json.{
  Json, null, boolean, unsigned, signed, floating, string, array, object, Items, no_items, item,
  Members,
}
use nodus_vision.Prelude.Result.{Result, ok, err, Ensures, Ensures-call, Ensures-bind}
use nodus_vision.Config.Fields.{require_field, is_control}
use nodus_vision.Config.Urls.{
  is_advertised_url_valid, has_path, checked_origin, require_origin, require_origins, count,
  as_origins, require_allowed_origins,
}

-- An accepted URL that ends with its port.
abbrev pub IsOrigin : Text → Type 0
IsOrigin o = (is_advertised_url_valid o ≡ ok true) × (has_path o ≡ false)

abbrev pub Distinct : List Text → Type 0
Distinct [] = Unit
Distinct (x ∷ xs) = (any (text_eq x) xs ≡ false) × Distinct xs

abbrev New : List Text → Text → Type 0
New seen o = IsOrigin o × (any (text_eq o) seen ≡ false)

checked_origin-New :
    (path : Text) (seen : List Text) (o : Text) (is_valid : Bool)
    → is_advertised_url_valid o ≡ ok is_valid
    → Ensures (New seen) (checked_origin path seen o is_valid)
unfolding checked_origin
checked_origin-New path seen o false h = tt
checked_origin-New path seen o true h =
    if_cases (Ensures (New seen)) (has_path o) _ _ (λ _. tt)
      (λ plain.
        if_cases (Ensures (New seen)) (any (text_eq o) seen) _ _ (λ _. tt)
          (λ fresh. ((h, plain), fresh)))

require_origin-New :
    (path : Text) (seen : List Text) (value : Json)
    → Ensures (New seen) (require_origin path seen value)
unfolding require_origin
require_origin-New path seen (string o) =
    if_cases (Ensures (New seen)) (is_empty o || ltb 128 (length o)) _ _ (λ _. tt)
      (λ _.
        if_cases (Ensures (New seen)) (any is_control o) _ _ (λ _. tt)
          (λ _.
            Ensures-call (New seen) (is_advertised_url_valid o) _ (checked_origin-New path seen o)))
require_origin-New path seen null = tt
require_origin-New path seen (boolean b) = tt
require_origin-New path seen (unsigned n) = tt
require_origin-New path seen (signed z) = tt
require_origin-New path seen (floating n) = tt
require_origin-New path seen (array values) = tt
require_origin-New path seen (object fields) = tt

text_eq-false : (s t : Text) → text_eq s t ≡ false → text_eq t s ≡ false
text_eq-false s t h = ground (arith, text_eq_iff s t, text_eq_iff t s)

any-snoc :
    (p : Text → Bool) (xs : List Text) (o : Text)
    → any p xs ≡ false
    → p o ≡ false
    → any p (xs ++ (o ∷ [])) ≡ false
any-snoc p [] o h k = rw k
any-snoc p (x ∷ xs) o h k =
    let r : ((p x ≡ false) × (any p xs ≡ false)) = or-false _ _ h in rw (r.0, any-snoc p xs o r.1 k)

Distinct-snoc :
    (xs : List Text) (o : Text)
    → Distinct xs
    → any (text_eq o) xs ≡ false
    → Distinct (xs ++ (o ∷ []))
Distinct-snoc [] o d h = (refl, tt)
Distinct-snoc (x ∷ xs) o (fresh, d) h =
    let r : ((text_eq o x ≡ false) × (any (text_eq o) xs ≡ false)) = or-false _ _ h in
    (any-snoc (text_eq x) xs o fresh (text_eq-false o x r.0), Distinct-snoc xs o d r.1)

-- At most `n` origins, each one such, and no two the same.
abbrev pub AreOrigins : ℕ → List Text → Type 0
AreOrigins n origins = All IsOrigin origins × Distinct origins × (length origins ≤ n)

shift : (n k : ℕ) → suc n + k ≡ n + (k + 1)
shift n k = omega arith

require_origins-lem :
    (path : Text) (seen : List Text) (values : Items) (n : ℕ)
    → AreOrigins n seen
    → Ensures (AreOrigins (n + count values)) (require_origins path seen values)
unfolding require_origins
require_origins-lem path seen no_items n (a, d, l) = (a, d, omega (arith, l))
require_origins-lem path seen (item value rest) n (a, d, l) =
    Ensures-bind (New seen) (AreOrigins (n + (count rest + 1))) (require_origin path seen value) _
      (require_origin-New path seen value)
      (λ o new.
        subst (λ k. Ensures (AreOrigins k) (require_origins path (seen ++ (o ∷ [])) rest))
          (shift n (count rest))
          (require_origins-lem path (seen ++ (o ∷ [])) rest (suc n) (
            All-append IsOrigin seen (o ∷ []) a (new.0, tt),
            Distinct-snoc seen o d new.1,
            omega (arith, length-append seen (o ∷ []), l),
          )))

few_values : (n : ℕ) → ltb 16 n ≡ false → n ≤ 16
few_values n h = ground arith

fewer :
    (r : Result (List Text)) (n : ℕ)
    → n ≤ 16
    → Ensures (AreOrigins (0 + n)) r
    → Ensures (AreOrigins 16) r
fewer (ok origins) n h (a, d, l) = (a, d, omega (arith, l, h))
fewer (err e) n h k = tt

as_origins-lem : (path : Text) (value : Json) → Ensures (AreOrigins 16) (as_origins path value)
unfolding as_origins
as_origins-lem path (array values) =
    if_cases (Ensures (AreOrigins 16)) (ltb 16 (count values)) _ _ (λ _. tt)
      (λ few.
        fewer (require_origins path [] values) (count values) (few_values (count values) few)
          (require_origins-lem path [] values 0 (tt, tt, omega arith)))
as_origins-lem path null = tt
as_origins-lem path (boolean b) = tt
as_origins-lem path (unsigned n) = tt
as_origins-lem path (signed z) = tt
as_origins-lem path (floating n) = tt
as_origins-lem path (string s) = tt
as_origins-lem path (object fields) = tt

pub require_allowed_origins-lem :
    (fields : Members) (key path : Text)
    → Ensures (AreOrigins 16) (require_allowed_origins fields key path)
unfolding require_allowed_origins
require_allowed_origins-lem fields key path =
    Ensures-call (AreOrigins 16) (require_field fields key path) _
      (λ value _. as_origins-lem path value)
