-- ===== src/Pcd1/Words.antt =====
-- The round trip of the words.
use nodus_vision.Prelude.{
  ℕ, suc, ◌+◌, ◌-◌, ◌*◌, ◌/◌, ◌%◌, ◌^◌, ◌<◌, ◌≤◌, ◌≡◌, refl, sym, subst, ◌∙◌, ap, ◌||◌, false, some,
  List, [], ◌∷◌, ◌++◌, length, get_elem?, length-append, ltb, arith,
}
use nodus_vision.Prelude.Result.{ok}
use nodus_vision.Pcd1.{append_uint32, read_bytes, read_uint32}

suc_plus : (a b : ℕ) → suc a + b ≡ suc (a + b)
suc_plus a b = omega arith

skip_prefix : (xs ys : List ℕ) (k : ℕ) → get_elem? (xs ++ ys) (length xs + k) ≡ get_elem? ys k
skip_prefix [] ys k = ap (get_elem? ys) (zero_plus k)
  where
    zero_plus : (n : ℕ) → 0 + n ≡ n
    zero_plus n = omega arith
skip_prefix (x ∷ xs) ys k =
    subst (λ i. get_elem? (x ∷ (xs ++ ys)) i ≡ get_elem? ys k) (sym (suc_plus (length xs) k))
      (skip_prefix xs ys k)

pub at_offset :
    (xs ys : List ℕ) (o k : ℕ) → o ≡ length xs + k → get_elem? (xs ++ ys) o ≡ get_elem? ys k
at_offset xs ys o k e =
    subst (λ i. get_elem? (xs ++ ys) i ≡ get_elem? ys k) (sym e) (skip_prefix xs ys k)

reassoc :
    (out : List ℕ) (a b c e : ℕ) (rest : List ℕ)
    → (((((out ++ (a ∷ [])) ++ (b ∷ [])) ++ (c ∷ [])) ++ (e ∷ [])) ++ rest)
      ≡ out ++ (a ∷ b ∷ c ∷ e ∷ rest)
reassoc [] a b c e rest = refl
reassoc (x ∷ out) a b c e rest = ap (λ l. x ∷ l) (reassoc out a b c e rest)

pub read_one :
    (n byte_index : ℕ) (input : List ℕ) (offset value byte : ℕ)
    → get_elem? input offset ≡ some byte
    → read_bytes (suc n) byte_index input offset value
      ≡ read_bytes n (byte_index + 1) input (offset + 1) (value + byte * 2 ^ (byte_index * 8))
read_one n byte_index input offset value byte e = rw (read_bytes, e) refl

pub long_enough :
    (out ys : List ℕ) (n : ℕ)
    → n ≤ length ys
    → (ltb (length (out ++ ys)) (length out) || ltb (length (out ++ ys) - length out) n) ≡ false
long_enough out ys n h = ground (arith, length-append out ys)

read_four :
    (out : List ℕ) (a b c e : ℕ) (rest : List ℕ)
    → read_uint32 (out ++ (a ∷ b ∷ c ∷ e ∷ rest)) (length out)
      ≡ ok (0 + a * 1 + b * 256 + c * 65536 + e * 16777216, length out + 1 + 1 + 1 + 1)
unfolding read_uint32
read_four out a b c e rest =
    let ys = a ∷ b ∷ c ∷ e ∷ rest in
    let o = length out in
    rw (long_enough out ys 4 (omega arith)) (
      read_one 3 0 (out ++ ys) o 0 a (at_offset out ys o 0 (omega arith))
      ∙ (read_one 2 1 (out ++ ys) (o + 1) (0 + a * 1) b (at_offset out ys (o + 1) 1 refl)
          ∙ (read_one 1 2 (out ++ ys) (o + 1 + 1) (0 + a * 1 + b * 256) c
                (at_offset out ys (o + 1 + 1) 2 (omega arith))
              ∙ read_one 0 3 (out ++ ys) (o + 1 + 1 + 1) (0 + a * 1 + b * 256 + c * 65536) e
                  (at_offset out ys (o + 1 + 1 + 1) 3 (omega arith)))))

four_bytes :
    (v : ℕ)
    → v < 2 ^ 32
    → 0
        + v / 1 % 256 * 1
        + v / 256 % 256 * 256
        + v / 65536 % 256 * 65536
        + v / 16777216 % 256 * 16777216
      ≡ v
four_bytes v h = omega (arith, h)

plus_four : (n : ℕ) → n + 1 + 1 + 1 + 1 ≡ n + 4
plus_four n = omega arith

-- A number below 2^32 that was appended as a word is read back, whatever bytes follow, and the
-- offset stands behind it.
pub read-append_uint32 :
    (output rest : List ℕ) (value : ℕ)
    → value < 2 ^ 32
    → read_uint32 (append_uint32 output value ++ rest) (length output)
      ≡ ok (value, length output + 4)
unfolding append_uint32 read_uint32
read-append_uint32 output rest value h =
    let a = value / 1 % 256 in
    let b = value / 256 % 256 in
    let c = value / 65536 % 256 in
    let e = value / 16777216 % 256 in
    subst (λ input. read_uint32 input (length output) ≡ ok (value, length output + 4))
      (sym (reassoc output a b c e rest))
      (read_four output a b c e rest ∙ cc (four_bytes value h, plus_four (length output)))
