-- ===== src/Pcd1/LongWords.antt =====
-- The round trip of the eight-byte words.
use nodus_vision.Prelude.{
  ℕ, ◌+◌, ◌*◌, ◌/◌, ◌%◌, ◌^◌, ◌<◌, ◌≡◌, refl, sym, subst, ◌∙◌, ap, List, [], ◌∷◌, ◌++◌, length,
  arith,
}
use nodus_vision.Prelude.Result.{ok}
use nodus_vision.Pcd1.{append_uint64, read_uint64}
use nodus_vision.Pcd1.Words.{at_offset, read_one, long_enough}

reassoc :
    (out : List ℕ) (a b c d e f g h : ℕ) (rest : List ℕ)
    → ((((((((out ++ (a ∷ [])) ++ (b ∷ [])) ++ (c ∷ [])) ++ (d ∷ [])) ++ (e ∷ [])) ++ (f ∷ []))
            ++ (g ∷ []))
          ++ (h ∷ []))
        ++ rest
      ≡ out ++ (a ∷ b ∷ c ∷ d ∷ e ∷ f ∷ g ∷ h ∷ rest)
reassoc [] a b c d e f g h rest = refl
reassoc (x ∷ out) a b c d e f g h rest = ap (λ l. x ∷ l) (reassoc out a b c d e f g h rest)

read_eight :
    (out : List ℕ) (a b c d e f g h : ℕ) (rest : List ℕ)
    → read_uint64 (out ++ (a ∷ b ∷ c ∷ d ∷ e ∷ f ∷ g ∷ h ∷ rest)) (length out)
      ≡ ok (
        0
            + a * 1
            + b * 256
            + c * 65536
            + d * 16777216
            + e * 4294967296
            + f * 1099511627776
            + g * 281474976710656
            + h * 72057594037927936,
        length out + 1 + 1 + 1 + 1 + 1 + 1 + 1 + 1,
      )
unfolding read_uint64
read_eight out a b c d e f g h rest =
    let ys = a ∷ b ∷ c ∷ d ∷ e ∷ f ∷ g ∷ h ∷ rest in
    let o = length out in
    rw (long_enough out ys 8 (omega arith)) (
      read_one 7 0 (out ++ ys) o 0 a (at_offset out ys o 0 (omega arith))
      ∙ (read_one 6 1 (out ++ ys) (o + 1) (0 + a * 1) b (at_offset out ys (o + 1) 1 refl)
          ∙ (read_one 5 2 (out ++ ys) (o + 1 + 1) (0 + a * 1 + b * 256) c
                (at_offset out ys (o + 1 + 1) 2 (omega arith))
              ∙ (read_one 4 3 (out ++ ys) (o + 1 + 1 + 1) (0 + a * 1 + b * 256 + c * 65536) d
                    (at_offset out ys (o + 1 + 1 + 1) 3 (omega arith))
                  ∙ (read_one 3 4 (out ++ ys) (o + 1 + 1 + 1 + 1)
                        (0 + a * 1 + b * 256 + c * 65536 + d * 16777216) e
                        (at_offset out ys (o + 1 + 1 + 1 + 1) 4 (omega arith))
                      ∙ (read_one 2 5 (out ++ ys) (o + 1 + 1 + 1 + 1 + 1)
                            (0 + a * 1 + b * 256 + c * 65536 + d * 16777216 + e * 4294967296) f
                            (at_offset out ys (o + 1 + 1 + 1 + 1 + 1) 5 (omega arith))
                          ∙ (read_one 1 6 (out ++ ys) (o + 1 + 1 + 1 + 1 + 1 + 1)
                                (0
                                  + a * 1
                                  + b * 256
                                  + c * 65536
                                  + d * 16777216
                                  + e * 4294967296
                                  + f * 1099511627776)
                                g (at_offset out ys (o + 1 + 1 + 1 + 1 + 1 + 1) 6 (omega arith))
                              ∙ (read_one 0 7 (out ++ ys) (o + 1 + 1 + 1 + 1 + 1 + 1 + 1)
                                  (0
                                    + a * 1
                                    + b * 256
                                    + c * 65536
                                    + d * 16777216
                                    + e * 4294967296
                                    + f * 1099511627776
                                    + g * 281474976710656)
                                  h
                                  (at_offset out ys (o + 1 + 1 + 1 + 1 + 1 + 1 + 1) 7
                                    (omega arith))))))))))

eight_bytes :
    (value : ℕ)
    → value < 2 ^ 64
    → 0
        + value / 1 % 256 * 1
        + value / 256 % 256 * 256
        + value / 65536 % 256 * 65536
        + value / 16777216 % 256 * 16777216
        + value / 4294967296 % 256 * 4294967296
        + value / 1099511627776 % 256 * 1099511627776
        + value / 281474976710656 % 256 * 281474976710656
        + value / 72057594037927936 % 256 * 72057594037927936
      ≡ value
eight_bytes value h = omega (arith, h)

plus_eight : (n : ℕ) → n + 1 + 1 + 1 + 1 + 1 + 1 + 1 + 1 ≡ n + 8
plus_eight n = omega arith

-- A number below 2^64 that was appended as a word of eight bytes is read back, whatever bytes
-- follow, and the offset stands behind it.
pub read-append_uint64 :
    (output rest : List ℕ) (value : ℕ)
    → value < 2 ^ 64
    → read_uint64 (append_uint64 output value ++ rest) (length output)
      ≡ ok (value, length output + 8)
unfolding append_uint64
read-append_uint64 output rest value h =
    subst (λ input. read_uint64 input (length output) ≡ ok (value, length output + 8))
      (sym (
        reassoc output (value / 1 % 256) (value / 256 % 256) (value / 65536 % 256)
          (value / 16777216 % 256) (value / 4294967296 % 256) (value / 1099511627776 % 256)
          (value / 281474976710656 % 256) (value / 72057594037927936 % 256) rest))
      (read_eight output (value / 1 % 256) (value / 256 % 256) (value / 65536 % 256)
          (value / 16777216 % 256) (value / 4294967296 % 256) (value / 1099511627776 % 256)
          (value / 281474976710656 % 256) (value / 72057594037927936 % 256) rest
        ∙ cc (eight_bytes value h, plus_eight (length output)))
