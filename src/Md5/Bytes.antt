-- ===== src/Md5/Bytes.antt =====
-- The two byte orders of MD5: `encode` and `decode` are inverse to one another.
use utility_engine_old.Base.{ℕ, ◌+◌, ◌*◌, ◌/◌, ◌^◌, ◌<◌, bit_and, bit_or, ◌≡◌, refl, ap, ap₂, ◌∙◌}
use utility_engine_old.Base.{List, [], ◌∷◌, arith}
use utility_engine_old.Base.Bits.{bit_or-fields, bit_or_comm, bit_and-low}
use utility_engine_old.Md5.Transform.{decode, encode, low_byte}

abbrev pub AllWords : List ℕ → Type 0
AllWords [] = Unit {0}
AllWords (x ∷ xs) = (x < 2 ^ 32) × AllWords xs

-- Four bytes joined by shifts and `|` are their weighted sum.
join :
    (p q r s : ℕ)
    → p < 256
    → q < 256
    → r < 256
    → bit_or (bit_or (bit_or p (q * 2 ^ 8)) (r * 2 ^ 16)) (s * 2 ^ 24)
      ≡ p + q * 2 ^ 8 + r * 2 ^ 16 + s * 2 ^ 24
join p q r s hp hq hr =
    omega (arith, bit_or_comm p (q * 2 ^ 8), bit_or-fields 8 q p (omega arith), two, three)
  where
    two : bit_or (bit_or p (q * 2 ^ 8)) (r * 2 ^ 16) ≡ p + q * 2 ^ 8 + r * 2 ^ 16
    two =
        ap (λ (t : ℕ). bit_or t (r * 2 ^ 16)) one
        ∙ bit_or_comm (p + q * 2 ^ 8) (r * 2 ^ 16)
        ∙ bit_or-fields 16 r (p + q * 2 ^ 8) (omega arith)
        ∙ omega arith
      where
        one : bit_or p (q * 2 ^ 8) ≡ p + q * 2 ^ 8
        one = omega (arith, bit_or_comm p (q * 2 ^ 8), bit_or-fields 8 q p (omega arith))

    three :
        bit_or (bit_or (bit_or p (q * 2 ^ 8)) (r * 2 ^ 16)) (s * 2 ^ 24)
        ≡ p + q * 2 ^ 8 + r * 2 ^ 16 + s * 2 ^ 24
    three =
        ap (λ (t : ℕ). bit_or t (s * 2 ^ 24)) two
        ∙ bit_or_comm (p + q * 2 ^ 8 + r * 2 ^ 16) (s * 2 ^ 24)
        ∙ bit_or-fields 24 s (p + q * 2 ^ 8 + r * 2 ^ 16) (omega arith)
        ∙ omega arith

-- Words of 32 bits come back from their bytes.
pub decode-encode : (words : List ℕ) → AllWords words → decode (encode words) ≡ words
unfolding decode encode
decode-encode [] h = refl
decode-encode (x ∷ xs) (h, t) = ap₂ ◌∷◌ word (decode-encode xs t)
  where
    word :
        bit_or
          (bit_or (bit_or (bit_and x 0xff) (low_byte x 8 * 2 ^ 8)) (low_byte x 16 * 2 ^ 16))
          (low_byte x 24 * 2 ^ 24)
        ≡ x
    word =
        join (bit_and x 0xff) (low_byte x 8) (low_byte x 16) (low_byte x 24)
          (omega (arith, bit_and-low 8 x)) (omega (arith, bit_and-low 8 (x / 2 ^ 8)))
          (omega (arith, bit_and-low 8 (x / 2 ^ 16)))
        ∙ omega (
          arith,
          bit_and-low 8 x,
          bit_and-low 8 (x / 2 ^ 8),
          bit_and-low 8 (x / 2 ^ 16),
          bit_and-low 8 (x / 2 ^ 24),
        )
