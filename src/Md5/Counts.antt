-- ===== src/Md5/Counts.antt =====
-- The two counts of the bits: as long as the message is short enough for them.
use utility_engine_old.Base.{ℕ, ◌+◌, ◌*◌, ◌/◌, ◌%◌, ◌^◌, ◌<◌}
use utility_engine_old.Base.{◌≡◌, refl, ap, ap₂, ◌∙◌}
use utility_engine_old.Base.{inl, inr, List}
use utility_engine_old.Base.{[], ◌∷◌, arith, ltb, ◌==◌, if◌then◌else◌}
use utility_engine_old.Base.{length}
use utility_engine_old.Md5.Transform.{encode}
use utility_engine_old.Md5.{Md5}
use utility_engine_old.Md5.{update}
use utility_engine_old.Md5.Stream.{Holds, IsWidth}
use utility_engine_old.Base.Bits.{bit_and-low}

-- The lengths for which the counts are those of RFC 1321: with an `unsigned long` of 64 bits the
-- carry into `_count[1]` and the bits that `update` shifts into it do not fit together.
abbrev pub most : ℕ → ℕ
most w = if w == 32 then 2 ^ 32 else 2 ^ 29

-- The high count is the part of the number of bits above 32.
abbrev pub Counted : Md5 → ℕ → Type 0
Counted m n = m.count_high ≡ n * 8 / 2 ^ 32

high : ℕ → Md5 → ℕ → ℕ
high w m k =
    let added = k % 2 ^ w * 2 ^ 3 % 2 ^ w in
    let low = (m.count_low + added) % 2 ^ w in
    let carried = if ltb low added then (m.count_high + 1) % 2 ^ w else m.count_high in
    (carried + k % 2 ^ w / 2 ^ 29) % 2 ^ w

update-high : (w : ℕ) (x : List ℕ) (m : Md5) → (update w x m).count_high ≡ high w m (length x)
unfolding update high
update-high w x m = ground arith

high_32 :
    (m : Md5) (n k : ℕ)
    → m.count_low ≡ n * 8 % 2 ^ 32
    → Counted m n
    → n + k < 2 ^ 32
    → high 32 m k ≡ (n + k) * 8 / 2 ^ 32
unfolding high
high_32 m n k low c lt = ground (arith, low, c, lt)

high_64 :
    (m : Md5) (n k : ℕ)
    → m.count_low ≡ n * 8 % 2 ^ 64
    → Counted m n
    → n + k < 2 ^ 29
    → high 64 m k ≡ (n + k) * 8 / 2 ^ 32
unfolding high
high_64 m n k low c lt = ground (arith, low, c, lt)

pub update-Counted :
    (w : ℕ)
    → IsWidth w
    → (m : Md5) (msg x : List ℕ) → Holds w m msg
    → Counted m (length msg)
    → length msg + length x < most w
    → Counted (update w x m) (length msg + length x)
update-Counted w (inl e) m msg x h c lt =
    let low : m.count_low ≡ length msg * 8 % 2 ^ 32 =
      h.counted ∙ ap (λ k. length msg * 8 % 2 ^ k) e in
    let few : length msg + length x < 2 ^ 32 = ground (arith, lt, e) in
    update-high w x m
    ∙ ap (λ k. high k m (length x)) e
    ∙ high_32 m (length msg) (length x) low c few
update-Counted w (inr e) m msg x h c lt =
    let low : m.count_low ≡ length msg * 8 % 2 ^ 64 =
      h.counted ∙ ap (λ k. length msg * 8 % 2 ^ k) e in
    let few : length msg + length x < 2 ^ 29 = ground (arith, lt, e) in
    update-high w x m
    ∙ ap (λ k. high k m (length x)) e
    ∙ high_64 m (length msg) (length x) low c few

-- The number of bits of n bytes as RFC 1321 puts it behind the padding: eight bytes, the lowest first.
abbrev pub bit_length : ℕ → List ℕ
bit_length n =
    n * 8 % 256
    ∷ n * 8 / 2 ^ 8 % 256
    ∷ n * 8 / 2 ^ 16 % 256
    ∷ n * 8 / 2 ^ 24 % 256
    ∷ n * 8 / 2 ^ 32 % 256
    ∷ n * 8 / 2 ^ 40 % 256
    ∷ n * 8 / 2 ^ 48 % 256
    ∷ n * 8 / 2 ^ 56 % 256
    ∷ []

cons-eq : (x y : ℕ) (xs ys : List ℕ) → x ≡ y → xs ≡ ys → x ∷ xs ≡ y ∷ ys
cons-eq x y xs ys e f = ap₂ (λ a l. a ∷ l) e f

-- Four bytes of a word, and those of the number that it is the low or the high part of.
word_bytes : ℕ → List ℕ → List ℕ
word_bytes a rest = a % 256 ∷ a / 2 ^ 8 % 256 ∷ a / 2 ^ 16 % 256 ∷ a / 2 ^ 24 % 256 ∷ rest

encode-word_bytes : (a b : ℕ) → encode (a ∷ b ∷ []) ≡ word_bytes a (word_bytes b [])
unfolding encode word_bytes
encode-word_bytes a b =
    rw
      (
        bit_and-low 8 a,
        bit_and-low 8 (a / 2 ^ 8),
        bit_and-low 8 (a / 2 ^ 16),
        bit_and-low 8 (a / 2 ^ 24),
        bit_and-low 8 b,
        bit_and-low 8 (b / 2 ^ 8),
        bit_and-low 8 (b / 2 ^ 16),
        bit_and-low 8 (b / 2 ^ 24),
      )
      refl

low-word_bytes :
    (n : ℕ) (rest : List ℕ)
    → word_bytes (n * 8 % 2 ^ 32) rest
      ≡ n * 8 % 256 ∷ n * 8 / 2 ^ 8 % 256 ∷ n * 8 / 2 ^ 16 % 256 ∷ n * 8 / 2 ^ 24 % 256 ∷ rest
unfolding word_bytes
low-word_bytes n rest = cons-eq _ _ _ _ (omega arith) (
    cons-eq _ _ _ _ (omega arith)
      (cons-eq _ _ _ _ (omega arith) (cons-eq _ _ _ _ (omega arith) refl)))

high-word_bytes :
    (n : ℕ)
    → word_bytes (n * 8 / 2 ^ 32) []
      ≡ n * 8 / 2 ^ 32 % 256
        ∷ n * 8 / 2 ^ 40 % 256
        ∷ n * 8 / 2 ^ 48 % 256
        ∷ n * 8 / 2 ^ 56 % 256
        ∷ []
unfolding word_bytes
high-word_bytes n = cons-eq _ _ _ _ refl (
    cons-eq _ _ _ _ (omega arith)
      (cons-eq _ _ _ _ (omega arith) (cons-eq _ _ _ _ (omega arith) refl)))

low_32 : (w : ℕ) → IsWidth w → (n : ℕ) → n < most w → n * 8 % 2 ^ w ≡ n * 8 % 2 ^ 32
low_32 w (inl e) n lt = ap (λ k. n * 8 % 2 ^ k) e
low_32 w (inr e) n lt =
    let few : n < 2 ^ 29 = ground (arith, lt, e) in ap (λ k. n * 8 % 2 ^ k) e ∙ omega (arith, few)

pub encode-bit_length :
    (w : ℕ)
    → IsWidth w
    → (m : Md5) (n : ℕ) → m.count_low ≡ n * 8 % 2 ^ w
    → Counted m n
    → n < most w
    → encode (m.count_low ∷ m.count_high ∷ []) ≡ bit_length n
encode-bit_length w wide m n low c lt =
    encode-word_bytes m.count_low m.count_high
    ∙ ap₂ (λ a b. word_bytes a (word_bytes b [])) (low ∙ low_32 w wide n lt) c
    ∙ low-word_bytes n (word_bytes (n * 8 / 2 ^ 32) [])
    ∙ ap
        (λ rest.
          n * 8 % 256 ∷ n * 8 / 2 ^ 8 % 256 ∷ n * 8 / 2 ^ 16 % 256 ∷ n * 8 / 2 ^ 24 % 256 ∷ rest)
        (high-word_bytes n)
