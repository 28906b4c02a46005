-- ===== src/Parser/Zero.antt =====
-- The frames that end in a 0: what `comfirm` says does not depend on how the bytes are cut.
use utility_engine_old.Base.{ℕ, ◌+◌, ◌%◌, ◌^◌, ◌≤◌, ◌<◌, ◌≡◌, ◌∙◌, inl, inr, List, [], ◌∷◌, ◌++◌}
use utility_engine_old.Base.{arith, ltb, if◌then◌else◌, Bool-cases, ltb→lt, ltb→ge, length}
use utility_engine_old.Base.{length-append}
use utility_engine_old.Parser.{Verdict, strlen, zero_comfirm, accept, wait, reject}

abbrev pub concat : List (List ℕ) → List ℕ
concat [] = []
concat (p ∷ rest) = p ++ concat rest

-- What the verdict is, but for the size that tells an error.
pub data Kind : Type 0 where
  whole_message : ℕ → Kind
  more too_long : Kind

abbrev pub kind : Verdict → Kind
kind (accept n) = whole_message n
kind wait = more
kind (reject n) = too_long

-- The verdict on the bytes themselves, after m_size bytes without a 0.
pub framed : ℕ → List ℕ → ℕ → Kind
framed max_msg_len bytes m_size =
    if ltb (strlen bytes) (length bytes)
    then (if ltb max_msg_len (m_size + strlen bytes + 1)
        then too_long
        else whole_message (m_size + strlen bytes + 1))
    else (if ltb max_msg_len (m_size + length bytes) then too_long else more)

strlen-le : (p : List ℕ) → strlen p ≤ length p
strlen-le [] = omega arith
strlen-le (c ∷ p) = ground (arith, strlen-le p)

strlen-append_lt : (p q : List ℕ) → strlen p < length p → strlen (p ++ q) ≡ strlen p
strlen-append_lt [] q h = absurd (omega (arith, h))
strlen-append_lt (c ∷ p) q h = ground (arith, h, strlen-append_lt p q)

strlen-append_ge : (p q : List ℕ) → length p ≤ strlen p → strlen (p ++ q) ≡ length p + strlen q
strlen-append_ge [] q h = omega arith
strlen-append_ge (c ∷ p) q h = ground (arith, h, strlen-append_ge p q)

-- However the readable bytes are cut into pieces, and with m_size bytes already looked at, `comfirm`
-- accepts the bytes up to the first 0 if they are within MAX_MSG_LEN, asks for more if there is no 0
-- and the bytes are within it, and else reports an error; and while it asks for more, `m_size`
-- counts the bytes looked at.
pub zero_comfirm-framed :
    (m : ℕ) (pieces : List (List ℕ)) (m_size : ℕ)
    → m < 2 ^ 32
    → m_size ≤ m
    → (kind (zero_comfirm m pieces m_size).0 ≡ framed m (concat pieces) m_size)
      × (framed m (concat pieces) m_size ≡ more
          → (zero_comfirm m pieces m_size).1 ≡ m_size + length (concat pieces))
unfolding framed zero_comfirm
zero_comfirm-framed m [] m_size small le = (ground (arith, le), λ h. omega arith)
zero_comfirm-framed m (p ∷ rest) m_size small le = elim (Bool-cases (ltb (strlen p) (length p))) [
  | inl e ↦
      let cut = strlen-append_lt p (concat rest) (ltb→lt (strlen p) (length p) e) in
      (
        ground (arith, e, cut, length-append p (concat rest), small, le),
        λ h. ground (arith, e, h, cut, length-append p (concat rest), small, le),
      )
  | inr e ↦
      let cut = strlen-append_ge p (concat rest) (ltb→ge (strlen p) (length p) e) in
      elim (Bool-cases (ltb m (m_size + length p))) [
        | inl over ↦ (
          ground (arith, e, over, cut, length-append p (concat rest), small, le),
          λ h. ground (arith, e, over, h, cut, length-append p (concat rest), small, le),
        )
        | inr fits ↦
            let n : ℕ = m_size + length p in
            let bound = ltb→ge m (m_size + length p) fits in
            let same : (m_size + length p) % 2 ^ 32 ≡ m_size + length p =
              omega (arith, bound, small) in
            let (k, l) = zero_comfirm-framed m rest (m_size + length p) small bound in
            let shift : framed m (concat rest) (m_size + length p)
                ≡ framed m (p ++ concat rest) m_size =
              ground (arith, e, fits, cut, length-append p (concat rest)) in
            (
              rw (e, fits, same) (k ∙ shift),
              λ h.
                  rw (e, fits, same) (l (shift ∙ h) ∙ omega (arith, length-append p (concat rest))),
            )
      ]
]
