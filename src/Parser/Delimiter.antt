-- ===== src/Parser/Delimiter.antt =====
-- The frames that end in a delimiter: the scan of one piece.
use utility_engine_old.Base.{ℕ, zero, suc, ◌+◌, ◌-◌, ◌%◌, ◌^◌, ◌<◌}
use utility_engine_old.Base.{◌≡◌, refl, ap, ◌∙◌}
use utility_engine_old.Base.{true, false, some, List}
use utility_engine_old.Base.{◌∷◌, arith, ltb, leb, ◌==◌, if◌then◌else◌}
use utility_engine_old.Base.{length, get_or}
use utility_engine_old.Parser.{shift, forward, scan, delimiter_comfirm, reject}

module _ (m : ℕ) (delimiter : List ℕ) where
  forward-zero : forward m delimiter 0 ≡ (1, 0)
  unfolding forward shift
  forward-zero = ground arith

  scan-miss :
      (fuel : ℕ) (p : List ℕ) (i m_size : ℕ)
      → m_size + 1 < 2 ^ 32
      → i < length p
      → (get_or p i 0 == get_or delimiter 0 0) ≡ false
      → scan m delimiter (suc fuel) p i 0 m_size ≡ (
          if ltb m (m_size + 1)
          then some (reject (m_size + 1), 0, m_size + 1)
          else scan m delimiter fuel p 1 0 (m_size + 1))
  unfolding scan
  scan-miss fuel p i m_size small lt miss =
      let inside : leb (length p) i ≡ false = ground (arith, lt) in
      let grown : (m_size + 1) % 2 ^ 32 ≡ m_size + 1 = omega (arith, small) in
      let none_left : m_size + 1 + 0 ≡ m_size + 1 = omega arith in
      rw (inside, miss, forward-zero, grown, none_left) refl

  scan-again :
      (k fuel : ℕ) (p : List ℕ) (m_size : ℕ)
      → m < 2 ^ 32 - 1
      → m_size + k ≡ m
      → 1 < length p
      → (get_or p 1 0 == get_or delimiter 0 0) ≡ false
      → scan m delimiter (suc (k + fuel)) p 1 0 m_size ≡ some (reject (m + 1), 0, m + 1)
  scan-again zero fuel p m_size small e two miss =
      let at : m_size ≡ m = omega (arith, e) in
      let over : ltb m (m_size + 1) ≡ true = ground (arith, at) in
      let step = scan-miss (zero + fuel) p 1 m_size (omega (arith, small, e)) two miss in
      step ∙ rw (over, at) refl
  scan-again (suc k) fuel p m_size small e two miss =
      let under : ltb m (m_size + 1) ≡ false = ground (arith, e) in
      let step = scan-miss (suc k + fuel) p 1 m_size (omega (arith, small, e)) two miss in
      let turns : suc k + fuel ≡ suc (k + fuel) = omega arith in
      step ∙ rw (under, turns) (scan-again k fuel p (m_size + 1) small (omega (arith, e)) two miss)

  -- At the beginning of a message, with nothing of it or of a delimiter read yet, a first piece whose
  -- first two bytes both differ from the delimiter's first is an error, whatever follows them: the scan never gets past the second byte, and counts it until the size is above
  -- MAX_MSG_LEN.
  pub delimiter_comfirm-stuck :
      (p : List ℕ) (rest : List (List ℕ))
      → 0 < m
      → m < 2 ^ 32 - 1
      → 1 < length p
      → (get_or p 0 0 == get_or delimiter 0 0) ≡ false
      → (get_or p 1 0 == get_or delimiter 0 0) ≡ false
      → delimiter_comfirm m delimiter (m + 1) (p ∷ rest) 0 0 ≡ some (reject (m + 1), 0, m + 1)
  unfolding delimiter_comfirm
  delimiter_comfirm-stuck p rest pos small two miss miss' =
      let under : ltb m (0 + 1) ≡ false = ground (arith, pos) in
      let turns : m + 1 ≡ suc (suc (m - 1 + 0)) = omega (arith, pos) in
      let one : m - 1 + 0 ≡ m - 1 = omega arith in
      let first =
        scan-miss (suc (m - 1 + 0)) p 0 0 (omega (arith, small)) (omega (arith, two)) miss in
      let again = scan-again (m - 1) 0 p (0 + 1) small (omega (arith, pos)) two miss' in
      let all : scan m delimiter (m + 1) p 0 0 0 ≡ some (reject (m + 1), 0, m + 1) =
        ap (λ f. scan m delimiter f p 0 0 0) turns ∙ first ∙ rw under again in
      rw (all, delimiter_comfirm) refl
