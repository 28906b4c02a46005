-- ===== src/Factory/Chain.antt =====
-- The list of free slots that runs through the offsets.
use utility_engine_old.Base.{ℕ, zero, suc, ◌+◌, ◌≤◌, ◌<◌, ◌≡◌, refl, ap, ◌∙◌, ◌≢◌, List, [], ◌∷◌}
use utility_engine_old.Base.{arith, ◌==◌, if◌then◌else◌}
use utility_engine_old.Factory.{put, zero_mark, used_mark}

-- No slot of the list is x.
abbrev pub Lacks : ℕ → List ℕ → Type 0
Lacks x [] = Unit {0}
Lacks x (y ∷ ys) = (y ≢ x) × Lacks x ys

abbrev pub Distinct : List ℕ → Type 0
Distinct [] = Unit {0}
Distinct (x ∷ xs) = Lacks x xs × Distinct xs

-- How many of the first n slots are in use.
module _ (m : ℕ) where
  unfoldable pub used_count : ℕ → (ℕ → ℕ) → ℕ
  used_count zero offset = 0
  used_count (suc n) offset = (if offset n == used_mark m then 1 else 0) + used_count n offset

  -- The slots given back run from `next` through the offsets, each below the slots never given
  -- out, and end at the first of those, h.
  abbrev pub Chain : ℕ → (ℕ → ℕ) → ℕ → List ℕ → Type 0
  Chain h offset next [] = next ≡ h
  Chain h offset next (x ∷ xs) =
      (next ≡ x)
      × (x < h)
      × (offset x ≢ used_mark m)
      × Chain h offset (if offset x == zero_mark m then 0 else offset x) xs

  pub Chain-put :
      (h : ℕ) (offset : ℕ → ℕ) (x v next : ℕ) (free : List ℕ)
      → Lacks x free
      → Chain h offset next free
      → Chain h (put offset x v) next free
  Chain-put h offset x v next [] l c = c
  Chain-put h offset x v next (y ∷ ys) (ne, l) (e, lt, nu, c) =
      let kept : put offset x v y ≡ offset y = ground arith in
      (
        e,
        lt,
        rw kept nu,
        rw kept (Chain-put h offset x v (if offset y == zero_mark m then 0 else offset y) ys l c),
      )

  pub Chain-Lacks :
      (h : ℕ) (offset : ℕ → ℕ) (x next : ℕ) (free : List ℕ)
      → offset x ≡ used_mark m
      → Chain h offset next free
      → Lacks x free
  Chain-Lacks h offset x next [] u c = tt
  Chain-Lacks h offset x next (y ∷ ys) u (e, lt, nu, c) = (
    λ p. nu (ap offset p ∙ u),
    Chain-Lacks h offset x (if offset y == zero_mark m then 0 else offset y) ys u c,
  )

  pub used_count-put_ge :
      (n : ℕ) (offset : ℕ → ℕ) (x v : ℕ)
      → n ≤ x
      → used_count n (put offset x v) ≡ used_count n offset
  unfolding used_count
  used_count-put_ge zero offset x v h = refl
  used_count-put_ge (suc n) offset x v h = ground (arith, used_count-put_ge n offset x v)

  pub used_count-take :
      (n : ℕ) (offset : ℕ → ℕ) (x : ℕ)
      → x < n
      → offset x ≢ used_mark m
      → used_count n (put offset x (used_mark m)) ≡ used_count n offset + 1
  unfolding used_count
  used_count-take zero offset x lt nu = absurd (omega arith)
  used_count-take (suc n) offset x lt nu =
      ground (arith, used_count-take n offset x, used_count-put_ge n offset x (used_mark m))

  pub used_count-give :
      (n : ℕ) (offset : ℕ → ℕ) (x v : ℕ)
      → x < n
      → offset x ≡ used_mark m
      → v ≢ used_mark m
      → used_count n (put offset x v) + 1 ≡ used_count n offset
  unfolding used_count
  used_count-give zero offset x v lt u nu = absurd (omega arith)
  used_count-give (suc n) offset x v lt u nu =
      ground (arith, used_count-give n offset x v, used_count-put_ge n offset x v)

  pub used_count-le : (n : ℕ) (offset : ℕ → ℕ) → used_count n offset ≤ n
  unfolding used_count
  used_count-le zero offset = omega arith
  used_count-le (suc n) offset = ground (arith, used_count-le n offset)
