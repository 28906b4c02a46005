-- ===== src/Factory/Invariant.antt =====
-- The invariant of the pool: the free list is sound, and `left` counts the slots not in use.
use utility_engine_old.Base.{ℕ, zero, suc, ◌+◌, ◌-◌, ◌≤◌, ◌<◌, ◌≡◌, refl, ◌≢◌, List, [], arith, ltb}
use utility_engine_old.Base.{if◌then◌else◌, length}
use utility_engine_old.Factory.{Factory, clear}
use utility_engine_old.Factory.Chain.{Distinct, Chain, used_count}

module _ (m : ℕ) where
  -- `given` are the slots given back, last first; h is the first slot never given out.
  pub record IsPool (f : Factory) (given : List ℕ) (h : ℕ) : Type 0 where
    pub fits : f.size + 2 < m
    pub placed : 0 < f.base
    pub within : h ≤ f.size
    pub touched : (i : ℕ) → i < h → f.offset i ≢ 0
    pub fresh : (i : ℕ) → h ≤ i → i < f.size → f.offset i ≡ 0
    pub chain : Chain m h f.offset f.next given
    pub distinct : Distinct given
    pub left_eq : f.left ≡ length given + (f.size - h)
    pub counted : f.left + used_count m f.size f.offset ≡ f.size

  -- The same without the list.
  abbrev pub IsValid : Factory → Type 0
  IsValid f = (given : List ℕ) × (h : ℕ) × IsPool f given h

  used_count-zero :
      (n : ℕ) (offset : ℕ → ℕ)
      → 2 < m
      → ((i : ℕ) → i < n → offset i ≡ 0)
      → used_count m n offset ≡ 0
  unfolding used_count
  used_count-zero zero offset big z = refl
  used_count-zero (suc n) offset big z =
      ground (arith, z n, used_count-zero n offset big (λ i lt. z i (omega arith)))

  -- A cleared pool has every slot free.
  pub clear-IsPool : (f : Factory) → f.size + 2 < m → 0 < f.base → IsPool (clear f) [] 0
  unfolding clear
  clear-IsPool f fits placed = record {
    fits = fits;
    placed = placed;
    within = omega arith;
    touched = λ i lt. absurd (omega arith);
    fresh = λ i lo lt. ground arith;
    chain = refl;
    distinct = tt;
    left_eq = omega arith;
    counted = omega (
      arith,
      used_count-zero f.size (λ i. if ltb i f.size then 0 else f.offset i) (omega arith)
          (λ i lt. ground arith),
    );
  }
