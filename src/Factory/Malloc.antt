-- ===== src/Factory/Malloc.antt =====
-- `malloc` of the pool.
use utility_engine_old.Base.{ℕ, suc, ◌+◌, ◌-◌, ◌<◌, ◌≡◌, ap, ◌∙◌, ◌≢◌, ◌↔◌, none, some, List, []}
use utility_engine_old.Base.{◌∷◌, arith, ◌==◌, if◌then◌else◌}
use native.Mathlib.Nat.{mod-eq_of_lt}
use utility_engine_old.Factory.{Factory, put, zero_mark, used_mark, follow, malloc}
use utility_engine_old.Factory.Chain.{Chain-put, used_count, used_count-take}
use utility_engine_old.Factory.Invariant.{IsPool, IsValid}

-- The state after a slot was given out.
abbrev pub given_out : ℕ → Factory → Factory
given_out m f = record f {
  left = f.left - 1;
  next = follow m f.offset f.next;
  offset = put f.offset f.next (used_mark m);
}

module _ (m : ℕ) where
  follow-fresh : (offset : ℕ → ℕ) (n : ℕ) → offset n ≡ 0 → n + 1 < m → follow m offset n ≡ suc n
  follow-fresh offset n z lt = ground (arith, mod-eq_of_lt lt)

  follow-given :
      (offset : ℕ → ℕ) (n : ℕ)
      → offset n ≢ 0
      → follow m offset n ≡ (if offset n == zero_mark m then 0 else offset n)
  follow-given offset n nz = ground arith

  -- The next slot is free and in range.
  pub next-free :
      (f : Factory) (given : List ℕ) (h : ℕ)
      → IsPool m f given h
      → f.left ≢ 0
      → (f.next < f.size) × (f.offset f.next ≢ used_mark m)
  next-free f [] h v ne = ground (arith, v.fresh h, v.chain)
  next-free f (x ∷ xs) h v ne = ground (arith, v.chain.0, v.chain.1, v.chain.2)

  given_out-IsValid :
      (f : Factory) (given : List ℕ) (h : ℕ)
      → IsPool m f given h
      → f.left ≢ 0
      → IsValid m (given_out m f)
  given_out-IsValid f [] h v ne = (
    [],
    suc h,
    record {
      fits = v.fits;
      placed = v.placed;
      within = ground arith;
      touched = λ i lt. ground (arith, v.touched i, v.chain, v.fits);
      fresh = λ i lo lt. ground (arith, v.fresh i, v.chain);
      chain =
          follow-fresh f.offset f.next (ground (arith, v.fresh h, v.chain))
            (ground (arith, v.chain, v.fits))
          ∙ ap suc v.chain;
      distinct = tt;
      left_eq = ground arith;
      counted =
          let (lt, nu) = next-free f [] h v ne in
          omega (arith, used_count-take m f.size f.offset f.next lt nu, v.counted);
    },
  )
  given_out-IsValid f (x ∷ xs) h v ne = (
    xs,
    h,
    record {
      fits = v.fits;
      placed = v.placed;
      within = v.within;
      touched = λ i lt. ground (arith, v.touched i, v.chain.0, v.fits);
      fresh = λ i lo lt. ground (arith, v.fresh i, v.chain.0, v.chain.1);
      chain =
          rw (v.chain.0, follow-given f.offset x (v.touched x v.chain.1))
            (Chain-put m h f.offset x (used_mark m)
              (if f.offset x == zero_mark m then 0 else f.offset x) xs v.distinct.0 v.chain.3);
      distinct = v.distinct.1;
      left_eq = ground arith;
      counted =
          let (lt, nu) = next-free f (x ∷ xs) h v ne in
          omega (arith, used_count-take m f.size f.offset f.next lt nu, v.counted);
    },
  )

  -- While a slot is left `malloc` gives out a slot of the pool that was not in use: the slot is in
  -- use afterwards, no other slot changes, one slot less is left, and the pool stays valid.
  pub malloc-some :
      (f : Factory)
      → IsValid m f
      → f.left ≢ 0
      → (n : ℕ) × (f' : Factory) × (malloc m f ≡ (some (f.base + n), f'))
        × (n < f.size)
        × (f.offset n ≢ used_mark m)
        × (f'.offset n ≡ used_mark m)
        × ((i : ℕ) → i ≢ n → f'.offset i ≡ f.offset i)
        × (f'.left + 1 ≡ f.left)
        × IsValid m f'
  unfolding malloc
  malloc-some f (given, h, v) ne =
      let (lt, nu) = next-free f given h v ne in
      (
        f.next,
        given_out m f,
        ground arith,
        lt,
        nu,
        ground arith,
        λ i other. ground arith,
        omega arith,
        given_out-IsValid f given h v ne,
      )

  -- `malloc` gives the null pointer exactly when every slot is in use, and then changes nothing.
  pub malloc-none_iff :
      (f : Factory)
      → IsValid m f
      → ((malloc m f).0 ≡ none) ↔ (used_count m f.size f.offset ≡ f.size)
  unfolding malloc
  malloc-none_iff f (given, h, v) = (λ e. ground (arith, v.counted), λ e. ground (arith, v.counted))
