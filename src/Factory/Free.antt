-- ===== src/Factory/Free.antt =====
-- `free` of the pool, and `malloc` behind it.
use utility_engine_old.Base.{ℕ, ◌+◌, ◌-◌, ◌%◌, ◌≤◌, ◌<◌, ◌≡◌, refl, ◌≢◌, ◌⊎◌, Bool, true, false}
use utility_engine_old.Base.{none, some, List, [], ◌∷◌, arith, ◌==◌, if◌then◌else◌}
use utility_engine_old.Factory.{Factory, put, zero_mark, used_mark, npos, follow, malloc, free}
use mathlib.Core.Path.{subst}
use native.Mathlib.Nat.{mod-eq_of_lt}
use utility_engine_old.Factory.Chain.{Chain, Chain-put, Chain-Lacks, used_count-give}
use utility_engine_old.Factory.Invariant.{IsPool, IsValid}

module _ (m : ℕ) where
  -- What is stored to make a slot point at the list's head.
  abbrev link : Factory → ℕ
  link f = if f.next == 0 then zero_mark m else f.next

  -- The state after slot n was given back.
  abbrev given_back : ℕ → Factory → Factory
  given_back n f = record f { left = (f.left + 1) % m; offset = put f.offset n (link f); next = n }

  next-le : (f : Factory) (given : List ℕ) (h : ℕ) → IsPool m f given h → f.next ≤ f.size
  next-le f [] h v = ground (arith, v.chain, v.within)
  next-le f (x ∷ xs) h v = ground (arith, v.chain.0, v.chain.1, v.within)

  given_back-IsPool :
      (f : Factory) (given : List ℕ) (h n : ℕ)
      → IsPool m f given h
      → n < f.size
      → f.offset n ≡ used_mark m
      → IsPool m (given_back n f) (n ∷ given) h
  given_back-IsPool f given h n v lt u =
      let below : n < h = ground (arith, v.fresh n, v.fits) in
      let out = Chain-Lacks m h f.offset n f.next given u v.chain in
      let unused : link f ≢ used_mark m = ground (arith, next-le f given h v, v.fits) in
      let counts = used_count-give m f.size f.offset n (link f) lt u unused in
      let more : (f.left + 1) % m ≡ f.left + 1 =
        mod-eq_of_lt (omega (arith, v.fits, v.counted, counts)) in
      let back : f.next
          ≡ (if put f.offset n (link f) n == zero_mark m then 0 else put f.offset n (link f) n) =
        ground (arith, next-le f given h v, v.fits) in
      record {
        fits = v.fits;
        placed = v.placed;
        within = v.within;
        touched = λ i lt. ground (arith, v.touched i, v.fits);
        fresh = λ i lo lt. ground (arith, v.fresh i);
        chain = (
          refl,
          below,
          ground arith,
          subst (λ (k : ℕ). Chain m h (put f.offset n (link f)) k given) back
              (Chain-put m h f.offset n (link f) f.next given out v.chain),
        );
        distinct = (out, v.distinct);
        left_eq = rw more (omega (arith, v.left_eq));
        counted = rw more (omega (arith, counts, v.counted));
      }

  more-left :
      (f : Factory) (given : List ℕ) (h n : ℕ)
      → IsPool m f given h
      → n < f.size
      → f.offset n ≡ used_mark m
      → (f.left + 1) % m ≡ f.left + 1
  more-left f given h n v lt u =
      let unused : link f ≢ used_mark m = ground (arith, next-le f given h v, v.fits) in
      mod-eq_of_lt
        (omega (arith, v.fits, v.counted, used_count-give m f.size f.offset n (link f) lt u unused))

  npos-slot : (f : Factory) (n : ℕ) → 0 < f.base → n < f.size → npos m (f.base + n) f ≡ n
  unfolding npos
  npos-slot f n placed lt = ground arith

  free-eq :
      (f : Factory) (given : List ℕ) (h n : ℕ)
      → IsPool m f given h
      → n < f.size
      → f.offset n ≡ used_mark m
      → free m (f.base + n) f ≡ some (true, given_back n f)
  unfolding free
  free-eq f given h n v lt u =
      let slot = npos-slot f n v.placed lt in
      let inside : (n == zero_mark m) ≡ false = ground (arith, v.fits) in
      let taken : (f.offset n == used_mark m) ≡ true = ground arith in
      rw (slot, free) (rw (inside, taken))

  -- `free` of a slot in use answers true: the slot is free afterwards, no other slot changes, one
  -- slot more is left, and the pool stays valid.
  pub free-used :
      (f : Factory) (n : ℕ)
      → IsValid m f
      → n < f.size
      → f.offset n ≡ used_mark m
      → (f' : Factory) × (free m (f.base + n) f ≡ some (true, f'))
        × (f'.offset n ≢ used_mark m)
        × ((i : ℕ) → i ≢ n → f'.offset i ≡ f.offset i)
        × (f'.left ≡ f.left + 1)
        × IsValid m f'
  free-used f n (given, h, v) lt u = (
    given_back n f,
    free-eq f given h n v lt u,
    ground (arith, next-le f given h v, v.fits),
    λ i ne. ground arith,
    more-left f given h n v lt u,
    (n ∷ given, h, given_back-IsPool f given h n v lt u),
  )

  -- The slot last given back is the next given out, and then the pool is as it was: the same
  -- slots in use and the same list.
  pub malloc-free :
      (f : Factory) (n : ℕ)
      → IsValid m f
      → n < f.size
      → f.offset n ≡ used_mark m
      → (f' f'' : Factory) × (free m (f.base + n) f ≡ some (true, f'))
        × (malloc m f' ≡ (some (f.base + n), f''))
        × (f''.next ≡ f.next)
        × (f''.left ≡ f.left)
        × ((i : ℕ) → f''.offset i ≡ f.offset i)
  unfolding malloc
  malloc-free f n (given, h, v) lt u =
      let f' = given_back n f in
      let more = more-left f given h n v lt u in
      (
        f',
        record f' {
          left = f'.left - 1;
          next = follow m f'.offset n;
          offset = put f'.offset n (used_mark m);
        },
        free-eq f given h n v lt u,
        ground (arith, more),
        ground (arith, next-le f given h v, v.fits),
        omega (arith, more),
        λ i. ground arith,
      )

  -- A pointer outside the array stops `free` at its assertion.
  pub free-foreign : (f : Factory) (p : ℕ) → p < f.base ⊎ f.base + f.size ≤ p → free m p f ≡ none
  unfolding free npos
  free-foreign f p h = ground arith

  -- `free` leaves the array where it is.
  pub free-place :
      (p : ℕ) (b : Bool) (f g : Factory)
      → free m p f ≡ some (b, g)
      → (g.base ≡ f.base) × (g.size ≡ f.size)
  unfolding free
  free-place p b f g e = (ground (arith, e), ground (arith, e))
