-- ===== src/Factory/Search.antt =====
-- The searches over the offsets: the bisection of `head_zero`, and the iterator over used slots.
use utility_engine_old.Base.{ℕ, zero, suc, ◌+◌, ◌-◌, ◌/◌, ◌≤◌, ◌<◌}
use utility_engine_old.Base.{◌≡◌, sym, ap, ap₂, ◌∙◌, ◌≢◌}
use utility_engine_old.Base.{inl, inr, true, false, some, List}
use utility_engine_old.Base.{[], ◌∷◌, arith, ltb, ◌==◌, if◌then◌else◌, Bool-cases}
use utility_engine_old.Base.{ltb→lt, ltb→ge, ==→eq}
use utility_engine_old.Factory.{Factory, used_mark}
use utility_engine_old.Factory.{advance, used_begin, visit, bisect, head_zero, retreat}
use utility_engine_old.Factory.{step_back}
use utility_engine_old.Factory.Invariant.{IsValid, IsPool}

-- The slots in use among `n` slots from i on, in order.
pub slots_in_use : ℕ → Factory → ℕ → ℕ → List ℕ
slots_in_use m f zero i = []
slots_in_use m f (suc n) i =
    let rest = slots_in_use m f n (i + 1) in if f.offset i == used_mark m then i ∷ rest else rest

module _ (m : ℕ) {f : Factory} {given : List ℕ} {h : ℕ} (v : IsPool m f given h) where
  bisect-eq :
      (fuel head tail : ℕ)
      → head < tail
      → tail ≤ f.size
      → head ≤ h
      → h ≤ tail
      → tail - head ≤ fuel
      → bisect m fuel f head tail ≡ some h
  unfolding bisect
  bisect-eq zero head tail lt le lo hi enough = absurd (omega arith)
  bisect-eq (suc fuel) head tail lt le lo hi enough =
      let n : ℕ = (head + tail) / 2 in
      ground (arith, v.touched n, v.fresh n, bisect-eq fuel head n, bisect-eq fuel n tail)

  -- The iterator's step finds the next slot in use.
  abbrev pub IsNext : ℕ → ℕ → Type 0
  IsNext pos q =
      (q ≤ f.size)
      × (pos ≤ q)
      × (pos < f.size → pos < q)
      × ((i : ℕ) → pos < i → i < q → f.offset i ≢ used_mark m)
      × (q < f.size → f.offset q ≡ used_mark m)

  advance-IsNext :
      (fuel pos : ℕ) → pos ≤ f.size → f.size - pos ≤ fuel → IsNext pos (advance m fuel f pos)
  unfolding advance
  advance-IsNext zero pos le enough = (
    omega arith,
    omega arith,
    λ lt. absurd (omega arith),
    λ i lo hi. absurd (omega arith),
    λ lt. absurd (omega arith),
  )
  advance-IsNext (suc fuel) pos le enough = elim (Bool-cases (ltb pos f.size)) [
    | inr done ↦
        let over = ltb→ge pos f.size done in
        rw done (
          omega arith,
          omega arith,
          λ lt. absurd (omega arith),
          λ i lo hi. absurd (omega arith),
          λ lt. absurd (omega arith),
        )
    | inl more ↦
        let below = ltb→lt pos f.size more in
        elim (Bool-cases (f.offset (pos + 1) == used_mark m)) [
          | inl hit ↦
              rw (more, hit)
                (
                  omega arith,
                  omega arith,
                  λ lt. omega arith,
                  λ i lo hi. absurd (omega arith),
                  λ lt. ==→eq (f.offset (pos + 1)) (used_mark m) hit,
                )
          | inr miss ↦ elim (Bool-cases (f.offset (pos + 1) == 0)) [
            | inl end ↦
                rw (more, miss, end)
                  (
                    omega arith,
                    le,
                    λ lt. lt,
                    λ i lo hi. ground (arith, v.touched (pos + 1), v.fresh i, v.fits),
                    λ lt. absurd (omega arith),
                  )
            | inr on ↦
                let (a, z, b, c, d) = advance-IsNext fuel (pos + 1) (omega arith) (omega arith) in
                rw (more, miss, on)
                  (a, omega arith, λ lt. omega arith, λ i lo hi. ground (arith, c i), d)
          ]
        ]
  ]

  in_use-skip :
      (k n p : ℕ)
      → ((i : ℕ) → p ≤ i → i < p + k → f.offset i ≢ used_mark m)
      → slots_in_use m f (k + n) p ≡ slots_in_use m f n (p + k)
  unfolding slots_in_use
  in_use-skip zero n p none_used = ap₂ (slots_in_use m f) (omega arith) (omega arith)
  in_use-skip (suc k) n p none_used =
      let step : suc k + n ≡ suc (k + n) = omega arith in
      let skip : (f.offset p == used_mark m) ≡ false = ground (arith, none_used p) in
      rw (step, slots_in_use)
        (rw skip (
          in_use-skip k n (p + 1) (λ i lo hi. none_used i (omega arith) (omega arith))
          ∙ ap (slots_in_use m f n) (omega arith)))

  visit-eq :
      (fuel pos : ℕ)
      → pos ≤ f.size
      → (pos < f.size → f.offset pos ≡ used_mark m)
      → f.size - pos < fuel
      → visit m fuel f pos ≡ slots_in_use m f (f.size - pos) pos
  unfolding visit slots_in_use
  visit-eq zero pos le u enough = absurd (omega arith)
  visit-eq (suc fuel) pos le u enough = elim (Bool-cases (pos == f.size)) [
    | inl end ↦
        let none_left : f.size - pos ≡ 0 = omega (arith, ==→eq pos f.size end) in
        rw (end, none_left)
    | inr more ↦
        let lt : pos < f.size = ground arith in
        let q = advance m f.size f pos in
        let (a, z, b, c, d) = advance-IsNext f.size pos le (omega arith) in
        let split : f.size - pos ≡ suc ((q - (pos + 1)) + (f.size - q)) = omega (arith, b lt) in
        let hit : (f.offset pos == used_mark m) ≡ true = ground (arith, u lt) in
        let there : pos + 1 + (q - (pos + 1)) ≡ q = omega (arith, b lt) in
        rw (more, split)
          (rw hit (
            ap (λ l. pos ∷ l)
              (visit-eq fuel q a d (omega (arith, b lt))
                ∙ sym (
                    in_use-skip (q - (pos + 1)) (f.size - q) (pos + 1)
                      (λ i lo hi. c i (omega arith) (omega arith))
                    ∙ ap (slots_in_use m f (f.size - q)) there))))
  ]

  used_begin-eq :
      0 < f.size
      → (used_begin m f ≤ f.size)
        × (used_begin m f < f.size → f.offset (used_begin m f) ≡ used_mark m)
        × ((i : ℕ) → i < used_begin m f → f.offset i ≢ used_mark m)
  unfolding used_begin
  used_begin-eq pos =
      let (a, z, b, c, d) = advance-IsNext f.size 0 (omega arith) (omega arith) in
      elim (Bool-cases (f.offset 0 == used_mark m)) [
        | inl hit ↦
            rw hit (
              omega arith,
              λ lt. ==→eq (f.offset 0) (used_mark m) hit,
              λ i lt. absurd (omega arith),
            )
        | inr miss ↦ elim (Bool-cases (f.offset 0 == 0)) [
          | inl end ↦
              rw (miss, end)
                (
                  omega arith,
                  λ lt. absurd (omega arith),
                  λ i lt. ground (arith, v.touched 0, v.fresh i, v.fits),
                )
          | inr on ↦ rw (miss, on) (a, d, λ i lt. ground (arith, c i))
        ]
      ]

  pub visit-in_use :
      0 < f.size → visit m (f.size + 1) f (used_begin m f) ≡ slots_in_use m f f.size 0
  visit-in_use pos =
      let q = used_begin m f in
      let (a, b, c) = used_begin-eq pos in
      let split : f.size ≡ q + (f.size - q) = omega arith in
      visit-eq (f.size + 1) q a b (omega arith)
      ∙ sym (
          ap (λ n. slots_in_use m f n 0) split
          ∙ in_use-skip q (f.size - q) 0 (λ i lo hi. c i (omega arith))
          ∙ ap (slots_in_use m f (f.size - q)) (omega arith))

  head_zero-eq : 0 < f.size → head_zero m f ≡ some h
  unfolding head_zero
  head_zero-eq pos =
      bisect-eq f.size 0 f.size pos (omega arith) (omega arith) v.within (omega arith)

  retreat-used :
      (pos q : ℕ)
      → pos < q
      → f.offset pos ≡ used_mark m
      → ((i : ℕ) → pos < i → i < q → f.offset i ≢ used_mark m)
      → retreat m f q ≡ pos
  unfolding retreat
  retreat-used pos zero lt u none_used = absurd (omega arith)
  retreat-used pos (suc q) lt u none_used = ground (arith, none_used q, retreat-used pos q)

  step_back-advance :
      (pos : ℕ)
      → pos < f.size
      → f.offset pos ≡ used_mark m
      → step_back m f (advance m f.size f pos) ≡ some pos
  unfolding step_back
  step_back-advance pos lt u =
      let q = advance m f.size f pos in
      let (a, z, b, c, d) = advance-IsNext f.size pos (omega arith) (omega arith) in
      let below : pos < h = ground (arith, v.fresh pos, v.fits) in
      let begun : (f.offset 0 == 0) ≡ false = ground (arith, v.touched 0) in
      elim (Bool-cases (q == f.size)) [
        | inl end ↦
            rw (begun, end, head_zero-eq (omega arith))
              (ap some (
                retreat-used pos h below u
                  (λ i lo hi. c i lo (omega (arith, ==→eq q f.size end, v.within)))))
        | inr inside ↦ rw (begun, inside) (ap some (retreat-used pos q (b lt) u c))
      ]

module _ (m : ℕ) (f : Factory) (valid : IsValid m f) (some_slot : 0 < f.size) where
  -- On a valid pool with a slot the bisection of `head_zero` ends, within as many turns as there are
  -- slots, and answers the first slot never given out (the size, if there is none).
  pub head_zero_lem :
      (n : ℕ) × (head_zero m f ≡ some n)
      × (n ≤ f.size)
      × ((i : ℕ) → i < n → f.offset i ≢ 0)
      × ((i : ℕ) → n ≤ i → i < f.size → f.offset i ≡ 0)
  head_zero_lem =
      let v = valid.2 in (valid.1, head_zero-eq m v some_slot, v.within, v.touched, v.fresh)

  -- The loop over the iterators visits exactly the slots in use, each once, in order.
  pub visit-used_begin : visit m (f.size + 1) f (used_begin m f) ≡ slots_in_use m f f.size 0
  visit-used_begin = visit-in_use m valid.2 some_slot

  -- Stepping on from a slot in use and back again returns to it, from the end too.
  pub advance-step_back :
      (pos : ℕ)
      → pos < f.size
      → f.offset pos ≡ used_mark m
      → step_back m f (advance m f.size f pos) ≡ some pos
  advance-step_back pos lt u = step_back-advance m valid.2 pos lt u
