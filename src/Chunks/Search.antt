-- ===== src/Chunks/Search.antt =====
-- The search for the chunk of a pointer, and what `free` makes of it.
use utility_engine_old.Base.{ℕ, zero, suc, ◌+◌, ◌-◌, ◌/◌, ◌≤◌, ◌<◌, ◌≡◌, refl, sym, ap, ◌∙◌, ◌≢◌}
use utility_engine_old.Base.{◌⊎◌, inl, inr, true, false, some, arith, leb, ◌==◌, Bool-cases, ==→eq}
use utility_engine_old.Base.{length}
use utility_engine_old.Chunks.{Cache, Chunks, owns, above, below, search, find_chunk, free}

module _ (m : ℕ) where
  -- Chunk k stands i places from the one of the last `free`.
  abbrev Near : Chunks → ℕ → ℕ → Type 0
  Near c i k = (above m c i ≡ k) ⊎ (below m c i ≡ k)

  -- Every chunk is near, at half the number of the chunks at most.
  Near-some :
      (c : Chunks) (k : ℕ)
      → c.dealloc_chunk < length c.chunks
      → k < length c.chunks
      → k ≢ c.dealloc_chunk
      → (j : ℕ) × (0 < j) × (j ≤ length c.chunks / 2) × Near c j k
  Near-some c k d lt ne =
      let total = length c.chunks in
      elim (Bool-cases (leb c.dealloc_chunk k)) [
        | inl up ↦ elim (Bool-cases (leb (k - c.dealloc_chunk) (total / 2))) [
          | inl close ↦ (
            k - c.dealloc_chunk,
            ground (arith, up, ne),
            ground (arith, close),
            inl (ground (arith, up, lt)),
          )
          | inr far ↦ (
            total - (k - c.dealloc_chunk),
            ground (arith, up, lt, d),
            ground (arith, far),
            inr (ground (arith, up, lt, far, d)),
          )
        ]
        | inr down ↦ elim (Bool-cases (leb (c.dealloc_chunk - k) (total / 2))) [
          | inl close ↦ (
            c.dealloc_chunk - k,
            ground (arith, down),
            ground (arith, close),
            inr (ground (arith, down, d)),
          )
          | inr far ↦ (
            total - (c.dealloc_chunk - k),
            ground (arith, down, d),
            ground (arith, far),
            inl (ground (arith, down, far, d)),
          )
        ]
      ]

  -- The two places are one only half way round.
  meet_half :
      (c : Chunks) (i : ℕ)
      → c.dealloc_chunk < length c.chunks
      → 0 < i
      → i ≤ length c.chunks / 2
      → above m c i ≡ below m c i
      → length c.chunks ≤ i + i
  meet_half c i d some_i half e = ground (arith, e)

  not-Near :
      (p : ℕ) (c : Chunks) (i j k : ℕ)
      → owns m p c k ≡ true
      → owns m p c (above m c i) ≡ false
      → owns m p c (below m c i) ≡ false
      → Near c j k
      → i ≢ j
  not-Near p c i j k has up down (inl e) same =
      let t : owns m p c (above m c i) ≡ true =
        ap (λ x. owns m p c (above m c x)) same ∙ ap (owns m p c) e ∙ has in
      cc
  not-Near p c i j k has up down (inr e) same =
      let t : owns m p c (below m c i) ≡ true =
        ap (λ x. owns m p c (below m c x)) same ∙ ap (owns m p c) e ∙ has in
      cc

  search-owns :
      (turns p : ℕ) (c : Chunks) (i j k : ℕ)
      → c.dealloc_chunk < length c.chunks
      → owns m p c k ≡ true
      → 0 < i
      → i ≤ j
      → j < i + turns
      → j ≤ length c.chunks / 2
      → Near c j k
      → (n : ℕ) × (search m turns p c i ≡ some n) × (owns m p c n ≡ true)
  unfolding search
  search-owns zero p c i j k d has some_i le lt half near = absurd (omega (arith, le, lt))
  search-owns (suc turns) p c i j k d has some_i le lt half near =
      elim (Bool-cases (owns m p c (above m c i))) [
        | inl up ↦ (above m c i, rw up refl, up)
        | inr not_up ↦ elim (Bool-cases (above m c i == below m c i)) [
          | inl met ↦
              let same : above m c i ≡ below m c i = ==→eq (above m c i) (below m c i) met in
              let not_down : owns m p c (below m c i) ≡ false =
                ap (owns m p c) (sym same) ∙ not_up in
              let around = meet_half c i d some_i (omega (arith, le, half)) same in
              absurd (not-Near p c i j k has not_up not_down near (omega (arith, around, le, half)))
          | inr apart ↦ elim (Bool-cases (owns m p c (below m c i))) [
            | inl down ↦ (below m c i, rw (not_up, apart, down) refl, down)
            | inr not_down ↦
                let away : i ≢ j = not-Near p c i j k has not_up not_down near in
                let (n, e, o) =
                  search-owns turns p c (i + 1) j k d has (omega arith) (omega (arith, le, away))
                    (omega (arith, lt)) half near in
                let through : search m (suc turns) p c i ≡ search m turns p c (i + 1) =
                  rw (not_up, apart, not_down) refl in
                (n, through ∙ e, o)
          ]
        ]
      ]

  -- With the last `free` in range, `npos` finds a chunk that has the pointer whenever there is one,
  -- wherever it stands in the vector.
  pub find_chunk-owns :
      (p : ℕ) (c : Chunks) (k : ℕ)
      → 0 < c.size
      → c.dealloc_chunk < length c.chunks
      → k < length c.chunks
      → owns m p c k ≡ true
      → (n : ℕ) × (find_chunk m p c ≡ some n) × (owns m p c n ≡ true)
  unfolding find_chunk
  find_chunk-owns p c k sized d lt has =
      let made : (c.size == 0) ≡ false = ground (arith, sized) in
      elim (Bool-cases (owns m p c c.dealloc_chunk)) [
        | inl here ↦ (c.dealloc_chunk, rw (made, here) refl, here)
        | inr not_here ↦
            let other : k ≢ c.dealloc_chunk = λ e.
              let t : owns m p c c.dealloc_chunk ≡ true = ap (owns m p c) (sym e) ∙ has in cc in
            let (j, some_j, half, near) = Near-some c k d lt other in
            let (n, e, o) =
              search-owns (length c.chunks / 2) p c 1 j k d has (omega arith)
                (omega (arith, some_j)) (omega (arith, half)) half near in
            let through : find_chunk m p c ≡ search m (length c.chunks / 2) p c 1 =
              rw (made, not_here) refl in
            (n, through ∙ e, o)
      ]

  -- An object of the pool is never taken back: `free` says false, and the pool and the cache stay as
  -- they are.
  pub free-keeps :
      (p probed k : ℕ) (c : Chunks) (cache : Cache)
      → 0 < c.size
      → c.dealloc_chunk < length c.chunks
      → k < length c.chunks
      → owns m p c k ≡ true
      → free m p probed c cache ≡ some (false, c, cache)
  unfolding free
  free-keeps p probed k c cache sized d lt has =
      let (n, e, o) = find_chunk-owns p c k sized d lt has in rw (free, e) refl
