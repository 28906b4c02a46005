-- ===== src/Chunks/Grow.antt =====
-- `malloc` of the pool that grows.
use utility_engine_old.Base.{ℕ, zero, suc, ◌+◌, ◌<◌}
use utility_engine_old.Base.{◌≡◌, refl, sym, ap, ◌∙◌, ◌≢◌, ◌⊎◌}
use utility_engine_old.Base.{inl, inr, true, false, not, ◌&&◌, none, some, List}
use utility_engine_old.Base.{[], ◌∷◌, ◌++◌, arith, ltb, leb, ◌==◌, Bool-cases}
use utility_engine_old.Base.{==→eq}
use utility_engine_old.Base.{length}
use utility_engine_old.Base.{length-append}
use utility_engine_old.Chunks.{Cache, Chunks, new_chunk}
use utility_engine_old.Chunks.{cache_malloc}
use utility_engine_old.Chunks.{malloc_at, malloc_first, malloc_new, malloc}
use mathlib.Core.Path.{subst}
use utility_engine_old.Factory.{Factory}
use utility_engine_old.Factory.Invariant.{IsValid, clear-IsPool}
use utility_engine_old.Factory.Malloc.{malloc-some}
use utility_engine_old.Factory

clear-left : (f : Factory) → (Factory.clear f).left ≡ f.size
unfolding Factory.clear
clear-left f = refl

clear-size : (f : Factory) → (Factory.clear f).size ≡ f.size
unfolding Factory.clear
clear-size f = refl

module _ (m : ℕ) where
  -- The chunk g is f with the object p given out, which was not in use.
  pub record Taken (f g : Factory) (p : ℕ) : Type 0 where
    pub slot : ℕ
    pub pointer : p ≡ f.base + slot
    pub inside : slot < f.size
    pub was_free : f.offset slot ≢ Factory.used_mark m
    pub in_use : g.offset slot ≡ Factory.used_mark m
    pub others : (i : ℕ) → i ≢ slot → g.offset i ≡ f.offset i
    pub left_eq : g.left + 1 ≡ f.left
    pub place : (g.base ≡ f.base) × (g.size ≡ f.size)

  -- One chunk gave the object out, and the other chunks are as they were.
  abbrev pub TookOne : List Factory → List Factory → ℕ → Type 0
  TookOne [] gs p = ⊥
  TookOne (f ∷ fs) [] p = ⊥
  TookOne (f ∷ fs) (g ∷ gs) p = (Taken f g p × (gs ≡ fs)) ⊎ ((g ≡ f) × TookOne fs gs p)

  abbrev pub AllValid : List Factory → Type 0
  AllValid [] = Unit {0}
  AllValid (f ∷ fs) = IsValid m f × AllValid fs

  -- No chunk has a slot left.
  abbrev pub AllFull : List Factory → Type 0
  AllFull [] = Unit {0}
  AllFull (f ∷ fs) = (f.left ≡ 0) × AllFull fs

  malloc-full : (f : Factory) → f.left ≡ 0 → (Factory.malloc m f).0 ≡ none
  unfolding Factory.malloc
  malloc-full f e = ground (arith, e)

  malloc-place :
      (f : Factory)
      → ((Factory.malloc m f).1.base ≡ f.base) × ((Factory.malloc m f).1.size ≡ f.size)
  unfolding Factory.malloc
  malloc-place f = (ground arith, ground arith)

  malloc-Taken :
      (f : Factory)
      → IsValid m f
      → f.left ≢ 0
      → (p : ℕ) × ((Factory.malloc m f).0 ≡ some p)
        × Taken f (Factory.malloc m f).1 p
        × IsValid m (Factory.malloc m f).1
  malloc-Taken f v ne =
      let (n, g, e, lt, nu, u, same, left, w) = malloc-some m f v ne in
      let to : (Factory.malloc m f).1 ≡ g = ap (λ x. x.1) e in
      (
        f.base + n,
        ap (λ x. x.0) e,
        subst (λ x. Taken f x (f.base + n)) (sym to)
            (record {
              slot = n;
              pointer = refl;
              inside = lt;
              was_free = nu;
              in_use = u;
              others = same;
              left_eq = left;
              place = subst (λ x. (x.base ≡ f.base) × (x.size ≡ f.size)) to (malloc-place f);
            }),
        subst (IsValid m) (sym to) w,
      )

  AllValid-append :
      (fs : List Factory) (g : Factory) → AllValid fs → IsValid m g → AllValid (fs ++ g ∷ [])
  AllValid-append [] g v w = (w, tt)
  AllValid-append (f ∷ fs) g (v, vs) w = (v, AllValid-append fs g vs w)

  -- What one attempt on the vector did: an object more, or every chunk looked at is full.
  Took : List Factory → List Factory → ℕ → Type 0
  Took fs gs p = TookOne fs gs p × AllValid gs × (length gs ≡ length fs)

  malloc_at-Took :
      (fs : List Factory) (n : ℕ)
      → AllValid fs
      → ((p : ℕ) × (gs : List Factory) × (malloc_at m fs n ≡ some (p, gs)) × Took fs gs p)
        ⊎ (malloc_at m fs n ≡ none)
  unfolding malloc_at Took
  malloc_at-Took [] n v = inr refl
  malloc_at-Took (f ∷ fs) zero (v, vs) = elim (Bool-cases (f.left == 0)) [
    | inl full ↦ inr (rw (malloc_at, malloc-full f (==→eq f.left 0 full)) refl)
    | inr some_left ↦
        let (p, e, t, w) = malloc-Taken f v (ground (arith, some_left)) in
        inl (p, (Factory.malloc m f).1 ∷ fs, rw (malloc_at, e) refl, (inl (t, refl), (w, vs), refl))
  ]
  malloc_at-Took (f ∷ fs) (suc n) (v, vs) = elim (malloc_at-Took fs n vs) [
    | inl (p, gs, e, (t, w, l)) ↦
        inl (p, f ∷ gs, rw (malloc_at, e) refl, (inr (refl, t), (v, w), ap suc l))
    | inr e ↦ inr (rw (malloc_at, e) refl)
  ]

  malloc_first-Took :
      (fs : List Factory)
      → AllValid fs
      → ((p i : ℕ) × (gs : List Factory) × (malloc_first m fs ≡ some (p, i, gs))
          × Took fs gs p
          × (i < length fs))
        ⊎ ((malloc_first m fs ≡ none) × AllFull fs)
  unfolding malloc_first Took
  malloc_first-Took [] v = inr (refl, tt)
  malloc_first-Took (f ∷ fs) (v, vs) = elim (Bool-cases (f.left == 0)) [
    | inl full ↦
        let none_left : f.left ≡ 0 = ==→eq f.left 0 full in
        let nothing = malloc-full f none_left in
        elim (malloc_first-Took fs vs) [
          | inl (p, i, gs, e, (t, w, l), lt) ↦ inl (
            p,
            i + 1,
            f ∷ gs,
            rw (malloc_first, nothing, e) refl,
            (inr (refl, t), (v, w), ap suc l),
            omega (arith, lt),
          )
          | inr (e, all) ↦ inr (rw (malloc_first, nothing, e) refl, (none_left, all))
        ]
    | inr some_left ↦
        let (p, e, t, w) = malloc-Taken f v (ground (arith, some_left)) in
        inl (
          p,
          0,
          (Factory.malloc m f).1 ∷ fs,
          rw (malloc_first, e) refl,
          (inl (t, refl), (w, vs), refl),
          omega arith,
        )
  ]

  -- A chunk that `init` makes ready, whether it is new or was kept, has every slot free.
  init-ready :
      (fresh n : ℕ) (f : Factory)
      → 0 < n
      → n + 2 < m
      → 0 < fresh
      → (g : Factory) × (Factory.init m fresh n f ≡ some g)
        × IsValid m g
        × (g.left ≡ n)
        × (g.size ≡ n)
  unfolding Factory.init
  init-ready fresh n f some_n small placed =
      let asked : (not (n == 0)) ≡ true = ground (arith, some_n) in
      let room : ltb n (Factory.used_mark m) ≡ true = ground (arith, small) in
      elim (Bool-cases (not (f.base == 0) && (n == f.size))) [
        | inl kept ↦
            let same : f.size ≡ n = ground (arith, kept) in
            let based : 0 < f.base = ground (arith, kept) in
            (
              Factory.clear f,
              rw (asked, room, kept) refl,
              ([], 0, clear-IsPool m f (omega (arith, same, small)) based),
              clear-left f ∙ same,
              clear-size f ∙ same,
            )
        | inr made ↦
            let g = record f { base = fresh; size = n } in
            (
              Factory.clear g,
              rw (asked, room, made) refl,
              ([], 0, clear-IsPool m g small placed),
              clear-left g,
              clear-size g,
            )
      ]

  cache_malloc-ready :
      (fresh n : ℕ) (cache : Cache)
      → 0 < n
      → n + 2 < m
      → 0 < fresh
      → (g : Factory) × (rest : Cache) × (cache_malloc m fresh n cache ≡ some (g, rest))
        × IsValid m g
        × (g.left ≡ n)
  unfolding cache_malloc
  cache_malloc-ready fresh n cache some_n small placed = from cache.kept refl
    where
      from :
          (kept : List Factory)
          → cache.kept ≡ kept
          → (g : Factory) × (rest : Cache) × (cache_malloc m fresh n cache ≡ some (g, rest))
            × IsValid m g
            × (g.left ≡ n)
      from [] e =
          let (g, i, v, l, s) = init-ready fresh n new_chunk some_n small placed in
          (g, cache, ground (arith, e, i), v, l)
      from (f ∷ fs) e =
          let (g, i, v, l, s) = init-ready fresh n f some_n small placed in
          (g, record cache { kept = fs }, ground (arith, e, i), v, l)

  -- `malloc` of a pool of a size that fits, whose m_alloc_chunk is one of its chunks, never fails: it gives out an object that was not in use,
  -- of one of its chunks if one has a slot left, and of one chunk more, taken ready from the
  -- allocator, only if all are full; the other chunks stay as they are, all stay valid, and
  -- m_alloc_chunk stays in range.
  pub malloc-Took :
      (fresh : ℕ) (c : Chunks) (cache : Cache)
      → 0 < c.size
      → c.size + 2 < m
      → 0 < fresh
      → AllValid c.chunks
      → c.alloc_chunk < length c.chunks
      → (p : ℕ) × (c' : Chunks) × (cache' : Cache) × (malloc m fresh c cache
          ≡ some (some p, c', cache'))
        × AllValid c'.chunks
        × (c'.alloc_chunk < length c'.chunks)
        × ((TookOne c.chunks c'.chunks p × (length c'.chunks ≡ length c.chunks))
            ⊎ (AllFull c.chunks
                × ((f g : Factory) × (c'.chunks ≡ c.chunks ++ g ∷ [])
                    × Taken f g p
                    × IsValid m f
                    × (f.left ≡ c.size))))
  unfolding malloc Took
  malloc-Took fresh c cache sized small placed v inside =
      let made : (c.size == 0) ≡ false = ground (arith, sized) in
      let ranged : leb (length c.chunks) c.alloc_chunk ≡ false = ground (arith, inside) in
      elim (malloc_at-Took c.chunks c.alloc_chunk v) [
        | inl (p, gs, e, (t, w, l)) ↦ (
          p,
          record c { chunks = gs },
          cache,
          rw (malloc, made, ranged, e) refl,
          w,
          omega (arith, inside, l),
          inl (t, l),
        )
        | inr missed ↦ elim (malloc_first-Took c.chunks v) [
          | inl (p, i, gs, e, (t, w, l), lt) ↦ (
            p,
            record c { chunks = gs; alloc_chunk = i },
            cache,
            rw (malloc, made, ranged, missed, e) refl,
            w,
            omega (arith, lt, l),
            inl (t, l),
          )
          | inr (e, full) ↦
              let (f, rest, k, u, left) =
                cache_malloc-ready fresh c.size cache sized small placed in
              let (p, given, taken, w) = malloc-Taken f u (omega (arith, left, sized)) in
              let g = (Factory.malloc m f).1 in
              (
                p,
                record c { chunks = c.chunks ++ g ∷ []; alloc_chunk = length c.chunks },
                rest,
                rw (malloc, made, ranged, missed, e, malloc_new, k, given) refl,
                AllValid-append c.chunks g v w,
                omega (arith, length-append c.chunks (g ∷ [])),
                inr (full, (f, g, refl, taken, u, left)),
              )
        ]
      ]
