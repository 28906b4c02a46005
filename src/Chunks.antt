-- ===== src/Chunks.antt =====
-- The pool that grows, `data_factory_ex`, and the allocator of its chunks with a cache of a size
-- given at run time (UtilityEngine/include/mem_data_factory.hpp,
-- UtilityEngine/include/mem_data_factory.inl): a vector of pools of Factory.
-- `fresh` is the address of an array that `new` hands out.
pub mod Search
pub mod Grow
mod Tests
use utility_engine_old.Base.{ℕ, zero, suc, ◌+◌, ◌-◌, ◌*◌, ◌/◌, ◌%◌, ◌^◌, ◌≤◌, ◌<◌, min, max}
use utility_engine_old.Base.{bit_and, bit_or, bit_xor, ◌≡◌, refl, sym, ap, ap₂, ◌∙◌, ◌≢◌, ◌↔◌, ◌⊎◌}
use utility_engine_old.Base.{inl, inr, Bool, true, false, not, ◌&&◌, ◌||◌, Option, none, some, List}
use utility_engine_old.Base.{[], ◌∷◌, ◌++◌, map, arith, ltb, leb, ◌==◌, if◌then◌else◌, Bool-cases}
use utility_engine_old.Base.{ltb→lt, ltb→ge, lt→ltb, le→ltb, ==→eq, eq→==, check, sub_ulong}
use utility_engine_old.Base.{ulong_mod, length, get_elem?, get_or, set, take, drop, tabulate}
use utility_engine_old.Base.{replicate, length-append, length-set, length-tabulate, length-take}
use utility_engine_old.Base.{length-drop, take-append-drop, take-append, drop-append, drop-drop}
use utility_engine_old.Base.{take-append_le, drop-append_le, take-append_ge, drop-append_ge}
use utility_engine_old.Base.{drop-length, take-length, get_or-set_self, get_or-set_ne}
use utility_engine_old.Factory.{Factory}
use utility_engine_old.Factory

-- `allocator<Factory, DYNAMIC>`: the chunks kept, first in first out, and how many are kept at most.
pub record Cache : Type 0 where
  pub kept : List Factory
  pub limit : ℕ

pub record Chunks : Type 0 where
  pub chunks : List Factory
  pub alloc_chunk : ℕ
  pub dealloc_chunk : ℕ
  pub size : ℕ

-- `new Factory`
unfoldable pub new_chunk : Factory
new_chunk = record { base = 0; offset = λ i. 0; next = 0; left = 0; size = 0 }

-- A chunk of the vector; the model has an empty one out of range.
abbrev pub chunk_at : List Factory → ℕ → Factory
chunk_at [] n = new_chunk
chunk_at (f ∷ fs) zero = f
chunk_at (f ∷ fs) (suc n) = chunk_at fs n

abbrev pub put_chunk : List Factory → ℕ → Factory → List Factory
put_chunk [] n g = []
put_chunk (f ∷ fs) zero g = g ∷ fs
put_chunk (f ∷ fs) (suc n) g = f ∷ put_chunk fs n g

-- All chunks but the last: `pop_back`.
abbrev pub pop_back : List Factory → List Factory
pop_back [] = []
pop_back (f ∷ []) = []
pop_back (f ∷ g ∷ fs) = f ∷ pop_back (g ∷ fs)

-- `allocator::free`: into the cache, or back to the heap.
unfoldable pub cache_free : Factory → Cache → Cache
cache_free f c = if ltb (length c.kept) c.limit then record c { kept = c.kept ++ f ∷ [] } else c

-- The first n chunks behind the first, from the last one on, are cleared and given to the
-- allocator: the loop of `clear`.
unfoldable pub cache_all : List Factory → Cache → Cache
unfolding cache_free
cache_all [] c = c
cache_all (f ∷ fs) c = cache_free (Factory.clear f) (cache_all fs c)

module _ (m : ℕ) where
  -- `allocator::malloc`: a chunk of the cache or a new one, with room for n objects.
  unfoldable pub cache_malloc : ℕ → ℕ → Cache → Option (Factory × Cache)
  cache_malloc fresh n c = elim c.kept [
    | [] ↦ elim (Factory.init m fresh n new_chunk) [ none ↦ none | some f ↦ some (f, c) ]
    | f ∷ fs ↦ elim (Factory.init m fresh n f) [
      | none ↦ none
      | some g ↦ some (g, record c { kept = fs })
    ]
  ]

  -- `init`, which works once.
  unfoldable pub init : ℕ → ℕ → Chunks → Cache → Option (Chunks × Cache)
  unfolding cache_malloc
  init fresh n c cache = check (c.size == 0 && ltb 0 n) (elim (cache_malloc fresh n cache) [
    | none ↦ none
    | some (f, rest) ↦ some (record c { size = n; chunks = c.chunks ++ f ∷ [] }, rest)
  ])

  -- `clear`; without a chunk the source reads the back of an empty vector.
  unfoldable pub clear : Chunks → Cache → Option (Chunks × Cache)
  unfolding cache_all
  clear c cache = elim c.chunks [
    | [] ↦ none
    | f ∷ fs ↦ some (
      record c { chunks = Factory.clear f ∷ []; alloc_chunk = 0; dealloc_chunk = 0 },
      cache_all fs cache,
    )
  ]

  -- Whether chunk n has the pointer.
  abbrev pub owns : ℕ → Chunks → ℕ → Bool
  owns p c n = not (Factory.npos m p (chunk_at c.chunks n) == Factory.zero_mark m)

  -- The chunk i places behind the one of the last `free`, and the one i places before it, round
  -- the end of the vector.
  abbrev pub above : Chunks → ℕ → ℕ
  above c i =
      let n = c.dealloc_chunk + i in if leb (length c.chunks) n then n - length c.chunks else n

  abbrev pub below : Chunks → ℕ → ℕ
  below c i =
      if leb i c.dealloc_chunk then c.dealloc_chunk - i else length c.chunks + c.dealloc_chunk - i

  -- The loop of `npos` from i on, on fuel for its turns: the chunk that has the pointer.
  unfoldable pub search : ℕ → ℕ → Chunks → ℕ → Option ℕ
  search zero p c i = none
  search (suc turns) p c i =
      let on = search turns p c (i + 1) in
      if owns p c (above c i)
      then some (above c i)
      else (if above c i == below c i
          then none
          else (if owns p c (below c i) then some (below c i) else on))

  -- `npos`: the chunk that has the pointer; `none` stands for `_zero`.
  unfoldable pub find_chunk : ℕ → Chunks → Option ℕ
  unfolding search
  find_chunk p c =
      if c.size == 0
      then none
      else (if owns p c c.dealloc_chunk
          then some c.dealloc_chunk
          else search (length c.chunks / 2) p c 1)

  -- `malloc` of one chunk of the vector; `none` is null, of a chunk that is there.
  unfoldable pub malloc_at : List Factory → ℕ → Option (ℕ × List Factory)
  malloc_at [] n = none
  malloc_at (f ∷ fs) zero = elim (Factory.malloc m f).0 [
    | none ↦ none
    | some p ↦ some (p, (Factory.malloc m f).1 ∷ fs)
  ]
  malloc_at (f ∷ fs) (suc n) = elim (malloc_at fs n) [
    | none ↦ none
    | some (p, gs) ↦ some (p, f ∷ gs)
  ]

  -- The loop of `malloc`: the first chunk with a slot left.
  unfoldable pub malloc_first : List Factory → Option (ℕ × ℕ × List Factory)
  malloc_first [] = none
  malloc_first (f ∷ fs) = elim (Factory.malloc m f).0 [
    | none ↦ elim (malloc_first fs) [ none ↦ none | some (p, i, gs) ↦ some (p, i + 1, f ∷ gs) ]
    | some p ↦ some (p, 0, (Factory.malloc m f).1 ∷ fs)
  ]

  -- A chunk more, behind the others, and a slot of it.
  unfoldable pub malloc_new : ℕ → Chunks → Cache → Option (Option ℕ × Chunks × Cache)
  unfolding cache_malloc
  malloc_new fresh c cache = elim (cache_malloc fresh c.size cache) [
    | none ↦ none
    | some (f, rest) ↦ some (
      (Factory.malloc m f).0,
      record c { chunks = c.chunks ++ (Factory.malloc m f).1 ∷ []; alloc_chunk = length c.chunks },
      rest,
    )
  ]

  -- `malloc`; the outer `none` is a failed assertion of a chunk's `init`, or an `m_alloc_chunk` out of
  -- range, which the source does not test; the inner one is null.
  unfoldable pub malloc : ℕ → Chunks → Cache → Option (Option ℕ × Chunks × Cache)
  unfolding malloc_at malloc_first malloc_new
  malloc fresh c cache =
      let found =
        elim (malloc_at c.chunks c.alloc_chunk) as (λ x. Option (Option ℕ × Chunks × Cache)) [
          | some (p, gs) ↦ some (some p, record c { chunks = gs }, cache)
          | none ↦ elim (malloc_first c.chunks) [
            | some (p, i, gs) ↦ some (some p, record c { chunks = gs; alloc_chunk = i }, cache)
            | none ↦ malloc_new fresh c cache
          ]
        ] in
      if c.size == 0
      then some (none, c, cache)
      else (if leb (length c.chunks) c.alloc_chunk then none else found)

  -- The part of `free` behind its first test, for chunk n: the chunk takes the object back; an empty
  -- chunk changes places with the last one, and an empty last one goes to the allocator.
  unfoldable pub release : ℕ → ℕ → Chunks → Cache → Option (Bool × Chunks × Cache)
  unfolding cache_free
  release p n c cache = elim (Factory.free m p (chunk_at c.chunks n)) [
    | none ↦ none
    | some (done, g) ↦
        let fs = put_chunk c.chunks n g in
        let last = length c.chunks - 1 in
        let back = chunk_at fs last in
        let popped = leb back.size back.left in
        let gs = if popped then pop_back fs else fs in
        let k = if popped then last - 1 else last in
        let alloc = if popped && (c.alloc_chunk == last) then 0 else c.alloc_chunk in
        let swapped = put_chunk (put_chunk gs k (chunk_at gs n)) n (chunk_at gs k) in
        let freed = record c { chunks = fs; dealloc_chunk = n } in
        if ltb g.left g.size
        then some (true, freed, cache)
        else (if last == n
            then some (true, freed, cache)
            else some (
              true,
              record freed { chunks = swapped; alloc_chunk = if alloc == k then n else alloc },
              if popped then cache_free back cache else cache,
            ))
  ]

  -- `free`, with the test as it stands: it goes on when no chunk has the pointer. `probed` is the
  -- chunk that `npos` looked at last, or what the variable held if it looked at none.
  unfoldable pub free : ℕ → ℕ → Chunks → Cache → Option (Bool × Chunks × Cache)
  unfolding find_chunk release
  free p probed c cache = elim (find_chunk p c) [
    | some n ↦ some (false, c, cache)
    | none ↦ release p probed c cache
  ]
