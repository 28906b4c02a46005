-- ===== src/Chunks/Tests.antt =====
-- Runs of the pool that grows, and its theorems at three chunks of two objects.
use utility_engine_old.Base.{ℕ, ◌+◌, ◌<◌}
use utility_engine_old.Base.{◌≡◌, refl, ◌⊎◌}
use utility_engine_old.Base.{true, false, Option, none, some}
use utility_engine_old.Base.{[], ◌∷◌, ◌++◌, arith}
use utility_engine_old.Base.{length}
use utility_engine_old.Chunks.{Cache, Chunks, new_chunk}
use utility_engine_old.Chunks.{owns}
use utility_engine_old.Chunks.{find_chunk, malloc}
use utility_engine_old.Chunks.{free}
use utility_engine_old.Factory.{Factory}
use utility_engine_old.Factory.Invariant.{IsValid}
use utility_engine_old.Factory.Chain.{used_count}
use utility_engine_old.Chunks.Search.{find_chunk-owns, free-keeps}
use utility_engine_old.Chunks.Grow.{Taken, TookOne, AllValid, AllFull, malloc-Took}
use utility_engine_old.Factory

abbrev chunk : ℕ → Factory
chunk base = record { base = base; offset = λ i. 0; next = 0; left = 2; size = 2 }

abbrev three : Chunks
three = record {
  chunks = chunk 100 ∷ chunk 200 ∷ chunk 300 ∷ [];
  alloc_chunk = 0;
  dealloc_chunk = 2;
  size = 2;
}

abbrev no_cache : Cache
no_cache = record { kept = []; limit = 0 }

-- The first `malloc` takes the first slot of the first chunk.
first_object : Option (Option ℕ)
first_object = elim (malloc 256 400 three no_cache) [ none ↦ none | some (p, c, k) ↦ some p ]

first_object_lem : first_object ≡ some (some 100)
unfolding first_object malloc Factory.malloc
first_object_lem = refl

full : ℕ → Factory
full base = record { base = base; offset = λ i. 254; next = 2; left = 0; size = 2 }

-- With all chunks full a chunk is added, at the address that `new` gave.
grown_object : Option (Option ℕ)
grown_object = elim (malloc 256 400 (record three { chunks = full 100 ∷ full 200 ∷ [] }) no_cache) [
  | none ↦ none
  | some (p, c, k) ↦ some p
]

grown_object_lem : grown_object ≡ some (some 400)
unfolding grown_object full malloc new_chunk Factory.malloc Factory.init
grown_object_lem = refl

find_chunk-owns_example :
    (n : ℕ) × (find_chunk 256 101 three ≡ some n) × (owns 256 101 three n ≡ true)
unfolding Factory.npos
find_chunk-owns_example =
    find_chunk-owns 256 101 three 0 (omega arith) (omega arith) (omega arith) refl

free-keeps_example : free 256 101 0 three no_cache ≡ some (false, three, no_cache)
unfolding Factory.npos
free-keeps_example =
    free-keeps 256 101 0 0 three no_cache (omega arith) (omega arith) (omega arith) refl

chunk-IsValid : (base : ℕ) → 0 < base → IsValid 256 (chunk base)
unfolding used_count
chunk-IsValid base placed = (
  [],
  0,
  record {
    fits = omega arith;
    placed = placed;
    within = omega arith;
    touched = λ i lt. absurd (omega arith);
    fresh = λ i lo lt. refl;
    chain = refl;
    distinct = tt;
    left_eq = omega arith;
    counted = count_zero base;
  },
)
  where
    count_zero : (base : ℕ) → 2 + used_count 256 2 (λ i. 0) ≡ 2
    count_zero base = refl

malloc-Took_example :
    (p : ℕ) × (c' : Chunks) × (cache' : Cache) × (malloc 256 400 three no_cache
      ≡ some (some p, c', cache'))
    × AllValid 256 c'.chunks
    × (c'.alloc_chunk < length c'.chunks)
    × ((TookOne 256 three.chunks c'.chunks p × (length c'.chunks ≡ length three.chunks))
        ⊎ (AllFull 256 three.chunks
            × ((f g : Factory) × (c'.chunks ≡ three.chunks ++ g ∷ [])
                × Taken 256 f g p
                × IsValid 256 f
                × (f.left ≡ 2))))
malloc-Took_example =
    malloc-Took 256 400 three no_cache (omega arith) (omega arith) (omega arith)
      (
        chunk-IsValid 100 (omega arith),
        (chunk-IsValid 200 (omega arith), (chunk-IsValid 300 (omega arith), tt)),
      )
      (omega arith)
