-- ===== src/Allocator.antt =====
-- The allocators of chunks whose cache has a fixed size, or that have none
-- (UtilityEngine/include/mem_data_factory.hpp, UtilityEngine/include/mem_data_factory.inl:
-- `allocator<Factory, Cache>` and `allocator<Factory, NO_CACHE>`). A chunk is its address, the null
-- pointer is 0, and the address that `new` gives is an argument.
pub mod Stack
mod Tests
use utility_engine_old.Base.{ℕ, zero, suc, ◌+◌, ◌-◌, ◌*◌, ◌/◌, ◌%◌, ◌^◌, ◌≤◌, ◌<◌, min, max}
use utility_engine_old.Base.{bit_and, bit_or, bit_xor, ◌≡◌, refl, sym, ap, ap₂, ◌∙◌, ◌≢◌, ◌↔◌, ◌⊎◌}
use utility_engine_old.Base.{inl, inr, Bool, true, false, not, ◌&&◌, ◌||◌, Option, none, some, List}
use utility_engine_old.Base.{[], ◌∷◌, ◌++◌, map, arith, ltb, leb, ◌==◌, if◌then◌else◌, Bool-cases}
use utility_engine_old.Base.{ltb→lt, ltb→ge, lt→ltb, le→ltb, ==→eq, eq→==, check, sub_ulong}
use utility_engine_old.Base.{ulong_mod, length, get_elem?, get_or, set, take, drop, tabulate}
use utility_engine_old.Base.{replicate, length-append, length-set, length-tabulate, length-take}
use utility_engine_old.Base.{length-drop, take-append-drop, take-append, drop-append, drop-drop}
use utility_engine_old.Base.{take-append_le, drop-append_le, take-append_ge, drop-append_ge}
use utility_engine_old.Base.{drop-length, take-length, get_or-set_self, get_or-set_ne}

-- The calls out of an allocator: `new Factory`, `delete` and the chunk's `init`.
pub data Call : Type 0 where
  make remove : ℕ → Call
  init : ℕ → ℕ → Call

-- `m_cache` by the number of the place, and `m_head` as such a number; the calls, the last one first
pub record Allocator : Type 0 where
  pub slots : ℕ → ℕ
  pub head : ℕ
  pub calls : List Call

-- A store into the array.
abbrev pub put : (ℕ → ℕ) → ℕ → ℕ → ℕ → ℕ
put slots i p j = if j == i then p else slots j

-- `new Factory` for a null pointer, and `init`
abbrev pub provide : ℕ → ℕ → ℕ → List Call → ℕ × List Call
provide fresh size p calls =
    if p == 0 then (fresh, init fresh size ∷ make fresh ∷ calls) else (p, init p size ∷ calls)

module _ (cache : ℕ) where
  -- The constructor; `m_tail` stays at the end of the array, and the array is not initialised.
  unfoldable pub create : (ℕ → ℕ) → Allocator
  create slots = record { slots = slots; head = cache; calls = [] }

  -- `malloc`
  unfoldable pub malloc : ℕ → ℕ → Allocator → ℕ × Allocator
  malloc fresh size s =
      let cached = not (s.head == cache) in
      let given = provide fresh size (if cached then s.slots s.head else 0) s.calls in
      (given.0, record s { head = if cached then s.head + 1 else s.head; calls = given.1 })

-- `free`
unfoldable pub free : ℕ → Allocator → Allocator
free p s =
    if ltb 0 s.head
    then record s { slots = put s.slots (s.head - 1) p; head = s.head - 1 }
    else record s { calls = remove p ∷ s.calls }

-- `malloc` and `free` without a cache
unfoldable pub malloc_no_cache : ℕ → ℕ → List Call → ℕ × List Call
malloc_no_cache fresh size calls = (fresh, init fresh size ∷ make fresh ∷ calls)

unfoldable pub free_no_cache : ℕ → List Call → List Call
free_no_cache p calls = remove p ∷ calls

-- A client's calls, with the address that `new` would give.
pub data Request : Type 0 where
  ask : ℕ → ℕ → Request
  give_back : ℕ → Request

module _ (cache : ℕ) where
  -- The chunks given out, and the allocator.
  unfoldable pub serve : List Request → Allocator → List ℕ × Allocator
  unfolding malloc free
  serve [] s = ([], s)
  serve (ask fresh size ∷ rest) s =
      let given = malloc cache fresh size s in
      let later = serve rest given.1 in (given.0 ∷ later.0, later.1)
  serve (give_back p ∷ rest) s = serve rest (free p s)
