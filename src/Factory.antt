-- ===== src/Factory.antt =====
-- The object pool `data_factory` (UtilityEngine/include/mem_data_factory.hpp and
-- UtilityEngine/include/mem_data_factory.inl): an array of slots whose free list runs through a
-- second array of offsets.
-- A T* is the number of its element in one address space, and the null pointer is 0. `size_type`
-- is an unsigned number modulo m: 2 ^ 8, 2 ^ 16 or 2 ^ 64, chosen from N by the template.
pub mod Chain
pub mod Invariant
pub mod Malloc
pub mod Free
pub mod Search
mod Tests
use utility_engine_old.Base.{ℕ, zero, suc, ◌+◌, ◌-◌, ◌*◌, ◌/◌, ◌%◌, ◌^◌, ◌≤◌, ◌<◌, min, max}
use utility_engine_old.Base.{bit_and, bit_or, bit_xor, ◌≡◌, refl, sym, ap, ap₂, ◌∙◌, ◌≢◌, ◌↔◌, ◌⊎◌}
use utility_engine_old.Base.{inl, inr, Bool, true, false, not, ◌&&◌, ◌||◌, Option, none, some, List}
use utility_engine_old.Base.{[], ◌∷◌, ◌++◌, map, arith, ltb, leb, ◌==◌, if◌then◌else◌, Bool-cases}
use utility_engine_old.Base.{ltb→lt, ltb→ge, lt→ltb, le→ltb, ==→eq, eq→==, check, sub_ulong}
use utility_engine_old.Base.{ulong_mod, length, get_elem?, get_or, set, take, drop, tabulate}
use utility_engine_old.Base.{replicate, length-append, length-set, length-tabulate, length-take}
use utility_engine_old.Base.{length-drop, take-append-drop, take-append, drop-append, drop-drop}
use utility_engine_old.Base.{take-append_le, drop-append_le, take-append_ge, drop-append_ge}
use utility_engine_old.Base.{drop-length, take-length, get_or-set_self, get_or-set_ne}

pub record Factory : Type 0 where
  pub base : ℕ
  pub offset : ℕ → ℕ
  pub next : ℕ
  pub left : ℕ
  pub size : ℕ

-- A store into the array of offsets.
abbrev pub put : (ℕ → ℕ) → ℕ → ℕ → ℕ → ℕ
put f i v j = if j == i then v else f j

-- `clear`: the offsets of the slots are set to 0.
unfoldable pub clear : Factory → Factory
clear f = record f { next = 0; left = f.size; offset = λ i. if ltb i f.size then 0 else f.offset i }

module _ (m : ℕ) where
  -- `_zero`, which stands for the slot 0 in the list, and `_used`
  abbrev pub zero_mark : ℕ
  zero_mark = m - 1

  abbrev pub used_mark : ℕ
  used_mark = m - 2

  -- `npos`: the slot of a pointer, or `_zero`
  unfoldable pub npos : ℕ → Factory → ℕ
  npos p f =
      if f.base == 0 || (ltb p f.base || leb (f.base + f.size) p) then zero_mark else p - f.base

  -- The slot that follows slot n in the list of free slots.
  abbrev pub follow : (ℕ → ℕ) → ℕ → ℕ
  follow offset n =
      if offset n == 0 then (n + 1) % m else if offset n == zero_mark then 0 else offset n

  -- `malloc`; `none` is the null pointer.
  unfoldable pub malloc : Factory → Option ℕ × Factory
  malloc f = if f.left == 0 then (none, f) else (
    some (f.base + f.next),
    record f {
      left = f.left - 1;
      next = follow f.offset f.next;
      offset = put f.offset f.next used_mark;
    },
  )

  -- `free`, with its assertions and with the guards that repeat them.
  unfoldable pub free : ℕ → Factory → Option (Bool × Factory)
  free p f =
      let n = npos p f in
      let freed = record f {
        left = (f.left + 1) % m;
        offset = put f.offset n (if f.next == 0 then zero_mark else f.next);
        next = n;
      } in
      check (not (n == zero_mark)) (
        if n == zero_mark
        then some (false, f)
        else check (f.offset n == used_mark)
            (if f.offset n == used_mark then some (true, freed) else some (true, f)))

  -- `init` of the pool whose size is given at run time; `fresh` is the new array.
  unfoldable pub init : ℕ → ℕ → Factory → Option Factory
  unfolding clear
  init fresh n f = check (not (n == 0)) (
      check (ltb n used_mark) (
        if not (f.base == 0) && (n == f.size)
        then some (clear f)
        else some (clear (record f { base = fresh; size = n }))))

  -- `operator++` of the iterator at slot `pos`, on fuel for the slots behind it.
  unfoldable pub advance : ℕ → Factory → ℕ → ℕ
  advance zero f pos = pos
  advance (suc fuel) f pos =
      let on = advance fuel f (pos + 1) in
      if ltb pos f.size
      then (if f.offset (pos + 1) == used_mark
          then pos + 1
          else if f.offset (pos + 1) == 0
          then f.size
          else on)
      else pos

  -- `used_begin`
  unfoldable pub used_begin : Factory → ℕ
  used_begin f =
      if f.offset 0 == used_mark then 0 else if f.offset 0 == 0 then f.size else advance f.size f 0

  -- The loop `for (it = used_begin(); it != used_end(); ++it)`: the slots visited.
  unfoldable pub visit : ℕ → Factory → ℕ → List ℕ
  visit zero f pos = []
  visit (suc fuel) f pos =
      let rest = visit fuel f (advance f.size f pos) in if pos == f.size then [] else pos ∷ rest

  -- The loop of `head_zero`: the first slot whose offset is 0, by bisection; `none` is a loop
  -- that has not ended. head + tail is computed in int where `size_type` has 8 or 16 bits, and does not
  -- come to 2 ^ 64 where it has 64.
  unfoldable pub bisect : ℕ → Factory → ℕ → ℕ → Option ℕ
  bisect zero f head tail = none
  bisect (suc fuel) f head tail =
      let n = (head + tail) / 2 in
      let lower = bisect fuel f head n in
      let upper = bisect fuel f n tail in
      if f.offset n == 0
      then (if n == head then some n else lower)
      else (if n == head then some (n + 1) else upper)

  unfoldable pub head_zero : Factory → Option ℕ
  head_zero f = bisect f.size f 0 f.size

  -- The second loop of `operator--`: down from `pos` to a used slot, or to slot 0.
  unfoldable pub retreat : Factory → ℕ → ℕ
  retreat f zero = 0
  retreat f (suc pos) = let on = retreat f pos in if f.offset pos == used_mark then pos else on

  -- `operator--` of the iterator.
  unfoldable pub step_back : Factory → ℕ → Option ℕ
  step_back f pos =
      if f.offset 0 == 0
      then some pos
      else (if pos == f.size
          then elim (head_zero f) [ none ↦ none | some n ↦ some (retreat f n) ]
          else some (retreat f pos))

-- `used`
abbrev pub used_slots : Factory → ℕ
used_slots f = f.size - f.left
