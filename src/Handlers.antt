-- ===== src/Handlers.antt =====
-- The tables of handlers: `handler_manager_map` (UtilityEngine/include/msg_handler_manager_map.hpp)
-- and `handler_manager_deque` (UtilityEngine/include/msg_handler_manager_deque.hpp). A hash table is
-- the list of its pairs, a handler is a number, and the null handler is `none`.
pub mod Lookup
pub mod Unordered
mod Tests
use utility_engine_old.Base.{ℕ, zero, suc, ◌+◌, ◌-◌, ◌*◌, ◌/◌, ◌%◌, ◌^◌, ◌≤◌, ◌<◌, min, max}
use utility_engine_old.Base.{bit_and, bit_or, bit_xor, ◌≡◌, refl, sym, ap, ap₂, ◌∙◌, ◌≢◌, ◌↔◌, ◌⊎◌}
use utility_engine_old.Base.{inl, inr, Bool, true, false, not, ◌&&◌, ◌||◌, Option, none, some, List}
use utility_engine_old.Base.{[], ◌∷◌, ◌++◌, map, arith, ltb, leb, ◌==◌, if◌then◌else◌, Bool-cases}
use utility_engine_old.Base.{ltb→lt, ltb→ge, lt→ltb, le→ltb, ==→eq, eq→==, check, sub_ulong}
use utility_engine_old.Base.{ulong_mod, length, get_elem?, get_or, set, take, drop, tabulate}
use utility_engine_old.Base.{replicate, length-append, length-set, length-tabulate, length-take}
use utility_engine_old.Base.{length-drop, take-append-drop, take-append, drop-append, drop-drop}
use utility_engine_old.Base.{take-append_le, drop-append_le, take-append_ge, drop-append_ge}
use utility_engine_old.Base.{drop-length, take-length, get_or-set_self, get_or-set_ne}

-- `m_map.find`, on the pairs of the table
unfoldable pub get_handle : List (ℕ × ℕ) → ℕ → Option ℕ
get_handle [] key = none
get_handle ((k, h) ∷ rest) key =
    let found = get_handle rest key in if k == key then some h else found

abbrev pub is_some : Option ℕ → Bool
is_some none = false
is_some (some h) = true

-- `attach`
pub attach : ℕ → ℕ → List (ℕ × ℕ) → Bool × List (ℕ × ℕ)
attach key h table =
    if is_some (get_handle table key) then (false, table) else (true, (key, h) ∷ table)

-- `m_map.erase`
pub erase : ℕ → List (ℕ × ℕ) → List (ℕ × ℕ)
erase key [] = []
erase key ((k, h) ∷ rest) = let kept = erase key rest in if k == key then rest else (k, h) ∷ kept

-- `detach`
pub detach : ℕ → List (ℕ × ℕ) → Bool × List (ℕ × ℕ)
detach key table =
    if is_some (get_handle table key) then (true, erase key table) else (false, table)

-- The bytes of the key that `get_handle` reads out of a message in pieces, each at the address
-- `&key + pos`, that is pos keys of `size` bytes behind the key. `none` is a write outside of it.
pub key_bytes : ℕ → List (List ℕ) → Option (List ℕ)
key_bytes size [] = none
key_bytes size (p ∷ rest) = if leb size (length p) then some p else none

-- `handler_manager_deque`: the front of the queue serves every message.
pub front : List ℕ → Option ℕ
front [] = none
front (h ∷ hs) = some h

pub push_back : ℕ → List ℕ → List ℕ
push_back h hs = hs ++ h ∷ []

-- `detach`; `pop_front` of an empty deque is undefined.
pub pop_front : List ℕ → Option (List ℕ)
pop_front [] = none
pop_front (h ∷ hs) = some hs
