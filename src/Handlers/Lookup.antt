-- ===== src/Handlers/Lookup.antt =====
-- What the table of handlers answers after `attach` and `detach`.
use utility_engine_old.Base.{ℕ, ◌≡◌, refl, Bool, true, false, not, ◌&&◌, none, some, List, [], ◌∷◌}
use utility_engine_old.Base.{arith, ◌==◌, if◌then◌else◌}
use utility_engine_old.Handlers.{get_handle, is_some, attach, erase, detach}

-- Whether the table has at most one handler for each key.
unfoldable pub distinct : List (ℕ × ℕ) → Bool
distinct [] = true
distinct ((k, h) ∷ rest) = not (is_some (get_handle rest k)) && distinct rest

get_handle-erase_other :
    (key other : ℕ) (table : List (ℕ × ℕ))
    → (other == key) ≡ false
    → get_handle (erase key table) other ≡ get_handle table other
unfolding get_handle erase
get_handle-erase_other key other [] ne = refl
get_handle-erase_other key other ((k, h) ∷ rest) ne =
    ground (arith, ne, get_handle-erase_other key other rest ne)

get_handle-erase :
    (key : ℕ) (table : List (ℕ × ℕ))
    → distinct table ≡ true
    → get_handle (erase key table) key ≡ none
unfolding get_handle erase distinct
get_handle-erase key [] d = refl
get_handle-erase key ((k, h) ∷ rest) d = ground (arith, d, get_handle-erase key rest)

-- A key without a handler is given one, and then has it, whatever the other keys have; a key with
-- a handler keeps it, and `attach` says so.
pub get_handle-attach :
    (key h other : ℕ) (table : List (ℕ × ℕ))
    → ((attach key h table).0 ≡ not (is_some (get_handle table key)))
      × (get_handle (attach key h table).1 other ≡ (
          if (key == other) && not (is_some (get_handle table key))
          then some h
          else get_handle table other))
unfolding attach get_handle
get_handle-attach key h other table = (ground arith, ground arith)

distinct-erase :
    (key : ℕ) (table : List (ℕ × ℕ)) → distinct table ≡ true → distinct (erase key table) ≡ true
unfolding get_handle erase distinct
distinct-erase key [] d = refl
distinct-erase key ((k, h) ∷ rest) d =
    ground (arith, d, distinct-erase key rest, get_handle-erase_other key k rest)

-- `attach` and `detach` keep one handler for a key at most.
pub distinct-attach :
    (key h : ℕ) (table : List (ℕ × ℕ))
    → distinct table ≡ true
    → (distinct (attach key h table).1 ≡ true) × (distinct (detach key table).1 ≡ true)
unfolding attach detach distinct
distinct-attach key h table d = (ground (arith, d), ground (arith, d, distinct-erase key table d))

-- In a table with one handler for a key at most, `detach` takes the key's handler away, leaves the
-- other keys theirs, and says whether there was one.
pub get_handle-detach :
    (key other : ℕ) (table : List (ℕ × ℕ))
    → distinct table ≡ true
    → ((detach key table).0 ≡ is_some (get_handle table key))
      × (get_handle (detach key table).1 other
          ≡ (if key == other then none else get_handle table other))
unfolding detach
get_handle-detach key other table d = (
  ground arith,
  ground (arith, get_handle-erase key table d, get_handle-erase_other key other table),
)
