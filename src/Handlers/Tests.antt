-- ===== src/Handlers/Tests.antt =====
-- The table of handlers at two keys.
use utility_engine_old.Base.{ℕ}
use utility_engine_old.Base.{◌≡◌, refl}
use utility_engine_old.Base.{true, not, ◌&&◌, none, some, List}
use utility_engine_old.Base.{[], ◌∷◌, ◌==◌, if◌then◌else◌}
use utility_engine_old.Handlers.Unordered.{Unordered}
use utility_engine_old.Handlers.Unordered.{lookup, insert, remove}
use utility_engine_old.Handlers.Unordered.{lookup-insert-remove}
use utility_engine_old.Handlers.Lookup.{distinct}
use utility_engine_old.Handlers.{get_handle, is_some, erase, detach}
use mathlib.Core.Quot

abbrev two : List (ℕ × ℕ)
two = (4, 40) ∷ (5, 50) ∷ []

get_handle-two : get_handle two 5 ≡ some 50
unfolding get_handle
get_handle-two = refl

detach-two : detach 4 two ≡ (true, (5, 50) ∷ [])
unfolding detach erase get_handle
detach-two = refl

distinct-two : distinct two ≡ true
unfolding distinct get_handle
distinct-two = refl

abbrev two_unordered : Unordered
two_unordered = Quot.mk (two, distinct-two)

lookup-insert-remove_example :
    (lookup 6 (insert 6 60 two_unordered) ≡ (
      if (6 == 6) && not (is_some (lookup 6 two_unordered))
      then some 60
      else lookup 6 two_unordered))
    × (lookup 6 (remove 6 two_unordered) ≡ (if 6 == 6 then none else lookup 6 two_unordered))
    × (insert 6 61 (insert 6 60 two_unordered) ≡ insert 6 60 two_unordered)
    × (remove 6 (insert 6 60 two_unordered) ≡ remove 6 two_unordered)
lookup-insert-remove_example = lookup-insert-remove 6 6 61 60 two_unordered
