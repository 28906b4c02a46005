-- ===== src/Buffer.antt =====
-- What the users of `buffer_iface` (UtilityEngine/include/mem_buffer.hpp) rely on: `write`, the copy
-- and `commit_write` as one operation, `read`, the copy and `commit_read` as another, and their laws.
-- The circular buffer and the chain of nodes each give one; a user is proved once, for both.
pub mod Traffic
pub mod Transfer
use utility_engine_old.Base.{ℕ, zero, suc, ◌+◌, ◌-◌, ◌*◌, ◌/◌, ◌%◌, ◌^◌, ◌≤◌, ◌<◌, min, max}
use utility_engine_old.Base.{bit_and, bit_or, bit_xor, ◌≡◌, refl, sym, ap, ap₂, ◌∙◌, ◌≢◌, ◌↔◌, ◌⊎◌}
use utility_engine_old.Base.{inl, inr, Bool, true, false, not, ◌&&◌, ◌||◌, Option, none, some, List}
use utility_engine_old.Base.{[], ◌∷◌, ◌++◌, map, arith, ltb, leb, ◌==◌, if◌then◌else◌, Bool-cases}
use utility_engine_old.Base.{ltb→lt, ltb→ge, lt→ltb, le→ltb, ==→eq, eq→==, check, sub_ulong}
use utility_engine_old.Base.{ulong_mod, length, get_elem?, get_or, set, take, drop, tabulate}
use utility_engine_old.Base.{replicate, length-append, length-set, length-tabulate, length-take}
use utility_engine_old.Base.{length-drop, take-append-drop, take-append, drop-append, drop-drop}
use utility_engine_old.Base.{take-append_le, drop-append_le, take-append_ge, drop-append_ge}
use utility_engine_old.Base.{drop-length, take-length, get_or-set_self, get_or-set_ne}

pub record Buffer (B : Type 0) : Type 1 where
  -- The readable bytes, and when the members of the class agree with one another.
  pub contents : B → List ℕ
  pub Valid : B → Type 0
  -- `writable_size`
  pub room : B → ℕ
  -- What was taken in, the flag of `commit_write`, and the new state.
  pub store : List ℕ → B → Option (List ℕ × Bool × B)
  -- What was given out, and the new state.
  pub fetch : ℕ → B → Option (List ℕ × B)
  pub store_law :
      (bytes : List ℕ) (b : B)
      → Valid b
      → (n : ℕ) × (idle : Bool) × (t : B) × (store bytes b ≡ some (take n bytes, idle, t))
        × Valid t
        × (contents t ≡ contents b ++ take n bytes)
        × (0 < length bytes → 0 < room b → 0 < n)
        × (room b ≤ room t + length (take n bytes))
  pub fetch_law :
      (asked : ℕ) (b : B)
      → Valid b
      → (n : ℕ) × (t : B) × (fetch asked b ≡ some (take n (contents b), t))
        × Valid t
        × (contents t ≡ drop n (contents b))
        × (0 < asked → 0 < length (contents b) → 0 < n)
