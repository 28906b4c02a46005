-- ===== src/Rotative/Contents.antt =====
-- The abstract view of `rotative_buffer`: the bytes between the cursors, oldest first.
use utility_engine_old.Base.{ℕ, ◌+◌, ◌-◌, ◌≡◌, List, ltb, if◌then◌else◌, length, tabulate}
use utility_engine_old.Base.{length-tabulate}
use utility_engine_old.Rotative.{Rotative}
use utility_engine_old.Rotative.Invariant.{filled}

-- The address of the k-th readable byte.
abbrev pub at : Rotative → ℕ → ℕ
at r k = if ltb (r.reader + k) r.size then r.reader + k else r.reader + k - r.size

abbrev pub contents : Rotative → List ℕ
contents r = tabulate (filled r) (λ k. r.buffer (at r k))

pub length-contents : (r : Rotative) → length (contents r) ≡ filled r
length-contents r = length-tabulate (filled r) (λ k. r.buffer (at r k))
