-- ===== src/Base/Flat.antt =====
-- Memory as a function from the address to the byte, and the copies that the code makes.
use Prim.Native.Nat.{ℕ, ◌+◌, ◌-◌}
use mathlib.Core.Bool.{◌&&◌}
use mathlib.Core.List.{List}
use utility_engine_old.Base.Tests.{ltb, leb, if◌then◌else◌}
use utility_engine_old.Base.Lists.{length, get_or, tabulate}

abbrev pub Memory : Type 0
Memory = ℕ → ℕ

-- `memcpy(dst, src, n)` inside one memory; the regions do not overlap.
abbrev pub memcpy : Memory → ℕ → ℕ → ℕ → Memory
memcpy m dst src n i = if leb dst i && ltb (i - dst) n then m (src + (i - dst)) else m i

-- The bytes of a list written from an address on.
abbrev pub poke : Memory → ℕ → List ℕ → Memory
poke m dst bytes i =
    if leb dst i && ltb (i - dst) (length bytes) then get_or bytes (i - dst) 0 else m i

-- n bytes from an address on.
abbrev pub peek : Memory → ℕ → ℕ → List ℕ
peek m src n = tabulate n (λ k. m (src + k))
