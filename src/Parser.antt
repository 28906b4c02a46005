-- ===== src/Parser.antt =====
-- The framing of messages in the bytes received: `_message_impl` and the three `message_wrap`
-- classes (UtilityEngine/include/msg_message.hpp). The buffer under them is seen through what its
-- calls return: the number of readable bytes, and the pieces that successive calls of `next` give
-- until the null pointer.
pub mod Zero
pub mod Length
pub mod Delimiter
mod Tests
use utility_engine_old.Base.{ℕ, zero, suc, ◌+◌, ◌-◌, ◌*◌, ◌/◌, ◌%◌, ◌^◌, ◌≤◌, ◌<◌, min, max}
use utility_engine_old.Base.{bit_and, bit_or, bit_xor, ◌≡◌, refl, sym, ap, ap₂, ◌∙◌, ◌≢◌, ◌↔◌, ◌⊎◌}
use utility_engine_old.Base.{inl, inr, Bool, true, false, not, ◌&&◌, ◌||◌, Option, none, some, List}
use utility_engine_old.Base.{[], ◌∷◌, ◌++◌, map, arith, ltb, leb, ◌==◌, if◌then◌else◌, Bool-cases}
use utility_engine_old.Base.{ltb→lt, ltb→ge, lt→ltb, le→ltb, ==→eq, eq→==, check, sub_ulong}
use utility_engine_old.Base.{ulong_mod, length, get_elem?, get_or, set, take, drop, tabulate}
use utility_engine_old.Base.{replicate, length-append, length-set, length-tabulate, length-take}
use utility_engine_old.Base.{length-drop, take-append-drop, take-append, drop-append, drop-drop}
use utility_engine_old.Base.{take-append_le, drop-append_le, take-append_ge, drop-append_ge}
use utility_engine_old.Base.{drop-length, take-length, get_or-set_self, get_or-set_ne}

-- What `comfirm` says: a whole message of n bytes; not yet; or an error, which it tells from "not
-- yet" by a size that is not 0.
pub data Verdict : Type 0 where
  accept : ℕ → Verdict
  wait : Verdict
  reject : ℕ → Verdict

-- `strlen` as far as it matters: the index of the first 0 in a piece, or its length if it has none.
abbrev pub strlen : List ℕ → ℕ
strlen [] = 0
strlen (c ∷ rest) = let n = strlen rest in if c == 0 then 0 else suc n

-- A little-endian 32-bit number.
abbrev pub uint32 : List ℕ → ℕ
uint32 bytes =
    get_or bytes 0 0
    + get_or bytes 1 0 * 2 ^ 8
    + get_or bytes 2 0 * 2 ^ 16
    + get_or bytes 3 0 * 2 ^ 24

-- The loop that copies the header into `m_size`. The address `&m_size + pos` is pos numbers of
-- four bytes behind `m_size`, so a second piece is written outside of it: `none`.
abbrev pub header : List (List ℕ) → Option ℕ
header [] = none
header (p ∷ rest) = if leb 4 (length p) then some (uint32 p) else none

-- Whether the n bytes of the message are there.
abbrev pub whole : ℕ → ℕ → Verdict
whole readable n = if ltb readable n || (readable == 0) then wait else accept n

module _ (max_msg_len : ℕ) where
  -- `pares_zero::message_wrap::comfirm` on the pieces that are readable, from `m_size`, and the new
  -- `m_size`.
  pub zero_comfirm : List (List ℕ) → ℕ → Verdict × ℕ
  zero_comfirm [] m_size = (wait, m_size)
  zero_comfirm (p ∷ rest) m_size =
      let found = m_size + strlen p + 1 in
      let size = m_size + length p in
      let on = zero_comfirm rest (size % 2 ^ 32) in
      if ltb (strlen p) (length p)
      then (if ltb max_msg_len found
          then (reject found, found % 2 ^ 32)
          else (accept found, found % 2 ^ 32))
      else (if ltb max_msg_len size then (reject size, size % 2 ^ 32) else on)

  -- `pares_len::message_wrap::comfirm` with the number of readable bytes and the pieces `next`
  -- gives of the first four.
  pub len_comfirm : ℕ → List (List ℕ) → ℕ → Option (Verdict × ℕ)
  len_comfirm readable pieces m_size =
      if m_size == 0
      then (if ltb readable 4 then some (wait, 0) else elim (header pieces) [
        | none ↦ none
        | some n ↦
            if ltb n 4 || ltb max_msg_len n
            then some (reject (ulong_mod - 1), n)
            else some (whole readable n, n)
      ])
      else some (whole readable m_size, m_size)

  module _ (delimiter : List ℕ) where
    -- The loop of `forward` on fuel: from (head, i, hit), the final head and hit.
    pub shift : ℕ → ℕ → ℕ → ℕ → ℕ → ℕ × ℕ
    shift zero last_hit head i hit = (head, hit)
    shift (suc fuel) last_hit head i hit =
        let longer = shift fuel last_hit head (i + 1) (hit + 1) in
        let moved = shift fuel last_hit (head + 1) (head + 1) 0 in
        if ltb i last_hit
        then (if get_or delimiter hit 0 == get_or delimiter i 0 then longer else moved)
        else (head, hit)

    -- `forward`: what it adds to `m_size`, and the new `m_hit`.
    pub forward : ℕ → ℕ × ℕ
    forward m_hit = shift (length delimiter * length delimiter + 1) m_hit 1 1 0

    -- How the scan of one piece ends: with a verdict, or at the end of the piece with `m_hit` and
    -- `m_size`; `none` is out of fuel. After a miss the index is set to 0, and the loop's `++i` makes
    -- it 1.
    pub scan : ℕ → List ℕ → ℕ → ℕ → ℕ → Option (Verdict × ℕ × ℕ)
    scan zero p i m_hit m_size = none
    scan (suc fuel) p i m_hit m_size =
        let (head, left) = forward m_hit in
        let grown = (m_size + head) % 2 ^ 32 in
        let hit = scan fuel p (i + 1) (m_hit + 1) m_size in
        let after_miss = scan fuel p 1 left grown in
        let found = m_size + (m_hit + 1) in
        if leb (length p) i
        then some (wait, m_hit, m_size)
        else (if get_or p i 0 == get_or delimiter m_hit 0
            then (if m_hit + 1 == length delimiter
                then (if ltb max_msg_len found
                    then some (reject found, m_hit + 1, m_size)
                    else some (accept found, m_hit + 1, found % 2 ^ 32))
                else hit)
            else (if ltb max_msg_len (grown + left)
                then some (reject (grown + left), left, grown)
                else after_miss))

    -- `pares_delimiter::message_wrap::comfirm` on the pieces that are readable, on fuel for each:
    -- the verdict, `m_hit` and `m_size`.
    pub delimiter_comfirm : ℕ → List (List ℕ) → ℕ → ℕ → Option (Verdict × ℕ × ℕ)
    delimiter_comfirm fuel [] m_hit m_size = some (wait, m_hit, m_size)
    delimiter_comfirm fuel (p ∷ rest) m_hit m_size = elim (scan fuel p 0 m_hit m_size) [
      | none ↦ none
      | some (accept n, h, s) ↦ some (accept n, h, s)
      | some (reject n, h, s) ↦ some (reject n, h, s)
      | some (wait, h, s) ↦
          let size = s + length p in
          let left = (size + ulong_mod - h) % 2 ^ 32 in
          let on = delimiter_comfirm fuel rest h left in
          if ltb max_msg_len size then some (reject size, h, left) else on
    ]
