-- ===== src/Md5.antt =====
-- The MD5 digest `md5` (UtilityEngine/include/com_md5.hpp and UtilityEngine/src/com_md5.cpp), over
-- an `unsigned long` of w bits: 32 on Windows, 64 on Linux. `size_t` has 64 bits on both.
pub mod Transform
pub mod Bytes
pub mod Stream
pub mod Counts
pub mod Final
mod Tests
use utility_engine_old.Base.{ℕ, zero, suc, ◌+◌, ◌-◌, ◌*◌, ◌/◌, ◌%◌, ◌^◌, Bool, true, false, List}
use utility_engine_old.Base.{[], ◌∷◌, ◌++◌, ltb, leb, if◌then◌else◌, bit_and, length, take, drop}
use utility_engine_old.Base.{replicate}
use utility_engine_old.Hex.{bin_to_hex}
use Transform.{Words, transform, encode}

pub record Md5 : Type 0 where
  pub state : Words
  -- `_count[0]` and `_count[1]`
  pub count_low : ℕ
  pub count_high : ℕ
  pub buffer : List ℕ
  pub digest : List ℕ
  pub result : List ℕ
  pub finished : Bool

abbrev pub magic : Words
magic = record { a = 0x67452301; b = 0xefcdab89; c = 0x98badcfe; d = 0x10325476 }

-- `reset`: it leaves the buffer and the results alone.
unfoldable pub reset : Md5 → Md5
reset m = record m { finished = false; count_low = 0; count_high = 0; state = magic }

-- `PADDING`
abbrev pub padding : List ℕ
padding = 0x80 ∷ replicate 63 0

-- `memcpy(&_buffer[at], bytes, n)`, n the length of `bytes`
abbrev pub store_at : ℕ → List ℕ → List ℕ → List ℕ
store_at at bytes buffer = take at buffer ++ (bytes ++ drop (at + length bytes) buffer)

-- `encode` of the state's words, 16 bytes
abbrev pub encode_words : Words → List ℕ
encode_words v = encode (v.a ∷ v.b ∷ v.c ∷ v.d ∷ [])

module _ (w : ℕ) where
  -- The loop of `update`: whole blocks from the input's rest on, as long as 63 more bytes follow
  -- the next. What is left is the rest behind the last block.
  pub run_blocks : ℕ → Words → List ℕ → Words × List ℕ
  run_blocks zero v rest = (v, rest)
  run_blocks (suc fuel) v rest =
      let more = run_blocks fuel (transform w v (take 64 rest)) (drop 64 rest) in
      if ltb 63 (length rest) then more else (v, rest)

  -- How many bytes of the buffer are pending.
  abbrev pub index : Md5 → ℕ
  index m = bit_and (m.count_low / 2 ^ 3) 0x3f

  -- `update`. The new low count wraps when it falls below what was added.
  pub update : List ℕ → Md5 → Md5
  update input m =
      let added = length input % 2 ^ w * 2 ^ 3 % 2 ^ w in
      let low = (m.count_low + added) % 2 ^ w in
      let carried = if ltb low added then (m.count_high + 1) % 2 ^ w else m.count_high in
      let high = (carried + length input % 2 ^ w / 2 ^ 29) % 2 ^ w in
      let part = 64 - index m in
      let filled = store_at (index m) (take part input) m.buffer in
      let (v, rest) = run_blocks (length input) (transform w m.state filled) (drop part input) in
      if leb part (length input)
      then record m {
        finished = false;
        count_low = low;
        count_high = high;
        state = v;
        buffer = store_at 0 rest filled;
      }
      else record m {
        finished = false;
        count_low = low;
        count_high = high;
        buffer = store_at (index m) input m.buffer;
      }

  -- What `memcpy(words, old, n)` of n bytes restores of the i-th word: an `unsigned long` has w / 8.
  abbrev pub restored : ℕ → ℕ → ℕ → ℕ → ℕ
  restored n i old new = if ltb (i * w) (n * 8) then old else new

  -- `final`
  pub final : Md5 → Md5
  final m =
      let bits = encode (m.count_low ∷ m.count_high ∷ []) in
      let pad = if ltb (index m) 56 then 56 - index m else 120 - index m in
      let padded = update bits (update (take pad padding) m) in
      record padded {
        digest = encode_words padded.state;
        state = record {
          a = restored 16 0 m.state.a padded.state.a;
          b = restored 16 1 m.state.b padded.state.b;
          c = restored 16 2 m.state.c padded.state.c;
          d = restored 16 3 m.state.d padded.state.d;
        };
        count_low = restored 8 0 m.count_low padded.count_low;
        count_high = restored 8 1 m.count_high padded.count_high;
      }

  -- `digest`, which `final` leaves unfinished: its updates reset the flag.
  pub run_digest : Md5 → Md5
  run_digest m = final (record m { finished = true })

  -- `c_str`: the text and the new state.
  pub c_str : Md5 → List ℕ × Md5
  c_str m =
      let done = run_digest m in
      let text = bin_to_hex false done.digest in
      if m.finished then (m.result, m) else (text, record done { result = text })

  -- The constructor from bytes, over whatever the arrays hold.
  pub md5_of : Md5 → List ℕ → Md5
  md5_of fresh input = update input (reset fresh)
