-- ===== src/Rotative.antt =====
-- The circular byte buffer `rotative_buffer` (UtilityEngine/include/mem_rotative_buffer.hpp and
-- UtilityEngine/src/mem_rotative_buffer.cpp) with the cursor of its base class `message`
-- (UtilityEngine/include/mem_message.hpp).
-- A pointer into `m_buffer` is its offset from `m_buffer`, and `m_buffer` is the memory behind it.
-- An operation that may abort by an assertion returns an option. The mutex makes each operation one
-- step, so an operation is a function from state to state.
pub mod Invariant
pub mod Contents
pub mod Write
pub mod Read
pub mod Traffic
pub mod Cursor
pub mod Message
pub mod Front
mod Tests
use utility_engine_old.Base.{ℕ, ◌+◌, ◌-◌, Bool, true, false, Option, none, some, ◌&&◌, ◌||◌, ltb}
use utility_engine_old.Base.{leb, ◌==◌, if◌then◌else◌, check, sub_ulong, Memory, memcpy}

abbrev pub max_packet_len : ℕ
max_packet_len = 4096

pub record Rotative : Type 0 where
  -- `m_buffer != nullptr`
  pub allocated : Bool
  pub buffer : Memory
  pub reader : ℕ
  pub writer : ℕ
  pub final : ℕ
  pub last_copy : ℕ
  pub last_read : ℕ
  pub size : ℕ
  pub last_malloc : ℕ
  -- of the base class
  pub limit : ℕ
  pub pos : ℕ

-- The constructor. `fresh` is what the null buffer would hold.
unfoldable pub created : Memory → Rotative
created fresh = record {
  allocated = false;
  buffer = fresh;
  reader = 0;
  writer = 0;
  final = 0;
  last_copy = 0;
  last_read = 0;
  size = 0;
  last_malloc = 0;
  limit = 0;
  pos = 0;
}

-- `clear`: it leaves the bytes and the cursor of the base class alone.
pub clear : Rotative → Rotative
clear r = record r {
  last_copy = 0;
  last_read = 0;
  writer = 0;
  reader = 0;
  final = r.size;
  last_malloc = 0;
}

-- The new array starts as `fresh`, whatever it holds, with a 0 behind its last byte.
pub init : Memory → ℕ → Rotative → Option Rotative
unfolding clear
init fresh n r =
    let made = clear (record r {
      allocated = true;
      buffer = λ i. if i == n + max_packet_len then 0 else fresh i;
      size = n;
    }) in
    check (leb max_packet_len n) (if r.allocated && (n == r.size) then some r else some made)

-- m_writer - m_reader, round the end
abbrev pub used : Rotative → ℕ
used r =
    if leb r.reader r.writer then r.writer - r.reader else sub_ulong r.size (r.reader - r.writer)

pub readable_size : ℕ → Rotative → ℕ × Rotative
readable_size exp r =
    let n = if ltb (used r) exp then 0 else used r in (n, record r { last_read = n })

-- The size asked for, clipped as `read` and `write` do.
abbrev pub clip : ℕ → ℕ
clip n = if ltb max_packet_len n || (n == 0) then max_packet_len else n

-- The pointer, the size granted and the new state.
pub read : ℕ → Rotative → ℕ × ℕ × Rotative
read asked r =
    let n = clip asked in
    let ready = r.writer - r.reader in
    let left = r.final - r.reader in
    let near = left + r.last_copy in
    let more = n - near in
    if leb r.reader r.writer
    then (if ltb n ready
        then (r.reader, n, record r { last_read = n })
        else (r.reader, ready, record r { last_read = ready }))
    else (if leb n near
        then (r.reader, n, record r { last_read = n })
        else (if ltb (r.writer + left) n then (r.reader, near, record r { last_read = near }) else (
          r.reader,
          n,
          record r {
            buffer = memcpy r.buffer (r.final + r.last_copy) r.last_copy more;
            last_copy = r.last_copy + more;
            last_read = n;
          },
        )))

pub commit_read : ℕ → Rotative → Option Rotative
commit_read n r =
    let p = r.reader + n in
    check (leb n r.last_read) (
      if leb r.final p
      then some (record r { reader = p - r.final; last_copy = 0 })
      else some (record r { reader = p }))

unfoldable pub writable_size : Rotative → ℕ
writable_size r =
    if ltb r.writer r.reader
    then sub_ulong (r.reader - r.writer) 1
    else sub_ulong (sub_ulong r.size (r.writer - r.reader)) 1

-- The pointer, the size granted and the new state.
pub write : ℕ → Rotative → ℕ × ℕ × Rotative
write asked r =
    let n = clip asked in
    let left =
      if leb r.reader r.writer
      then sub_ulong r.size (r.writer - r.reader)
      else r.reader - r.writer in
    let room = sub_ulong left 1 in
    let granted = if ltb n room then n else room in
    (r.writer, granted, record r { last_malloc = granted })

-- The flag is true when no reader has been told of readable bytes.
pub commit_write : ℕ → Rotative → Option (Bool × Rotative)
commit_write n r =
    let p = r.writer + n in
    let over = p - r.final in
    let idle = r.last_read == 0 in
    check (leb n r.last_malloc) (
      if leb r.final p
      then some (
        idle,
        record r {
          last_malloc = 0;
          last_copy = over;
          writer = over;
          buffer = memcpy r.buffer 0 r.final over;
        },
      )
      else some (idle, record r { last_malloc = 0; writer = p }))

-- `message::reset`
pub reset : Rotative → Rotative
reset r = record r { pos = 0 }

-- `message::set_read_limit`
pub set_read_limit : ℕ → Rotative → Rotative
set_read_limit n r = record r { limit = n }

-- The pointer (`none` for null), the size and the new state.
pub next : ℕ → Rotative → Option ℕ × ℕ × Rotative
next asked r =
    let state = if ltb 0 r.limit then r else (readable_size 0 r).1 in
    let limit = if ltb 0 r.limit then r.limit else (readable_size 0 r).0 in
    let left = limit - state.pos in
    let n = if asked == 0 then left else asked in
    let (p, granted, after) = read limit state in
    if leb limit state.pos
    then (none, 0, state)
    else (if ltb left asked
        then (none, left, state)
        else (some (p + state.pos), n, record after { pos = state.pos + n }))
