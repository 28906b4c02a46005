-- ===== src/Stream.antt =====
-- The chain of nodes `stream_buffer` (UtilityEngine/include/mem_stream_buffer.hpp,
-- UtilityEngine/src/mem_stream_buffer.cpp and UtilityEngine/include/mem_stream_node.hpp).
-- The nodes are the list from `m_head` to `m_tail`, each with its bytes; a pointer into a node is
-- its offset from the node's first byte. A node that the pool hands out holds `fresh`, whatever that
-- is; the pool is taken to have one. An assertion that fails, a null pointer followed and a node
-- used after it was given back are `none`.
pub mod Contents
pub mod Write
pub mod Read
pub mod Traffic
mod Tests
use utility_engine_old.Base.{Memory, ℕ, zero, suc, ◌+◌, ◌-◌, ◌*◌, ◌/◌, ◌%◌, ◌^◌, ◌≤◌, ◌<◌, min, max}
use utility_engine_old.Base.{bit_and, bit_or, bit_xor, ◌≡◌, refl, sym, ap, ap₂, ◌∙◌, ◌≢◌, ◌↔◌, ◌⊎◌}
use utility_engine_old.Base.{inl, inr, Bool, true, false, not, ◌&&◌, ◌||◌, Option, none, some, List}
use utility_engine_old.Base.{[], ◌∷◌, ◌++◌, map, arith, ltb, leb, ◌==◌, if◌then◌else◌, Bool-cases}
use utility_engine_old.Base.{ltb→lt, ltb→ge, lt→ltb, le→ltb, ==→eq, eq→==, check, sub_ulong}
use utility_engine_old.Base.{ulong_mod, length, get_elem?, get_or, set, take, drop, tabulate}
use utility_engine_old.Base.{replicate, length-append, length-set, length-tabulate, length-take}
use utility_engine_old.Base.{length-drop, take-append-drop, take-append, drop-append, drop-drop}
use utility_engine_old.Base.{take-append_le, drop-append_le, take-append_ge, drop-append_ge}
use utility_engine_old.Base.{drop-length, take-length, get_or-set_self, get_or-set_ne}
use utility_engine_old.Rotative.{max_packet_len}

pub record Stream : Type 0 where
  pub nodes : List Memory
  -- in the last node
  pub writer : ℕ
  -- in the first node
  pub reader : ℕ
  pub readable : ℕ
  pub last_read : ℕ
  pub last_malloc : ℕ
  -- `m_next`, counted from the first node; `none` once its node was given back
  pub next_node : Option ℕ
  pub out : ℕ
  -- of the base class
  pub limit : ℕ
  pub pos : ℕ

pub clear : Memory → Stream
clear fresh = record {
  nodes = fresh ∷ [];
  writer = 0;
  reader = 0;
  readable = 0;
  last_read = 0;
  last_malloc = 0;
  next_node = some 0;
  out = 0;
  limit = 0;
  pos = 0;
}

-- `init`: the nodes that the pool is made for, and the cleared chain.
pub init : Memory → ℕ → Option (ℕ × Stream)
init fresh size =
    let nchunk = size / max_packet_len in
    check (leb max_packet_len size)
      (some (if size % max_packet_len == 0 then nchunk else nchunk + 1, clear fresh))

pub readable_size : ℕ → Stream → ℕ × Stream
readable_size exp s =
    let n = if ltb s.readable exp then 0 else s.readable in (n, record s { last_read = n })

-- The offset in the first node, the size granted and the new state.
pub read : ℕ → Stream → ℕ × ℕ × Stream
read size s =
    let len = max_packet_len - s.reader in
    let ready = if ltb s.readable len then s.readable else len in
    let n = if ltb ready size then ready else size in (s.reader, n, record s { last_read = n })

-- A turn of the loop of `commit_read` gives one node back.
abbrev pub one_more : Option (List Memory × ℕ × ℕ) → Option (List Memory × ℕ × ℕ)
one_more none = none
one_more (some (kept, r, freed)) = some (kept, r, freed + 1)

-- The loop of `commit_read`: the nodes left, the reader, and how many nodes were given back.
pub give_back : ℕ → List Memory → ℕ → ℕ → Option (List Memory × ℕ × ℕ)
give_back writer [] reader size = none
give_back writer (n ∷ rest) reader size =
    let len : ℕ = elim rest [
      | [] ↦ sub_ulong writer reader
      | m ∷ more ↦ sub_ulong max_packet_len reader
    ] in
    let on = give_back writer rest 0 (sub_ulong size len) in
    if ltb (reader + size) max_packet_len then some (n ∷ rest, reader + size, 0) else one_more on

-- The node of the cursor, after so many nodes in front were given back.
abbrev pub moved_back : ℕ → Option ℕ → Option ℕ
moved_back freed none = none
moved_back freed (some i) = if ltb i freed then none else some (i - freed)

pub commit_read : ℕ → Stream → Option Stream
commit_read size s = check (leb size s.readable) (elim (give_back s.writer s.nodes s.reader size) [
  | none ↦ none
  | some (nodes, reader, freed) ↦ some (record s {
    nodes = nodes;
    reader = reader;
    readable = s.readable - size;
    next_node = moved_back freed s.next_node;
  })
])

-- `ULONG_MAX`
abbrev pub writable_size : ℕ
writable_size = ulong_mod - 1

pub write : ℕ → Stream → ℕ × ℕ × Stream
write size s =
    let left = max_packet_len - s.writer in
    let n = if ltb left size then left else size in (s.writer, n, record s { last_malloc = n })

pub commit_write : Memory → ℕ → Stream → Option (Bool × Stream)
commit_write fresh size s =
    let at_end = record s {
      writer = s.writer + size;
      readable = s.readable + size;
      last_malloc = 0;
    } in
    check (leb size s.last_malloc) (
      some (
        s.last_read == 0,
        if leb max_packet_len (s.writer + size)
            then record at_end { nodes = s.nodes ++ fresh ∷ []; writer = 0 }
            else at_end,
      ))

pub reset : Stream → Stream
reset s = record s { pos = 0; next_node = some 0; out = s.reader }

-- `next`: the node and the offset in it (`none` for null), the size, and the new state.
pub next : ℕ → Stream → Option (Option (ℕ × ℕ) × ℕ × Stream)
next size s =
    let state = if ltb 0 s.limit then s else (readable_size 0 s).1 in
    let limit = if ltb 0 s.limit then s.limit else (readable_size 0 s).0 in
    let left = limit - s.pos in
    let in_node = max_packet_len - s.out in
    let most = if ltb left in_node then left else in_node in
    let n = if size == 0 || ltb most size then most else size in
    if leb limit s.pos
    then some (none, 0, state)
    else (if ltb left size then some (none, left, state) else elim s.next_node [
      | none ↦ none
      | some i ↦
          if s.out + n == max_packet_len
          then (if ltb (i + 1) (length s.nodes)
              then some (
                some (i, s.out),
                n,
                record state { pos = s.pos + n; next_node = some (i + 1); out = 0 },
              )
              else none)
          else some (some (i, s.out), n, record state { pos = s.pos + n; out = s.out + n })
    ])
