-- ===== src/Stream/Traffic.antt =====
-- `stream_buffer` as a buffer: its stores and fetches keep the laws of the interface.
use utility_engine_old.Base.{length-take_le, Memory, ℕ, ◌+◌, ◌-◌, ◌≤◌, ◌<◌, min, ◌≡◌, ap, ap₂, ◌∙◌}
use utility_engine_old.Base.{Bool, Option, none, some, List, [], ◌++◌, arith, ◌==◌, ulong_mod}
use utility_engine_old.Base.{length, take, drop, length-append}
use utility_engine_old.Stream.{max_packet_len, Stream, read, commit_read, writable_size, write}
use utility_engine_old.Stream.{commit_write}
use utility_engine_old.Buffer.{Buffer}
use utility_engine_old.Buffer.Traffic.{Op, run, run_lem}
use utility_engine_old.Buffer.Transfer.{put_all, take_all, put_all-append, take_all-contents}
use utility_engine_old.Stream.Contents.{contents, IsValid}
use utility_engine_old.Stream.Write.{fill, commit_write-append, write-grant}
use utility_engine_old.Stream.Read.{portion_lem, peek_first, portion, read-take, commit_read-drop}

-- `write`, the copy of what fits and `commit_write`; `fresh` is what a new node would hold.
unfoldable pub store_turn : Memory → List ℕ → Stream → Option (List ℕ × Bool × Stream)
store_turn fresh bytes s =
    let (p, n, s') = write (length bytes) s in
    elim (commit_write fresh (length (take n bytes)) (fill (take n bytes) s')) [
      | none ↦ none
      | some (idle, t) ↦ some (take n bytes, idle, t)
    ]

-- `read`, the copy and `commit_read` of all that was granted.
unfoldable pub fetch_turn : ℕ → Stream → Option (List ℕ × Stream)
fetch_turn asked s =
    let (p, n, s') = read asked s in
    elim (commit_read n s') [ none ↦ none | some t ↦ some (peek_first s'.nodes p n, t) ]

pub store_turn_lem :
    (fresh : Memory) (bytes : List ℕ) (s : Stream)
    → IsValid s
    → (n : ℕ) × (idle : Bool) × (t : Stream) × (store_turn fresh bytes s
        ≡ some (take n bytes, idle, t))
      × IsValid t
      × (contents t ≡ contents s ++ take n bytes)
      × (0 < length bytes → 0 < writable_size → 0 < n)
      × (writable_size ≤ writable_size + length (take n bytes))
unfolding store_turn
store_turn_lem fresh bytes s v =
    let n = (write (length bytes) s).1 in
    let (amount, some_room, claimed, w, same) = write-grant (length bytes) v in
    let (t, e, u, c) =
      commit_write-append fresh (take n bytes) w (rw claimed (length-take_le n bytes)) in
    (
      n,
      (write (length bytes) s).2.last_read == 0,
      t,
      rw (e, store_turn),
      u,
      c ∙ ap (λ l. l ++ take n bytes) same,
      λ some_bytes room. ground (arith, amount, some_room, some_bytes),
      omega arith,
    )

pub fetch_turn_lem :
    (asked : ℕ) (s : Stream)
    → IsValid s
    → (n : ℕ) × (t : Stream) × (fetch_turn asked s ≡ some (take n (contents s), t))
      × IsValid t
      × (contents t ≡ drop n (contents s))
      × (0 < asked → 0 < length (contents s) → 0 < n)
unfolding fetch_turn
fetch_turn_lem asked s v =
    let (e, b, c, w) = read-take asked v in
    let amount : portion asked s ≡ min asked (min s.readable (max_packet_len - s.reader)) =
      portion_lem asked s in
    let enough : (read asked s).1 ≤ length (contents (read asked s).2) =
      omega (arith, e, amount, v.counted, ap length c) in
    let (t, f, u, d) =
      commit_read-drop (read asked s).1 w (omega (arith, e, amount, v.reader_in)) enough in
    (
      portion asked s,
      t,
      rw (f, fetch_turn) (rw b),
      u,
      d ∙ ap₂ drop e c,
      λ some_asked there. omega (arith, amount, v.counted, there, some_asked, v.reader_in),
    )

abbrev pub stream : Memory → Buffer Stream
stream fresh = record {
  contents = contents;
  Valid = IsValid;
  room = λ s. writable_size;
  store = store_turn fresh;
  fetch = fetch_turn;
  store_law = store_turn_lem fresh;
  fetch_law = fetch_turn_lem;
}

-- Stores and fetches in any order, of any sizes, on a valid chain of nodes never abort and keep it
-- valid, over the ends of the nodes too: what was given out, followed by what is still readable, is
-- what was readable at first followed by what was taken in.
pub run-chain :
    (fresh : Memory) (ops : List Op) {s : Stream}
    → IsValid s
    → (ins outs : List ℕ) × (t : Stream) × (run (stream fresh) ops s ≡ some (ins, outs, t))
      × IsValid t
      × (outs ++ contents t ≡ contents s ++ ins)
run-chain fresh ops {s} v = run_lem (stream fresh) ops s v

-- A packet of any size below 2 ^ 64, put into a valid chain turn by turn and then taken out in
-- portions of at most `asked` bytes, comes out behind what was readable before, in order and as a
-- whole, and leaves the chain empty.
pub take_all-put_all :
    (fresh : Memory) (asked : ℕ) (packet : List ℕ) {s : Stream}
    → IsValid s
    → 0 < asked
    → 0 < length packet
    → length packet < ulong_mod
    → (t u : Stream) × (put_all (stream fresh) (length packet) packet s ≡ some t)
      × (take_all (stream fresh) (length (contents s) + length packet + 1) asked t
          ≡ some (contents s ++ packet, u))
      × IsValid u
      × (contents u ≡ [])
take_all-put_all fresh asked packet {s} v some_asked some_bytes small =
    let (t, e, w, c) =
      put_all-append (stream fresh) (length packet) packet s v some_bytes (omega arith)
        (omega (arith, small)) in
    let (u, f, x, d) =
      take_all-contents (stream fresh) (length (contents s) + length packet + 1) asked t w
        some_asked (omega (arith, ap length c, length-append (contents s) packet)) in
    (t, u, e, f ∙ ap (λ l. some (l, u)) c, x, d)
