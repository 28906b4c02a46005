-- ===== src/Rotative/Traffic.antt =====
-- `rotative_buffer` as a buffer: its stores and fetches keep the laws of the interface.
use utility_engine_old.Base.{ℕ, ◌+◌, ◌≤◌, ◌<◌, min, ◌≡◌, ap, ◌∙◌, Bool, Option, none, some, List}
use utility_engine_old.Base.{◌++◌, arith, ◌==◌, length, take, drop, length-append, take-length}
use utility_engine_old.Base.{peek, length-take_le}
use utility_engine_old.Buffer.Traffic.{Op, run, run_lem}
use utility_engine_old.Buffer.{Buffer}
use utility_engine_old.Rotative.Read.{grant, grant-le, read-filled, read-take, commit_read-drop}
use utility_engine_old.Rotative.Write.{commit_write-append, write-writable_size, contents-write}
use utility_engine_old.Rotative.Write.{commit_write-size, write-size, fill-size}
use utility_engine_old.Rotative.Invariant.{filled, IsValid, fill}
use utility_engine_old.Rotative.Contents.{contents, length-contents}
use utility_engine_old.Rotative.{max_packet_len, Rotative, clip, read, commit_read, writable_size}
use utility_engine_old.Rotative.{write, commit_write}

-- `write`, the copy of what fits and `commit_write`: what was taken in, the flag and the state.
unfoldable pub store_step : List ℕ → Rotative → Option (List ℕ × Bool × Rotative)
store_step bytes r =
    let (p, n, r') = write (length bytes) r in
    elim (commit_write (length (take n bytes)) (fill (take n bytes) r')) [
      | none ↦ none
      | some (b, s) ↦ some (take n bytes, b, s)
    ]

-- `read`, the copy and `commit_read` of all that was granted.
unfoldable pub fetch_step : ℕ → Rotative → Option (List ℕ × Rotative)
fetch_step asked r =
    let (p, n, r') = read asked r in
    elim (commit_read n r') [ none ↦ none | some s ↦ some (peek r'.buffer p n, s) ]

pub store_step_lem :
    (bytes : List ℕ) (r : Rotative)
    → IsValid r
    → (n : ℕ) × (idle : Bool) × (t : Rotative) × (store_step bytes r ≡ some (take n bytes, idle, t))
      × IsValid t
      × (contents t ≡ contents r ++ take n bytes)
      × (0 < length bytes → 0 < writable_size r → 0 < n)
      × (writable_size r ≤ writable_size t + length (take n bytes))
unfolding store_step
store_step_lem bytes r v =
    let n = (write (length bytes) r).1 in
    let granted = write-writable_size (length bytes) v in
    let amount : n ≡ min (clip (length bytes)) (writable_size r) = granted.2 in
    let (s, e, w, c, q) =
      commit_write-append (take n bytes) granted.4 (rw granted.3 (length-take_le n bytes)) in
    let c' = c ∙ ap (λ l. l ++ take n bytes) (contents-write (length bytes) r) in
    let sized =
      commit_write-size (length (take n bytes)) _ _ s e
      ∙ fill-size (take n bytes) (write (length bytes) r).2
      ∙ write-size (length bytes) r in
    let room = write-writable_size 0 w in
    (
      n,
      (write (length bytes) r).2.last_read == 0,
      s,
      rw (e, store_step),
      w,
      c',
      λ some_bytes some_room. ground (arith, amount, some_bytes, some_room),
      omega (
        arith,
        room.0,
        granted.0,
        sized,
        ap length c',
        length-append (contents r) (take n bytes),
        length-contents s,
        length-contents r,
      ),
    )

pub fetch_step_lem :
    (asked : ℕ) (r : Rotative)
    → IsValid r
    → (n : ℕ) × (t : Rotative) × (fetch_step asked r ≡ some (take n (contents r), t))
      × IsValid t
      × (contents t ≡ drop n (contents r))
      × (0 < asked → 0 < length (contents r) → 0 < n)
unfolding fetch_step
fetch_step_lem asked r v =
    let (e, l, b, c, w) = read-take asked v in
    let (s, f, u, d, q) =
      commit_read-drop (read asked r).1 w (omega (arith, e, l))
        (omega (arith, e, read-filled asked r, grant-le asked v)) in
    (
      grant asked r,
      s,
      rw (f, fetch_step) (rw b),
      u,
      d ∙ cc,
      λ some_asked there. ground (arith, there, length-contents r, v.reader_in, v.final_eq),
    )

-- A packet that there is room for is taken as a whole.
pub store_step-all :
    (bytes : List ℕ) (r : Rotative)
    → IsValid r
    → 0 < length bytes
    → length bytes ≤ max_packet_len
    → length bytes ≤ writable_size r
    → (idle : Bool) × (t : Rotative) × (store_step bytes r ≡ some (bytes, idle, t))
      × IsValid t
      × (contents t ≡ contents r ++ bytes)
      × (writable_size r ≤ writable_size t + length bytes)
unfolding store_step_lem
store_step-all bytes r v some_bytes small fits =
    let whole : (write (length bytes) r).1 ≡ length bytes =
      (write-writable_size (length bytes) v).2 ∙ ground (arith, some_bytes, small, fits) in
    let all : take (write (length bytes) r).1 bytes ≡ bytes =
      ap (λ n. take n bytes) whole ∙ take-length (length bytes) bytes (omega arith) in
    let (n, idle, t, e, w, c, progress, room) = store_step_lem bytes r v in
    (
      idle,
      t,
      e ∙ ap (λ l. some (l, idle, t)) all,
      w,
      c ∙ ap (λ l. contents r ++ l) all,
      omega (arith, room, ap length all),
    )

-- As much as is asked for, up to a packet, is given if it is there.
pub fetch_step-all :
    (asked : ℕ) (r : Rotative)
    → IsValid r
    → 0 < asked
    → asked ≤ max_packet_len
    → asked ≤ filled r
    → (t : Rotative) × (fetch_step asked r ≡ some (take asked (contents r), t))
      × IsValid t
      × (contents t ≡ drop asked (contents r))
unfolding fetch_step_lem
fetch_step-all asked r v some_asked small there =
    let whole : grant asked r ≡ asked = ground (arith, some_asked, small, there) in
    let (n, t, e, w, c, progress) = fetch_step_lem asked r v in
    (
      t,
      e ∙ ap (λ n. some (take n (contents r), t)) whole,
      w,
      c ∙ ap (λ n. drop n (contents r)) whole,
    )

abbrev pub rotative : Buffer Rotative
rotative = record {
  contents = contents;
  Valid = IsValid;
  room = writable_size;
  store = store_step;
  fetch = fetch_step;
  store_law = store_step_lem;
  fetch_law = fetch_step_lem;
}

-- Stores and fetches in any order, of any sizes, on a valid buffer never abort, keep it valid, and
-- lose, repeat or reorder no byte: what was given out, followed by what is still readable, is what
-- was readable at first followed by what was taken in.
pub run-fifo :
    (ops : List Op) {r : Rotative}
    → IsValid r
    → (ins outs : List ℕ) × (s : Rotative) × (run rotative ops r ≡ some (ins, outs, s))
      × IsValid s
      × (outs ++ contents s ≡ contents r ++ ins)
run-fifo ops {r} v = run_lem rotative ops r v
