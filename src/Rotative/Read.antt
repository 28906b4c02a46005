-- ===== src/Rotative/Read.antt =====
-- Taking bytes: `readable_size`, `read`, `commit_read`.
use utility_engine_old.Base.{ltb, some, ◌∙◌, length, take, drop, peek, ap, tabulate, tabulate_cong}
use utility_engine_old.Base.{take-tabulate, drop-tabulate_of_eq, ℕ, ◌+◌, ◌-◌, ◌≤◌, ◌<◌, ◌≡◌, refl}
use utility_engine_old.Base.{sym, arith, leb, if◌then◌else◌}
use utility_engine_old.Rotative.{Rotative, commit_read, readable_size, clip, read}
use utility_engine_old.Rotative.Invariant.{IsValid, readable_size-IsValid, filled}
use utility_engine_old.Rotative.Contents.{contents, length-contents, at}

-- The bytes that can be read in one piece: up to the writer, or with those copied behind `final`.
abbrev near : Rotative → ℕ
near r = if leb r.reader r.writer then r.writer - r.reader else r.final - r.reader + r.last_copy

-- How much `read` grants: what is asked for if it is there, and else what lies in one piece.
abbrev pub grant : ℕ → Rotative → ℕ
grant n r = if leb (clip n) (filled r) then clip n else near r

near-le : {r : Rotative} → IsValid r → near r ≤ filled r
near-le v = ground arith

pub read-IsValid : (n : ℕ) {r : Rotative} → IsValid r → IsValid (read n r).2
unfolding read
read-IsValid n {r} v = record {
  made = ground arith;
  big = ground arith;
  small = ground arith;
  final_eq = ground arith;
  reader_in = ground arith;
  writer_in = ground arith;
  copy_in = ground arith;
  copy_none = ground arith;
  copy_le = ground arith;
  mirror = λ i lt. ground (arith, v.mirror i);
  claim_in = ground arith;
  claim_room = ground arith;
}

pub read-grant : (n : ℕ) {r : Rotative} → IsValid r → (read n r).1 ≡ grant n r
unfolding read
read-grant n v = ground arith

read-last_read : (n : ℕ) (r : Rotative) → (read n r).2.last_read ≡ (read n r).1
unfolding read
read-last_read n r = ground arith

pub grant-le : (n : ℕ) {r : Rotative} → IsValid r → grant n r ≤ filled r
grant-le n v = ground arith

pub read-reader : (n : ℕ) (r : Rotative) → (read n r).0 ≡ r.reader
unfolding read
read-reader n r = ground arith

-- The bytes at the pointer are the first readable ones.
pub read-byte :
    (n : ℕ) {r : Rotative} (k : ℕ)
    → IsValid r
    → k < (read n r).1
    → (read n r).2.buffer (r.reader + k) ≡ r.buffer (at r k)
unfolding read
read-byte n {r} k v lt = ground (arith, v.mirror (r.reader + k - r.size))

-- Reading moves no cursor and changes no readable byte.
read-kept :
    (n : ℕ) {r : Rotative} (k : ℕ)
    → IsValid r
    → k < filled r
    → (read n r).2.buffer (at r k) ≡ r.buffer (at r k)
unfolding read
read-kept n {r} k v lt = ground arith

pub read-filled : (n : ℕ) (r : Rotative) → filled (read n r).2 ≡ filled r
unfolding read
read-filled n r = ground arith

read-at : (n k : ℕ) (r : Rotative) → at (read n r).2 k ≡ at r k
unfolding read
read-at n k r = ground arith

pub contents-read : (n : ℕ) {r : Rotative} → IsValid r → contents (read n r).2 ≡ contents r
contents-read n {r} v =
    ap (λ l. tabulate l byte) (read-filled n r)
    ∙ tabulate_cong (filled r) byte (λ k. r.buffer (at r k))
        (λ k lt. ap (read n r).2.buffer (read-at n k r) ∙ read-kept n k v lt)
  where
    byte : ℕ → ℕ
    byte k = (read n r).2.buffer (at (read n r).2 k)

-- `read` grants exactly what is asked for (clipped to a packet) when that much is readable, and
-- otherwise the part that lies in one piece; the bytes at its pointer are the oldest readable
-- ones. It notes the size granted, changes no readable byte and keeps the invariant.
pub read-take :
    (n : ℕ) {r : Rotative}
    → IsValid r
    → ((read n r).1 ≡ grant n r)
      × ((read n r).2.last_read ≡ grant n r)
      × (peek (read n r).2.buffer (read n r).0 (read n r).1 ≡ take (grant n r) (contents r))
      × (contents (read n r).2 ≡ contents r)
      × IsValid (read n r).2
read-take n {r} v = (
  read-grant n v,
  read-last_read n r ∙ read-grant n v,
  tabulate_cong (read n r).1 (λ k. (read n r).2.buffer ((read n r).0 + k)) (λ k. r.buffer (at r k))
        (λ k lt. ap (λ p. (read n r).2.buffer (p + k)) (read-reader n r) ∙ read-byte n k v lt)
      ∙ ap (λ m. tabulate m (λ k. r.buffer (at r k))) (read-grant n v)
      ∙ sym (take-tabulate (grant n r) (filled r) (λ k. r.buffer (at r k)) (grant-le n v)),
  contents-read n v,
  read-IsValid n v,
)

-- While anything is readable, `read` grants at least one byte.
pub read-progress : (n : ℕ) {r : Rotative} → IsValid r → 0 < filled r → 0 < (read n r).1
unfolding read
read-progress n v h = ground arith

-- The state after `commit_read n`.
abbrev freed : ℕ → Rotative → Rotative
freed n r =
    if leb r.final (r.reader + n)
    then record r { reader = r.reader + n - r.final; last_copy = 0 }
    else record r { reader = r.reader + n }

freed-IsValid : (n : ℕ) {r : Rotative} → IsValid r → n ≤ filled r → IsValid (freed n r)
freed-IsValid n {r} v h = record {
  made = ground arith;
  big = ground arith;
  small = ground arith;
  final_eq = ground arith;
  reader_in = ground arith;
  writer_in = ground arith;
  copy_in = ground arith;
  copy_none = ground arith;
  copy_le = ground arith;
  mirror = λ i lt. ground (arith, v.mirror i);
  claim_in = ground arith;
  claim_room = ground arith;
}

freed-filled : (n : ℕ) {r : Rotative} → IsValid r → n ≤ filled r → filled r ≡ n + filled (freed n r)
freed-filled n v h = ground arith

freed-byte :
    (n k : ℕ) {r : Rotative}
    → IsValid r
    → n ≤ filled r
    → k < filled (freed n r)
    → r.buffer (at r (n + k)) ≡ (freed n r).buffer (at (freed n r) k)
freed-byte n k {r} v h lt = ground arith

-- `commit_read` of at most the size last read, and of no more than is readable, does not abort: it
-- drops exactly that many of the oldest bytes and keeps the invariant.
pub commit_read-drop :
    (n : ℕ) {r : Rotative}
    → IsValid r
    → n ≤ r.last_read
    → n ≤ filled r
    → (r' : Rotative) × (commit_read n r ≡ some r')
      × IsValid r'
      × (contents r' ≡ drop n (contents r))
      × (r'.last_read ≡ r.last_read)
unfolding commit_read
commit_read-drop n {r} v h k = (
  freed n r,
  ground arith,
  freed-IsValid n v k,
  sym (
      drop-tabulate_of_eq n (filled r) (filled (freed n r)) (λ j. r.buffer (at r j))
        (freed-filled n v k)
      ∙ tabulate_cong (filled (freed n r)) (λ j. r.buffer (at r (n + j)))
          (λ j. (freed n r).buffer (at (freed n r) j)) (λ j lt. freed-byte n j v k lt)),
  ground arith,
)

-- `readable_size` answers the number of readable bytes, or 0 when there are fewer than expected,
-- remembers its answer as the size last read, and changes no byte.
pub readable_size_lem :
    (exp : ℕ) {r : Rotative}
    → IsValid r
    → ((readable_size exp r).0 ≡ (if ltb (length (contents r)) exp then 0 else length (contents r)))
      × ((readable_size exp r).1.last_read ≡ (readable_size exp r).0)
      × (contents (readable_size exp r).1 ≡ contents r)
      × IsValid (readable_size exp r).1
unfolding readable_size
readable_size_lem exp {r} v = (
  ground (arith, length-contents r),
  refl,
  refl,
  unfold readable_size in readable_size-IsValid exp v,
)
