-- ===== src/Rotative/Write.antt =====
-- Storing bytes: `write`, the copy by its user, `commit_write`.
use utility_engine_old.Base.{ℕ, ◌+◌, ◌-◌, ◌≤◌, ◌<◌, min, ◌≡◌, refl, ap, ap₂, ◌∙◌, Bool, some, List}
use utility_engine_old.Base.{◌++◌, arith, leb, ◌==◌, if◌then◌else◌, length, get_or, tabulate}
use utility_engine_old.Base.{tabulate_cong, tabulate-add, tabulate-get_or, memcpy}
use utility_engine_old.Rotative.{Rotative, clip, writable_size, write, commit_write}
use utility_engine_old.Rotative.Invariant.{IsValid, write-IsValid, filled, fill, fill-IsValid}
use utility_engine_old.Rotative.Contents.{contents, at}

-- The state after `commit_write n`.
abbrev written : ℕ → Rotative → Rotative
written n r =
    if leb r.final (r.writer + n)
    then record r {
      last_malloc = 0;
      last_copy = r.writer + n - r.final;
      writer = r.writer + n - r.final;
      buffer = memcpy r.buffer 0 r.final (r.writer + n - r.final);
    }
    else record r { last_malloc = 0; writer = r.writer + n }

commit_write-eq :
    (n : ℕ) (r : Rotative)
    → n ≤ r.last_malloc
    → commit_write n r ≡ some (r.last_read == 0, written n r)
unfolding commit_write
commit_write-eq n r h = ground arith

written-IsValid : (n : ℕ) {r : Rotative} → IsValid r → n ≤ r.last_malloc → IsValid (written n r)
written-IsValid n {r} v h = record {
  made = ground arith;
  big = ground arith;
  small = ground arith;
  final_eq = ground arith;
  reader_in = ground arith;
  writer_in = ground arith;
  copy_in = ground arith;
  copy_none = ground arith;
  copy_le = ground arith;
  mirror = λ i lt. ground (arith, v.mirror i);
  claim_in = ground arith;
  claim_room = ground arith;
}

filled-written :
    (n : ℕ) {r : Rotative} → IsValid r → n ≤ r.last_malloc → filled (written n r) ≡ filled r + n
filled-written n v h = ground arith

-- What was readable stays, at its place.
kept :
    (bytes : List ℕ) {r : Rotative} (k : ℕ)
    → IsValid r
    → length bytes ≤ r.last_malloc
    → k < filled r
    → let r' = written (length bytes) (fill bytes r) in r'.buffer (at r' k) ≡ r.buffer (at r k)
unfolding fill
kept bytes {r} k v h lt = ground arith

-- The new bytes come behind it.
added :
    (bytes : List ℕ) {r : Rotative} (k : ℕ)
    → IsValid r
    → length bytes ≤ r.last_malloc
    → k < length bytes
    → let r' = written (length bytes) (fill bytes r) in
      r'.buffer (at r' (filled r + k)) ≡ get_or bytes k 0
unfolding fill
added bytes {r} k v h lt = ground arith

contents-written :
    (bytes : List ℕ) {r : Rotative}
    → IsValid r
    → length bytes ≤ r.last_malloc
    → contents (written (length bytes) (fill bytes r)) ≡ contents r ++ bytes
unfolding fill
contents-written bytes {r} v h =
    ap (λ n. tabulate n byte) (filled-written (length bytes) (fill-IsValid bytes v h) h)
    ∙ tabulate-add (filled r) (length bytes) byte
    ∙ ap₂ ◌++◌
        (tabulate_cong (filled r) byte (λ k. r.buffer (at r k)) (λ k lt. kept bytes k v h lt))
        (tabulate_cong (length bytes) (λ k. byte (filled r + k)) (λ k. get_or bytes k 0)
            (λ k lt. added bytes k v h lt)
          ∙ tabulate-get_or bytes 0)
  where
    byte : ℕ → ℕ
    byte k =
        (written (length bytes) (fill bytes r)).buffer
          (at (written (length bytes) (fill bytes r)) k)

-- `commit_write` of bytes that fit the registered write does not abort: it appends exactly these
-- bytes to the readable ones, keeps the invariant, leaves the cursor of the message alone, and
-- answers true exactly when no read is in hand (the last size read is 0).
pub commit_write-append :
    (bytes : List ℕ) {r : Rotative}
    → IsValid r
    → length bytes ≤ r.last_malloc
    → (r' : Rotative) × (commit_write (length bytes) (fill bytes r) ≡ some (r.last_read == 0, r'))
      × IsValid r'
      × (contents r' ≡ contents r ++ bytes)
      × (r'.pos ≡ r.pos)
unfolding fill
commit_write-append bytes {r} v h = (
  written (length bytes) (fill bytes r),
  commit_write-eq (length bytes) (fill bytes r) h,
  written-IsValid (length bytes) (fill-IsValid bytes v h) h,
  contents-written bytes v h,
  ground arith,
)

-- `write` grants what was asked for (at most a packet, and a whole packet for 0), but never more
-- than is free, and never more than `writable_size`: the free bytes but one.
pub write-writable_size :
    (n : ℕ) {r : Rotative}
    → IsValid r
    → (writable_size r + filled r + 1 ≡ r.size)
      × ((write n r).0 ≡ r.writer)
      × ((write n r).1 ≡ min (clip n) (writable_size r))
      × ((write n r).2.last_malloc ≡ (write n r).1)
      × IsValid (write n r).2
unfolding write writable_size
write-writable_size n v =
    (ground arith, ground arith, ground arith, ground arith, unfold write in write-IsValid n v)

pub contents-write : (n : ℕ) (r : Rotative) → contents (write n r).2 ≡ contents r
unfolding write
contents-write n r = refl

-- `commit_write` and `write` leave the size of the array alone.
pub commit_write-size :
    (n : ℕ) (b : Bool) (r s : Rotative) → commit_write n r ≡ some (b, s) → s.size ≡ r.size
unfolding commit_write
commit_write-size n b r s e = ground (arith, e)

pub write-size : (n : ℕ) (r : Rotative) → (write n r).2.size ≡ r.size
unfolding write
write-size n r = refl

pub fill-size : (bytes : List ℕ) (r : Rotative) → (fill bytes r).size ≡ r.size
unfolding fill
fill-size bytes r = refl

pub write-writer : (n : ℕ) (r : Rotative) → (write n r).0 ≡ (write n r).2.writer
unfolding write
write-writer n r = refl
