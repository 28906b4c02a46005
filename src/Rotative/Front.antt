-- ===== src/Rotative/Front.antt =====
-- The bytes handed out by `read` stay where they are while more are stored.
use utility_engine_old.Base.{ℕ, ◌+◌, ◌≤◌, ◌<◌, ◌≡◌, refl, sym, ap, ◌∙◌, Bool, some, List, arith}
use utility_engine_old.Base.{◌==◌, length, peek, tabulate_cong}
use utility_engine_old.Rotative.Invariant.{filled, IsValid, fill}
use utility_engine_old.Rotative.{Rotative, read, write, commit_write}

-- In the state s there are more bytes than in r, and those that were readable, in one piece behind
-- the reader as `read` hands them out, stand where they stood.
pub record Front (r s : Rotative) : Type 0 where
  pub reader_eq : s.reader ≡ r.reader
  pub read_eq : s.last_read ≡ r.last_read
  pub grows : filled r ≤ filled s
  pub bytes_eq : (k : ℕ) → k < filled r → s.buffer (r.reader + k) ≡ r.buffer (r.reader + k)

pub write-Front : (n : ℕ) (r : Rotative) → Front r (write n r).2
unfolding write
write-Front n r = record {
  reader_eq = refl;
  read_eq = refl;
  grows = omega arith;
  bytes_eq = λ k lt. refl;
}

pub commit_write-Front :
    (bytes : List ℕ) (r s : Rotative) (b : Bool)
    → IsValid r
    → length bytes ≤ r.last_malloc
    → commit_write (length bytes) (fill bytes r) ≡ some (b, s)
    → Front r s × (b ≡ (r.last_read == 0))
unfolding commit_write fill
commit_write-Front bytes r s b v fits e = (
  record {
    reader_eq = ground (arith, e);
    read_eq = ground (arith, e);
    grows = ground (arith, e, fits);
    bytes_eq = λ k lt. ground (arith, e, fits, lt);
  },
  ground (arith, e),
)

pub Front-trans : (r s t : Rotative) → Front r s → Front s t → Front r t
Front-trans r s t a b = record {
  reader_eq = b.reader_eq ∙ a.reader_eq;
  read_eq = b.read_eq ∙ a.read_eq;
  grows = omega (arith, a.grows, b.grows);
  bytes_eq = λ k lt.
      ap (λ p. t.buffer (p + k)) (sym a.reader_eq)
      ∙ b.bytes_eq k (omega (arith, a.grows, lt))
      ∙ ap (λ p. s.buffer (p + k)) a.reader_eq
      ∙ a.bytes_eq k lt;
}

-- The portion that was handed out reads the same.
pub peek-Front :
    (r s : Rotative) (n : ℕ)
    → Front r s
    → n ≤ filled r
    → peek s.buffer r.reader n ≡ peek r.buffer r.reader n
peek-Front r s n f le =
    tabulate_cong n (λ k. s.buffer (r.reader + k)) (λ k. r.buffer (r.reader + k))
      (λ k lt. f.bytes_eq k (omega (arith, lt, le)))

pub read-reader_kept : (n : ℕ) (r : Rotative) → (read n r).2.reader ≡ r.reader
unfolding read
read-reader_kept n r = ground arith
