-- ===== src/Rotative/Message.antt =====
-- What the operations do with the read limit, the cursor and the size last read, which a message is
-- confirmed, read and committed by.
use utility_engine_old.Base.{ℕ, ◌+◌, ◌-◌, ◌≤◌, ◌<◌, ◌≡◌, refl, sym, ap, ◌∙◌, ◌⊎◌, inl, inr, Bool}
use utility_engine_old.Base.{◌||◌, some, List, arith, ltb, leb, Bool-cases, take, tabulate}
use utility_engine_old.Base.{take-take, take-tabulate, peek}
use utility_engine_old.Rotative.Cursor.{portion, next-limited, next-none}
use utility_engine_old.Rotative.Read.{grant, read-take, readable_size_lem}
use utility_engine_old.Rotative.Invariant.{filled, IsValid, fill, used-eq-filled, moved-IsValid}
use utility_engine_old.Rotative.Contents.{contents}
use utility_engine_old.Rotative.{max_packet_len, Rotative, used, readable_size, read, write}
use utility_engine_old.Rotative.{commit_write, reset, set_read_limit, next}
use mathlib.Core.Path.{subst}

-- The state s holds the same bytes as r, with the same limit and the same room claimed.
pub record Keeps (r s : Rotative) : Type 0 where
  pub valid : IsValid s
  pub same : contents s ≡ contents r
  pub limit_eq : s.limit ≡ r.limit

pub readable_size-marks :
    (n : ℕ) (r : Rotative)
    → ((readable_size n r).1.limit ≡ r.limit) × ((readable_size n r).1.pos ≡ r.pos)
unfolding readable_size
readable_size-marks n r = (refl, refl)

read-limit : (n : ℕ) (r : Rotative) → (read n r).2.limit ≡ r.limit
unfolding read
read-limit n r = ground arith

grant-used : {r : Rotative} → IsValid r → 4 ≤ filled r → 4 ≤ grant (used r) (readable_size 0 r).1
unfolding readable_size
grant-used v there = ground (arith, used-eq-filled v, there)

-- A shorter piece of what `read` grants.
read-take_le :
    (n k : ℕ) {r : Rotative}
    → IsValid r
    → k ≤ grant n r
    → peek (read n r).2.buffer (read n r).0 k ≡ take k (contents r)
read-take_le n k {r} v le =
    let g = read-take n v in
    let byte : ℕ → ℕ = λ i. (read n r).2.buffer ((read n r).0 + i) in
    sym (take-tabulate k (grant n r) byte le)
    ∙ ap (λ m. take k (tabulate m byte)) (sym g.0)
    ∙ ap (take k) g.2
    ∙ take-take k (grant n r) (contents r) le

-- A piece of the message that has no limit yet, from its first byte on.
next-unlimited :
    (n : ℕ) (r : Rotative)
    → r.limit ≡ 0
    → r.pos ≡ 0
    → 0 < n
    → n ≤ used r
    → next n r ≡ (
      some ((read (used r) (readable_size 0 r).1).0 + 0),
      n,
      record (read (used r) (readable_size 0 r).1).2 { pos = n },
    )
unfolding next readable_size
next-unlimited n r free at_start some_bytes le = ground (arith, free, at_start, some_bytes, le)

-- The header of a message that has no limit yet is handed out in one piece.
pub next-header :
    {r : Rotative}
    → IsValid r
    → r.limit ≡ 0
    → r.pos ≡ 0
    → 4 ≤ filled r
    → (p : ℕ) × (s : Rotative) × (next 4 r ≡ (some p, 4, s))
      × (peek s.buffer p 4 ≡ take 4 (contents r))
      × Keeps r s
      × (0 < s.last_read)
next-header {r} v free at_start there =
    let b : Rotative = (readable_size 0 r).1 in
    let seen = readable_size_lem 0 v in
    let four : 4 ≤ grant (used r) b = grant-used v there in
    let g = read-take (used r) seen.3 in
    (
      (read (used r) b).0 + 0,
      record (read (used r) b).2 { pos = 4 },
      next-unlimited 4 r free at_start (omega arith) (omega (arith, used-eq-filled v, there)),
      ap (λ q. peek (read (used r) b).2.buffer q 4) (omega arith)
          ∙ read-take_le (used r) 4 seen.3 four
          ∙ ap (take 4) seen.2,
      record {
        valid = moved-IsValid 4 g.4;
        same = g.3 ∙ seen.2;
        limit_eq = read-limit (used r) b ∙ (readable_size-marks 0 r).0;
      },
      omega (arith, g.1, four),
    )

next-state :
    (asked : ℕ) (r : Rotative)
    → 0 < r.limit
    → ((next asked r).2 ≡ r)
      ⊎ ((p : ℕ) × ((next asked r).2 ≡ record (read r.limit r).2 { pos = p }))
next-state asked r h = elim (Bool-cases (leb r.limit r.pos || ltb (r.limit - r.pos) asked)) [
  | inl over ↦ inl (ap (λ t. t.2) (next-none asked r h (ground (arith, over))))
  | inr inside ↦ inr (
    r.pos + portion asked r,
    ap (λ t. t.2) (next-limited asked r h (ground (arith, inside)) (ground (arith, inside))),
  )
]

grant-limit :
    {r : Rotative}
    → IsValid r
    → r.limit ≤ max_packet_len
    → r.limit ≤ filled r
    → 0 < r.limit
    → grant r.limit r ≡ r.limit
grant-limit v small there h = ground (arith, small, there, h)

-- Inside a message, whatever is asked for, the bytes, the limit and the size last read stay good for
-- its commit.
pub next-Keeps :
    (asked : ℕ) {r : Rotative}
    → IsValid r
    → r.limit ≤ max_packet_len
    → r.limit ≤ filled r
    → 0 < r.limit
    → r.limit ≤ r.last_read
    → Keeps r (next asked r).2 × (r.limit ≤ (next asked r).2.last_read)
next-Keeps asked {r} v small there h read_in = elim (next-state asked r h) [
  | inl e ↦ (
    subst (Keeps r) (sym e) (record { valid = v; same = refl; limit_eq = refl }),
    omega (arith, read_in, ap (λ s. s.last_read) e),
  )
  | inr (p, e) ↦
      let g = read-take r.limit v in
      (
        subst (Keeps r) (sym e)
            (record { valid = moved-IsValid p g.4; same = g.3; limit_eq = read-limit r.limit r }),
        omega (arith, ap (λ s. s.last_read) e, g.1, grant-limit v small there h),
      )
]

pub write-marks :
    (n : ℕ) (r : Rotative)
    → ((write n r).2.limit ≡ r.limit)
      × ((write n r).2.pos ≡ r.pos)
      × ((write n r).2.last_read ≡ r.last_read)
unfolding write
write-marks n r = (refl, refl, refl)

pub commit_write-marks :
    (n : ℕ) (bytes : List ℕ) (b : Bool) (r s : Rotative)
    → commit_write n (fill bytes r) ≡ some (b, s)
    → (s.limit ≡ r.limit) × (s.pos ≡ r.pos) × (s.last_read ≡ r.last_read)
unfolding commit_write fill
commit_write-marks n bytes b r s e = (ground (arith, e), ground (arith, e), ground (arith, e))

pub marked-IsValid :
    (n p : ℕ) {r : Rotative} → IsValid r → IsValid (set_read_limit n (record r { pos = p }))
unfolding set_read_limit
marked-IsValid n p v = ground arith

pub set_read_limit-marks :
    (n : ℕ) (r : Rotative)
    → ((set_read_limit n r).limit ≡ n)
      × ((set_read_limit n r).last_read ≡ r.last_read)
      × ((set_read_limit n r).pos ≡ r.pos)
      × (contents (set_read_limit n r) ≡ contents r)
unfolding set_read_limit
set_read_limit-marks n r = (refl, refl, refl, refl)

-- The end of a message: the cursor and the limit are set back.
pub reset-marks :
    {r : Rotative}
    → IsValid r
    → ((reset r).pos ≡ 0) × (contents (reset r) ≡ contents r) × IsValid (reset r)
unfolding reset
reset-marks v = (refl, refl, moved-IsValid 0 v)
