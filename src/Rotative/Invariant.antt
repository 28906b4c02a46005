-- ===== src/Rotative/Invariant.antt =====
-- The representation invariant of `rotative_buffer`, and that its operations keep it.
use utility_engine_old.Base.{Bool-cases, refl, ◌==◌, Memory, some, ◌⊎◌, inl, inr, false, ℕ, ◌+◌}
use utility_engine_old.Base.{◌-◌, ◌≤◌, ◌<◌, ◌≡◌, arith, List, leb, if◌then◌else◌, true, poke}
use utility_engine_old.Base.{length, ulong_mod}
use utility_engine_old.Rotative.{Rotative, init, max_packet_len, clear, used, readable_size, write}

-- How many bytes lie between the cursors, without the wrap of `unsigned long`.
abbrev pub filled : Rotative → ℕ
filled r = if leb r.reader r.writer then r.writer - r.reader else r.writer + r.size - r.reader

pub record IsValid (r : Rotative) : Type 0 where
  pub made : r.allocated ≡ true
  pub big : max_packet_len ≤ r.size
  pub small : r.size + max_packet_len + 1 < ulong_mod
  pub final_eq : r.final ≡ r.size
  pub reader_in : r.reader < r.size
  pub writer_in : r.writer < r.size
  pub copy_in : r.last_copy ≤ max_packet_len
  pub copy_none : r.reader ≤ r.writer → r.last_copy ≡ 0
  pub copy_le : r.writer < r.reader → r.last_copy ≤ r.writer
  -- What lies behind `final` repeats the head.
  pub mirror : (i : ℕ) → i < r.last_copy → r.buffer (r.size + i) ≡ r.buffer i
  -- A registered write is at most a packet and leaves one byte free.
  pub claim_in : r.last_malloc ≤ max_packet_len
  pub claim_room : r.last_malloc + filled r + 1 ≤ r.size

-- The bytes that the user of `write` stores before `commit_write`.
unfoldable pub fill : List ℕ → Rotative → Rotative
fill bytes r = record r { buffer = poke r.buffer r.writer bytes }

pub clear-IsValid : {r : Rotative} → IsValid r → IsValid (clear r)
unfolding clear
clear-IsValid v = ground arith

-- `used` does not wrap.
pub used-eq-filled : {r : Rotative} → IsValid r → used r ≡ filled r
used-eq-filled v = ground arith

pub readable_size-IsValid : (exp : ℕ) {r : Rotative} → IsValid r → IsValid (readable_size exp r).1
unfolding readable_size
readable_size-IsValid exp v = ground arith

pub write-IsValid : (n : ℕ) {r : Rotative} → IsValid r → IsValid (write n r).2
unfolding write
write-IsValid n v = ground arith

pub fill-IsValid :
    (bytes : List ℕ) {r : Rotative}
    → IsValid r
    → length bytes ≤ r.last_malloc
    → IsValid (fill bytes r)
unfolding fill
fill-IsValid bytes {r} v h = record {
  made = v.made;
  big = v.big;
  small = v.small;
  final_eq = v.final_eq;
  reader_in = v.reader_in;
  writer_in = v.writer_in;
  copy_in = v.copy_in;
  copy_none = v.copy_none;
  copy_le = v.copy_le;
  mirror = λ i lt. ground (arith, v.mirror i);
  claim_in = v.claim_in;
  claim_room = v.claim_room;
}

-- `init` with at least a packet, that fits the address space, does not abort and gives a valid
-- buffer of that size, on a new object as on one in use.
pub init-IsValid :
    (fresh : Memory) (n : ℕ) (r : Rotative)
    → max_packet_len ≤ n
    → n + max_packet_len + 1 < ulong_mod
    → (r.allocated ≡ false) ⊎ IsValid r
    → (r' : Rotative) × (init fresh n r ≡ some r') × IsValid r' × (r'.size ≡ n)
unfolding init
init-IsValid fresh n r h k (inl e) = (
  clear (record r {
    allocated = true;
    buffer = λ i. if i == n + max_packet_len then 0 else fresh i;
    size = n;
  }),
  ground arith,
  unfold clear in ground arith,
  unfold clear in refl,
)
init-IsValid fresh n r h k (inr v) = elim (Bool-cases (n == r.size)) [
  | inl e ↦ (r, ground arith, v, ground arith)
  | inr e ↦ (
    clear (record r {
      allocated = true;
      buffer = λ i. if i == n + max_packet_len then 0 else fresh i;
      size = n;
    }),
    ground arith,
    unfold clear in ground arith,
    unfold clear in refl,
  )
]

-- The cursor of the message is no part of the invariant.
pub moved-IsValid : (p : ℕ) {r : Rotative} → IsValid r → IsValid (record r { pos = p })
moved-IsValid p v = ground arith
