-- ===== src/Stream/Write.antt =====
-- Writing into the chain of nodes.
use utility_engine_old.Base.{peek, ℕ, suc, ◌+◌, ◌-◌, ◌≤◌, ◌<◌, min, ◌≡◌, refl, sym, ap, ap₂, ◌∙◌}
use utility_engine_old.Base.{inl, inr, some, List, [], ◌∷◌, ◌++◌, arith, leb, ◌==◌, if◌then◌else◌}
use utility_engine_old.Base.{Bool-cases, length, length-append, poke, Memory}
use utility_engine_old.Stream.{max_packet_len, Stream, write, commit_write}
use utility_engine_old.Stream.Contents.{chain, contents, first_end, IsValid, peek-add}
use utility_engine_old.Stream.Contents.{peek-poke_self, peek-poke_below}
use mathlib.Core.List.{append_assoc, append-nil}

-- The bytes that the user of `write` stores at the pointer, before `commit_write`.
pub fill_last : List Memory → ℕ → List ℕ → List Memory
fill_last [] w bytes = []
fill_last (n ∷ []) w bytes = poke n w bytes ∷ []
fill_last (n ∷ m ∷ rest) w bytes = n ∷ fill_last (m ∷ rest) w bytes

unfoldable pub fill : List ℕ → Stream → Stream
unfolding fill_last
fill bytes s = record s { nodes = fill_last s.nodes s.writer bytes }

length-fill_last :
    (ns : List Memory) (w : ℕ) (bytes : List ℕ) → length (fill_last ns w bytes) ≡ length ns
unfolding fill_last
length-fill_last [] w bytes = refl
length-fill_last (n ∷ []) w bytes = refl
length-fill_last (n ∷ m ∷ rest) w bytes = ap suc (length-fill_last (m ∷ rest) w bytes)

chain-cons :
    (n : Memory) (ns : List Memory) (r w : ℕ)
    → 0 < length ns
    → chain (n ∷ ns) r w ≡ peek n r (max_packet_len - r) ++ chain ns 0 w
unfolding chain
chain-cons n [] r w h = absurd (omega (arith, h))
chain-cons n (m ∷ rest) r w h = refl

chain-fill_last :
    (ns : List Memory) (r w : ℕ) (bytes : List ℕ)
    → 0 < length ns
    → r ≤ first_end ns w
    → chain (fill_last ns w bytes) r (w + length bytes) ≡ chain ns r w ++ bytes
unfolding chain fill_last first_end
chain-fill_last [] r w bytes some_node le = absurd (omega (arith, some_node))
chain-fill_last (n ∷ []) r w bytes some_node le =
    let cut : w + length bytes - r ≡ w - r + length bytes = omega (arith, le) in
    let at_end : r + (w - r) ≡ w = omega (arith, le) in
    ap (peek (poke n w bytes) r) cut
    ∙ peek-add (poke n w bytes) r (w - r) (length bytes)
    ∙ ap₂ ◌++◌ (peek-poke_below n r (w - r) w bytes (omega (arith, le)))
        (ap (λ p. peek (poke n w bytes) p (length bytes)) at_end ∙ peek-poke_self n w bytes)
chain-fill_last (n ∷ m ∷ rest) r w bytes some_node le =
    chain-cons n (fill_last (m ∷ rest) w bytes) r (w + length bytes)
      (omega (arith, length-fill_last (m ∷ rest) w bytes))
    ∙ ap (λ l. peek n r (max_packet_len - r) ++ l)
        (chain-fill_last (m ∷ rest) 0 w bytes (omega arith) (omega arith))
    ∙ sym (append_assoc (peek n r (max_packet_len - r)) (chain (m ∷ rest) 0 w) bytes)

chain-append :
    (ns : List Memory) (fresh : Memory) (r : ℕ)
    → 0 < length ns
    → chain (ns ++ fresh ∷ []) r 0 ≡ chain ns r max_packet_len
unfolding chain
chain-append [] fresh r h = absurd (omega (arith, h))
chain-append (n ∷ []) fresh r h = append-nil (peek n r (max_packet_len - r))
chain-append (n ∷ m ∷ rest) fresh r h =
    ap (λ l. peek n r (max_packet_len - r) ++ l) (chain-append (m ∷ rest) fresh 0 (omega arith))

first_end-append :
    (ns : List Memory) (fresh : Memory) (w : ℕ)
    → 0 < length ns
    → first_end (ns ++ fresh ∷ []) w ≡ max_packet_len
unfolding first_end
first_end-append [] fresh w h = absurd (omega (arith, h))
first_end-append (n ∷ []) fresh w h = refl
first_end-append (n ∷ m ∷ rest) fresh w h = refl

first_end-fill_last :
    (ns : List Memory) (w w' : ℕ) (bytes : List ℕ)
    → w ≤ w'
    → first_end ns w ≤ first_end (fill_last ns w bytes) w'
unfolding first_end fill_last
first_end-fill_last [] w w' bytes h = omega arith
first_end-fill_last (n ∷ []) w w' bytes h = h
first_end-fill_last (n ∷ m ∷ []) w w' bytes h = omega arith
first_end-fill_last (n ∷ m ∷ k ∷ rest) w w' bytes h = omega arith

-- The chain grows by what was written; a node that is full gets an empty one behind it.
pub written : Memory → List ℕ → Stream → Stream
unfolding fill_last
written fresh bytes s =
    let w = s.writer + length bytes in
    let ns = fill_last s.nodes s.writer bytes in
    record s {
      nodes = if leb max_packet_len w then ns ++ fresh ∷ [] else ns;
      writer = if leb max_packet_len w then 0 else w;
      readable = s.readable + length bytes;
      last_malloc = 0;
    }

commit_write-written :
    (fresh : Memory) (bytes : List ℕ) (s : Stream)
    → length bytes ≤ s.last_malloc
    → commit_write fresh (length bytes) (fill bytes s)
      ≡ some (s.last_read == 0, written fresh bytes s)
unfolding commit_write written fill
commit_write-written fresh bytes s h = ground (arith, h)

contents-written :
    (fresh : Memory) (bytes : List ℕ) {s : Stream}
    → IsValid s
    → length bytes ≤ s.last_malloc
    → contents (written fresh bytes s) ≡ contents s ++ bytes
unfolding contents written
contents-written fresh bytes {s} v h =
    let whole = chain-fill_last s.nodes s.reader s.writer bytes v.some_node v.ordered in
    elim (Bool-cases (leb max_packet_len (s.writer + length bytes))) [
      | inl e ↦
          let full : s.writer + length bytes ≡ max_packet_len = ground (arith, e, v.claim_in, h) in
          rw e (
            chain-append (fill_last s.nodes s.writer bytes) fresh s.reader
              (omega (arith, v.some_node, length-fill_last s.nodes s.writer bytes))
            ∙ ap (chain (fill_last s.nodes s.writer bytes) s.reader) (sym full)
            ∙ whole)
      | inr e ↦ rw e whole
    ]

written-IsValid :
    (fresh : Memory) (bytes : List ℕ) {s : Stream}
    → IsValid s
    → length bytes ≤ s.last_malloc
    → IsValid (written fresh bytes s)
unfolding written
written-IsValid fresh bytes {s} v h =
    let some_node' = length-fill_last s.nodes s.writer bytes in
    let len = length-append {A = Memory} (fill_last s.nodes s.writer bytes) (fresh ∷ []) in
    let full = first_end-append (fill_last s.nodes s.writer bytes) fresh in
    let grown = first_end-fill_last s.nodes s.writer (s.writer + length bytes) bytes in
    record {
      ordered = ground (arith, v.ordered, v.reader_in, v.some_node, some_node', full 0, grown);
      some_node = ground (arith, v.some_node, some_node', len);
      reader_in = v.reader_in;
      writer_in = ground (arith, v.claim_in, h);
      counted = omega (
        arith,
        v.counted,
        ap length (contents-written fresh bytes v h),
        length-append (contents s) bytes,
      );
      claim_in = ground (arith, v.claim_in, h);
    }

-- Writing up to what `write` granted appends the bytes to the readable ones; the flag says
-- whether the reader last found nothing.
pub commit_write-append :
    (fresh : Memory) (bytes : List ℕ) {s : Stream}
    → IsValid s
    → length bytes ≤ s.last_malloc
    → (t : Stream) × (commit_write fresh (length bytes) (fill bytes s) ≡ some (s.last_read == 0, t))
      × IsValid t
      × (contents t ≡ contents s ++ bytes)
commit_write-append fresh bytes {s} v h = (
  written fresh bytes s,
  commit_write-written fresh bytes s h,
  written-IsValid fresh bytes v h,
  contents-written fresh bytes v h,
)

-- `write` grants what fits into the last node, at most what was asked for, and at least one byte
-- if any was asked for; the bytes stay as they are.
pub write-grant :
    (n : ℕ) {s : Stream}
    → IsValid s
    → ((write n s).1 ≡ min n (max_packet_len - s.writer))
      × (0 < max_packet_len - s.writer)
      × ((write n s).2.last_malloc ≡ (write n s).1)
      × IsValid (write n s).2
      × (contents (write n s).2 ≡ contents s)
unfolding write contents
write-grant n {s} v = (
  ground arith,
  omega (arith, v.writer_in),
  refl,
  record {
    ordered = v.ordered;
    some_node = v.some_node;
    reader_in = v.reader_in;
    writer_in = v.writer_in;
    counted = v.counted;
    claim_in = ground (arith, v.writer_in);
  },
  refl,
)
