-- ===== src/Stream/Read.antt =====
-- Reading out of the chain of nodes, and giving nodes back.
use utility_engine_old.Stream.{max_packet_len, Stream, read, one_more, give_back, moved_back}
use utility_engine_old.Stream.{commit_read}
use utility_engine_old.Base.{ℕ, ◌+◌, ◌-◌, ◌≤◌, ◌<◌, min, ◌≡◌, refl, sym, ap, ◌∙◌, inl, inr, true}
use utility_engine_old.Base.{false, some, List, [], ◌∷◌, ◌++◌, arith, ltb, leb, Bool-cases, ltb→lt}
use utility_engine_old.Base.{ltb→ge, lt→ltb, sub_ulong, ulong_mod, length, take, drop}
use utility_engine_old.Base.{length-append, length-drop, take-append_le, drop-append_le}
use utility_engine_old.Base.{drop-append_ge, peek, Memory}
use utility_engine_old.Stream.Contents.{chain, contents, first_end, IsValid, length-peek, take-peek}
use utility_engine_old.Stream.Contents.{drop-peek}

-- The bytes behind a pointer into the first node.
pub peek_first : List Memory → ℕ → ℕ → List ℕ
peek_first [] p n = []
peek_first (m ∷ rest) p n = peek m p n

peek_first-take :
    (ns : List Memory) (r w n : ℕ)
    → n ≤ first_end ns w - r
    → 0 < length ns
    → peek_first ns r n ≡ take n (chain ns r w)
unfolding peek_first chain first_end
peek_first-take [] r w n h some_node = absurd (omega (arith, some_node))
peek_first-take (m ∷ []) r w n h some_node = sym (take-peek m r n (w - r) h)
peek_first-take (m ∷ k ∷ rest) r w n h some_node = sym (
    take-append_le n (peek m r (max_packet_len - r)) (chain (k ∷ rest) 0 w)
      (omega (arith, h, length-peek m r (max_packet_len - r)))
    ∙ take-peek m r n (max_packet_len - r) h)

-- What lies in the first node is no more than what lies in the chain.
first_end-le : (ns : List Memory) (r w : ℕ) → first_end ns w - r ≤ length (chain ns r w)
unfolding chain first_end
first_end-le [] r w = omega arith
first_end-le (m ∷ []) r w = omega (arith, length-peek m r (w - r))
first_end-le (m ∷ k ∷ rest) r w = omega (
  arith,
  length-peek m r (max_packet_len - r),
  length-append (peek m r (max_packet_len - r)) (chain (k ∷ rest) 0 w),
)

first_end_max : (ns : List Memory) (w : ℕ) → w ≤ max_packet_len → first_end ns w ≤ max_packet_len
unfolding first_end
first_end_max [] w h = omega arith
first_end_max (m ∷ []) w h = h
first_end_max (m ∷ k ∷ rest) w h = omega arith

-- The bytes from the reader to the end of the first node, or to the writer if it is the last.
pub portion : ℕ → Stream → ℕ
portion asked s = min asked (min s.readable (max_packet_len - s.reader))

portion-first_end :
    (ns : List Memory) (r w total : ℕ)
    → total ≡ length (chain ns r w)
    → min total (max_packet_len - r) ≤ first_end ns w - r
unfolding chain first_end
portion-first_end [] r w total e = omega (arith, e)
portion-first_end (m ∷ []) r w total e = omega (arith, e, length-peek m r (w - r))
portion-first_end (m ∷ k ∷ rest) r w total e = omega arith

-- `read` shows the next bytes, at most what was asked for, as many as the first node holds, and
-- takes none of them away.
pub read-take :
    (asked : ℕ) {s : Stream}
    → IsValid s
    → ((read asked s).1 ≡ portion asked s)
      × (peek_first (read asked s).2.nodes (read asked s).0 (read asked s).1
          ≡ take (portion asked s) (contents s))
      × (contents (read asked s).2 ≡ contents s)
      × IsValid (read asked s).2
unfolding read portion contents
read-take asked {s} v =
    let granted : (read asked s).1 ≡ min asked (min s.readable (max_packet_len - s.reader)) =
      ground arith in
    let bound = portion-first_end s.nodes s.reader s.writer s.readable v.counted in
    (
      granted,
      ap (peek_first s.nodes s.reader) granted
          ∙ peek_first-take s.nodes s.reader s.writer
              (min asked (min s.readable (max_packet_len - s.reader))) (omega (arith, bound))
              v.some_node,
      refl,
      record {
        ordered = v.ordered;
        some_node = v.some_node;
        reader_in = v.reader_in;
        writer_in = v.writer_in;
        counted = v.counted;
        claim_in = v.claim_in;
      },
    )

-- What is left after `size` bytes were taken.
record Left (ns : List Memory) (r w size : ℕ) (kept : List Memory) (r' : ℕ) : Type 0 where
  bytes : chain kept r' w ≡ drop size (chain ns r w)
  some_left : 0 < length kept
  in_first : r' ≤ first_end kept w
  in_node : r' < max_packet_len

give_back-stays :
    (m : Memory) (rest : List Memory) (r w size : ℕ)
    → r + size < max_packet_len
    → give_back w (m ∷ rest) r size ≡ some (m ∷ rest, r + size, 0)
unfolding give_back
give_back-stays m rest r w size h = rw (lt→ltb (r + size) max_packet_len h) refl

give_back-next :
    (m k : Memory) (rest : List Memory) (r w size : ℕ)
    → r < max_packet_len
    → size < ulong_mod
    → max_packet_len ≤ r + size
    → give_back w (m ∷ k ∷ rest) r size
      ≡ one_more (give_back w (k ∷ rest) 0 (size - (max_packet_len - r)))
unfolding give_back
give_back-next m k rest r w size in_node small past =
    let over : ltb (r + size) max_packet_len ≡ false = ground (arith, past) in
    let same : sub_ulong size (sub_ulong max_packet_len r) ≡ size - (max_packet_len - r) =
      omega (arith, in_node, small, past) in
    rw over (ap (λ n. one_more (give_back w (k ∷ rest) 0 n)) same)

give_back-drop :
    (ns : List Memory) (r w size : ℕ)
    → 0 < length ns
    → r ≤ first_end ns w
    → r < max_packet_len
    → w < max_packet_len
    → size < ulong_mod
    → size ≤ length (chain ns r w)
    → (kept : List Memory) × (r' : ℕ) × (freed : ℕ) × (give_back w ns r size
        ≡ some (kept, r', freed))
      × Left ns r w size kept r'
unfolding chain first_end
give_back-drop [] r w size some_node ordered in_node w_in small enough =
    absurd (omega (arith, some_node))
give_back-drop (m ∷ []) r w size some_node ordered in_node w_in small enough =
    let len = length-peek m r (w - r) in
    let stays : ltb (r + size) max_packet_len ≡ true = ground (arith, enough, len, ordered, w_in) in
    (
      m ∷ [],
      r + size,
      0,
      give_back-stays m [] r w size (ltb→lt (r + size) max_packet_len stays),
      record {
        bytes =
            ap (peek m (r + size)) (omega arith)
            ∙ sym (drop-peek m r size (w - r) (omega (arith, enough, len)));
        some_left = omega arith;
        in_first = omega (arith, enough, len, ordered);
        in_node = omega (arith, enough, len, ordered, w_in);
      },
    )
give_back-drop (m ∷ k ∷ rest) r w size some_node ordered in_node w_in small enough =
    let here = peek m r (max_packet_len - r) in
    let behind = chain (k ∷ rest) 0 w in
    let len = length-peek m r (max_packet_len - r) in
    let both = length-append here behind in
    elim (Bool-cases (ltb (r + size) max_packet_len)) [
      | inl stays ↦
          let inside = ltb→lt (r + size) max_packet_len stays in
          (
            m ∷ k ∷ rest,
            r + size,
            0,
            give_back-stays m (k ∷ rest) r w size inside,
            record {
              bytes =
                  ap (λ l. l ++ behind)
                    (ap (peek m (r + size)) (omega arith)
                      ∙ sym (drop-peek m r size (max_packet_len - r) (omega (arith, inside))))
                  ∙ sym (drop-append_le size here behind (omega (arith, inside, len)));
              some_left = omega arith;
              in_first = omega (arith, inside);
              in_node = inside;
            },
          )
      | inr over ↦
          let past = ltb→ge (r + size) max_packet_len over in
          let (kept, r', freed, e, left) =
            give_back-drop (k ∷ rest) 0 w (size - (max_packet_len - r)) (omega arith) (omega arith)
              (omega arith) w_in (omega (arith, small)) (omega (arith, enough, len, both)) in
          (
            kept,
            r',
            freed + 1,
            give_back-next m k rest r w size in_node small past ∙ ap one_more e,
            record {
              bytes =
                  left.bytes
                  ∙ sym (
                      drop-append_ge size here behind (omega (arith, past, len))
                      ∙ ap (λ n. drop (size - n) behind) len);
              some_left = left.some_left;
              in_first = left.in_first;
              in_node = left.in_node;
            },
          )
    ]

-- Taking `size` bytes that are there drops them from the readable ones, and leaves the chain valid.
pub commit_read-drop :
    (size : ℕ) {s : Stream}
    → IsValid s
    → size < ulong_mod
    → size ≤ length (contents s)
    → (t : Stream) × (commit_read size s ≡ some t)
      × IsValid t
      × (contents t ≡ drop size (contents s))
unfolding commit_read contents
commit_read-drop size {s} v small enough =
    let (kept, r', freed, e, left) =
      give_back-drop s.nodes s.reader s.writer size v.some_node v.ordered v.reader_in v.writer_in
        small enough in
    let there : leb size s.readable ≡ true = ground (arith, v.counted, enough) in
    (
      record s {
        nodes = kept;
        reader = r';
        readable = s.readable - size;
        next_node = moved_back freed s.next_node;
      },
      rw (there, e) refl,
      record {
        ordered = left.in_first;
        some_node = left.some_left;
        reader_in = left.in_node;
        writer_in = v.writer_in;
        counted = omega (
          arith,
          v.counted,
          ap length left.bytes,
          length-drop size (chain s.nodes s.reader s.writer),
        );
        claim_in = v.claim_in;
      },
      left.bytes,
    )

pub portion_lem :
    (asked : ℕ) (s : Stream)
    → portion asked s ≡ min asked (min s.readable (max_packet_len - s.reader))
unfolding portion
portion_lem asked s = refl
