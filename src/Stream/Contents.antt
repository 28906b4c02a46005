-- ===== src/Stream/Contents.antt =====
-- The bytes that a chain of nodes holds, in order: the abstract view of `stream_buffer`.
use utility_engine_old.Stream.{max_packet_len, Stream, clear}
use utility_engine_old.Base.{ℕ, ◌+◌, ◌-◌, ◌≤◌, ◌<◌, ◌≡◌, refl, ap, ◌∙◌, true, false, List, [], ◌∷◌}
use utility_engine_old.Base.{◌++◌, arith, ltb, leb, length, get_or, take, drop, length-tabulate}
use utility_engine_old.Base.{tabulate-get_or, tabulate_cong, take-tabulate, drop-tabulate_of_eq}
use utility_engine_old.Base.{tabulate-add, poke, peek, Memory}

-- From the reader of the first node to the writer of the last; the nodes between are full.
unfoldable pub chain : List Memory → ℕ → ℕ → List ℕ
chain [] r w = []
chain (n ∷ []) r w = peek n r (w - r)
chain (n ∷ m ∷ rest) r w = peek n r (max_packet_len - r) ++ chain (m ∷ rest) 0 w

unfoldable pub contents : Stream → List ℕ
unfolding chain
contents s = chain s.nodes s.reader s.writer

-- How far the first node holds bytes.
unfoldable pub first_end : List Memory → ℕ → ℕ
first_end [] w = 0
first_end (n ∷ []) w = w
first_end (n ∷ m ∷ rest) w = max_packet_len

pub record IsValid (s : Stream) : Type 0 where
  pub ordered : s.reader ≤ first_end s.nodes s.writer
  pub some_node : 0 < length s.nodes
  pub reader_in : s.reader < max_packet_len
  pub writer_in : s.writer < max_packet_len
  pub counted : s.readable ≡ length (contents s)
  pub claim_in : s.writer + s.last_malloc ≤ max_packet_len

module _ (m : Memory) where
  pub length-peek : (p n : ℕ) → length (peek m p n) ≡ n
  length-peek p n = length-tabulate n (λ k. m (p + k))

  pub peek-add : (p n k : ℕ) → peek m p (n + k) ≡ peek m p n ++ peek m (p + n) k
  peek-add p n k =
      tabulate-add n k (λ i. m (p + i))
      ∙ ap (λ l. peek m p n ++ l)
          (tabulate_cong k (λ i. m (p + (n + i))) (λ i. m (p + n + i)) (λ i lt. ap m (omega arith)))

  pub take-peek : (p n k : ℕ) → n ≤ k → take n (peek m p k) ≡ peek m p n
  take-peek p n k h = take-tabulate n k (λ i. m (p + i)) h

  pub drop-peek : (p n k : ℕ) → n ≤ k → drop n (peek m p k) ≡ peek m (p + n) (k - n)
  drop-peek p n k h =
      drop-tabulate_of_eq n k (k - n) (λ i. m (p + i)) (omega arith)
      ∙ tabulate_cong (k - n) (λ i. m (p + (n + i))) (λ i. m (p + n + i))
          (λ i lt. ap m (omega arith))

  -- What was written is read back, and nothing else is changed.
  pub peek-poke_self : (p : ℕ) (bytes : List ℕ) → peek (poke m p bytes) p (length bytes) ≡ bytes
  peek-poke_self p bytes =
      tabulate_cong (length bytes) (λ k. poke m p bytes (p + k)) (λ k. get_or bytes k 0)
        (λ k lt. inside k lt)
      ∙ tabulate-get_or bytes 0
    where
      inside : (k : ℕ) → k < length bytes → poke m p bytes (p + k) ≡ get_or bytes k 0
      inside k lt =
          let back : p + k - p ≡ k = omega arith in
          let low : leb p (p + k) ≡ true = ground arith in
          let high : ltb k (length bytes) ≡ true = ground (arith, lt) in rw (back, low, high) refl

  pub peek-poke_below :
      (p n w : ℕ) (bytes : List ℕ) → p + n ≤ w → peek (poke m w bytes) p n ≡ peek m p n
  peek-poke_below p n w bytes h =
      tabulate_cong n (λ k. poke m w bytes (p + k)) (λ k. m (p + k)) (λ k lt. outside k lt)
    where
      outside : (k : ℕ) → k < n → poke m w bytes (p + k) ≡ m (p + k)
      outside k lt = let low : leb w (p + k) ≡ false = ground (arith, lt, h) in rw low refl

-- A cleared chain is valid and empty.
pub clear-IsValid : (fresh : Memory) → IsValid (clear fresh) × (contents (clear fresh) ≡ [])
unfolding clear contents
clear-IsValid fresh = (
  record {
    ordered = omega arith;
    some_node = omega arith;
    reader_in = omega arith;
    writer_in = omega arith;
    counted = refl;
    claim_in = omega arith;
  },
  refl,
)
