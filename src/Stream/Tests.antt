-- ===== src/Stream/Tests.antt =====
-- Runs of the chain of nodes over the end of a node.

use utility_engine_old.Base.{ℕ, ◌≡◌, refl, true, none, some, List, [], ◌∷◌, ◌++◌, arith}
use utility_engine_old.Stream.{Stream, readable_size, read, give_back, commit_read, commit_write}
use utility_engine_old.Stream.{next}
use utility_engine_old.Buffer.Traffic.{on_store, on_fetch, run}
use utility_engine_old.Buffer.Transfer.{put_all, take_all}
use utility_engine_old.Stream.Contents.{contents, IsValid, first_end}
use utility_engine_old.Stream.Traffic.{stream, run-chain, take_all-put_all}

abbrev full_node : Stream
full_node = record {
  nodes = (λ i. i) ∷ (λ i. 7) ∷ [];
  writer = 3;
  reader = 4090;
  readable = 9;
  last_read = 0;
  last_malloc = 0;
  next_node = some 0;
  out = 4090;
  limit = 0;
  pos = 0;
}

-- The size granted ends with the node.
read_to_the_end : (read 100 full_node).1 ≡ 6
unfolding read
read_to_the_end = refl

-- Eight bytes of nine are taken: the first node goes back, and with it the cursor's.
taken_over_the_end :
    commit_read 8 full_node
    ≡ some (record full_node { nodes = (λ i. 7) ∷ []; reader = 2; readable = 1; next_node = none })
unfolding commit_read give_back
taken_over_the_end = refl

-- The node is full: the next one is put behind it.
written_to_the_end :
    commit_write (λ i. 0) 4 (record full_node { writer = 4092; last_malloc = 4 })
    ≡ some (
      true,
      record full_node { nodes = (λ i. i) ∷ (λ i. 7) ∷ (λ i. 0) ∷ []; writer = 0; readable = 13 },
    )
unfolding commit_write
written_to_the_end = refl

-- The cursor goes on to the next node.
portion_to_the_end :
    next 0 full_node
    ≡ some (
      some (0, 4090),
      6,
      record full_node { last_read = 9; pos = 6; next_node = some 1; out = 0 },
    )
unfolding next readable_size
portion_to_the_end = refl

full_node-IsValid : IsValid full_node
unfolding first_end contents
full_node-IsValid = record {
  ordered = omega arith;
  some_node = omega arith;
  reader_in = omega arith;
  writer_in = omega arith;
  counted = refl;
  claim_in = omega arith;
}

abbrev two_bytes : List ℕ
two_bytes = 7 ∷ 9 ∷ []

run-chain_example :
    (ins outs : List ℕ) × (t : Stream) × (run
        (stream (λ i. 0))
        (on_store two_bytes ∷ on_fetch 8 ∷ on_fetch 8 ∷ [])
        full_node
      ≡ some (ins, outs, t))
    × IsValid t
    × (outs ++ contents t ≡ contents full_node ++ ins)
run-chain_example =
    run-chain (λ i. 0) (on_store two_bytes ∷ on_fetch 8 ∷ on_fetch 8 ∷ []) full_node-IsValid

take_all-put_all_example :
    (t u : Stream) × (put_all (stream (λ i. 0)) 2 two_bytes full_node ≡ some t)
    × (take_all (stream (λ i. 0)) 12 5 t ≡ some (contents full_node ++ two_bytes, u))
    × IsValid u
    × (contents u ≡ [])
unfolding contents
take_all-put_all_example =
    take_all-put_all (λ i. 0) 5 two_bytes full_node-IsValid (omega arith) (omega arith)
      (omega arith)
