-- ===== src/Rotative/Tests.antt =====
-- Runs of `rotative_buffer`, and its theorems at a buffer whose bytes wrap round the end.
use utility_engine_old.Base.{ℕ, ◌+◌, ◌-◌, ◌%◌, ◌<◌, ◌≡◌, refl, true, some, List, [], ◌∷◌, ◌++◌}
use utility_engine_old.Base.{arith, ltb, if◌then◌else◌, Memory}
use utility_engine_old.Rotative.{max_packet_len, Rotative, read, next}
use utility_engine_old.Rotative.Invariant.{IsValid}
use utility_engine_old.Rotative.Contents.{contents}
use utility_engine_old.Rotative.Traffic.{rotative, run-fifo}
use utility_engine_old.Buffer.Traffic.{on_store, on_fetch, run}
use utility_engine_old.Rotative.Cursor.{next-overrun}

abbrev noise : Memory
noise i = i % 251

-- Six bytes before the end and five at the head, three of them copied behind the end.
abbrev wrapped : Rotative
wrapped = record {
  allocated = true;
  buffer = λ i. if ltb i 4096 then i % 251 else (i - 4096) % 251;
  reader = 4090;
  writer = 5;
  final = 4096;
  last_copy = 3;
  last_read = 8;
  size = 4096;
  last_malloc = 4;
  limit = 10;
  pos = 2;
}

wrapped-IsValid : IsValid wrapped
wrapped-IsValid = record {
  made = refl;
  big = omega arith;
  small = omega arith;
  final_eq = refl;
  reader_in = omega arith;
  writer_in = omega arith;
  copy_in = omega arith;
  copy_none = omega arith;
  copy_le = omega arith;
  mirror = λ i lt. ground arith;
  claim_in = omega arith;
  claim_room = omega arith;
}

abbrev two_bytes : List ℕ
two_bytes = 7 ∷ 9 ∷ []

contents-wrapped : contents wrapped ≡ 74 ∷ 75 ∷ 76 ∷ 77 ∷ 78 ∷ 79 ∷ 0 ∷ 1 ∷ 2 ∷ 3 ∷ 4 ∷ []
contents-wrapped = refl

-- Ten of eleven bytes: one more byte is copied behind the end than lay there.
read_copies : (read 10 wrapped).1 ≡ 10
unfolding read
read_copies = refl

run-fifo_example :
    (ins outs : List ℕ) × (s : Rotative) × (run rotative
        (on_store two_bytes ∷ on_fetch 3 ∷ on_fetch 0 ∷ [])
        wrapped
      ≡ some (ins, outs, s))
    × IsValid s
    × (outs ++ contents s ≡ contents wrapped ++ ins)
run-fifo_example = run-fifo (on_store two_bytes ∷ on_fetch 3 ∷ on_fetch 0 ∷ []) wrapped-IsValid

-- Nearly a whole packet more than can lie behind the end.
abbrev far : Rotative
far = record {
  allocated = true;
  buffer = noise;
  reader = 20000;
  writer = 9000;
  final = 20480;
  last_copy = 0;
  last_read = 0;
  size = 20480;
  last_malloc = 0;
  limit = 0;
  pos = 0;
}

far-IsValid : IsValid far
far-IsValid = record {
  made = refl;
  big = omega arith;
  small = omega arith;
  final_eq = refl;
  reader_in = omega arith;
  writer_in = omega arith;
  copy_in = omega arith;
  copy_none = omega arith;
  copy_le = omega arith;
  mirror = λ i lt. absurd (omega arith);
  claim_in = omega arith;
  claim_room = omega arith;
}

next-overrun_example :
    ((next 0 far).0 ≡ some 20000) × (far.size + max_packet_len + 1 < 20000 + (next 0 far).1)
next-overrun_example = next-overrun far-IsValid refl refl (omega arith) (omega arith)
