-- ===== src/Epoll/Tests.antt =====
-- Runs of the epoll service, and its theorems at a session with three bytes to send.
use utility_engine_old.Base.{ℕ, ◌+◌, ◌≡◌, refl, Bool, true, false, some, List, [], ◌∷◌, ◌++◌}
use utility_engine_old.Base.{arith}
use utility_engine_old.Session.{Session, is_connected, process_recv}
use utility_engine_old.Epoll.{Service, Outcome, write_loop, filled_in, Watch, running}
use utility_engine_old.Epoll.{count, interrupted, again}
use utility_engine_old.Rotative.{Rotative, readable_size}
use utility_engine_old.Rotative.Invariant.{IsValid}
use utility_engine_old.Rotative.Contents.{contents}
use utility_engine_old.Session.Sample.{cleared, opened}
use utility_engine_old.Epoll.Sending.{Offering, write_loop-sent}
use utility_engine_old.Epoll.Receiving.{Awaiting, process_recv-append, Reads}
use utility_engine_old.Rotative.Read.{readable_size_lem}

abbrev three_bytes : Rotative
three_bytes = record cleared { buffer = λ i. i + 65; writer = 3; last_read = 3 }

three_bytes-IsValid : IsValid three_bytes
three_bytes-IsValid = record {
  made = refl;
  big = omega arith;
  small = omega arith;
  final_eq = refl;
  reader_in = omega arith;
  writer_in = omega arith;
  copy_in = omega arith;
  copy_none = omega arith;
  copy_le = omega arith;
  mirror = λ i lt. absurd (omega arith);
  claim_in = omega arith;
  claim_room = omega arith;
}

abbrev sending : Session
sending = record opened { send_buffer = three_bytes; send_buf = 0; send_len = 3 }

sending-Offering : Offering sending
sending-Offering = record {
  valid = three_bytes-IsValid;
  some_bytes = omega arith;
  granted = omega arith;
  there = omega arith;
  next_ones = refl;
}

write_loop-sent_example :
    (r : Outcome Bool) × (sent : List ℕ) × (t : Session) × (write_loop
        (count 2 ∷ interrupted ∷ count 7 ∷ again ∷ [])
        sending
      ≡ some (r, sent, t))
    × (sent ++ contents t.send_buffer ≡ contents three_bytes)
write_loop-sent_example =
    write_loop-sent (count 2 ∷ interrupted ∷ count 7 ∷ []) sending sending-Offering refl

abbrev receiving : Session
receiving = record opened { recv = record cleared { last_malloc = 4095 }; recv_len = 4095 }

receiving-Awaiting : Awaiting receiving
receiving-Awaiting = record {
  valid = record {
    made = refl;
    big = omega arith;
    small = omega arith;
    final_eq = refl;
    reader_in = omega arith;
    writer_in = omega arith;
    copy_in = omega arith;
    copy_none = omega arith;
    copy_le = omega arith;
    mirror = λ i lt. absurd (omega arith);
    claim_in = omega arith;
    claim_room = omega arith;
  };
  at_writer = refl;
  claimed = refl;
}

abbrev two_bytes : List ℕ
two_bytes = 7 ∷ 9 ∷ []

-- The parent looks whether a message of two bytes is there, as `comfirm` does.
abbrev looking : Session → Session
looking s = record s { recv = (readable_size 2 s.recv).1 }

looking-Reads : Reads looking
looking-Reads s v = let (a, b, same, w) = readable_size_lem 2 v in (w, same)

process_recv-append_example :
    (b : Bool) × (t : Session) × (process_recv looking 2 (filled_in two_bytes receiving)
      ≡ some (b, t))
    × (contents t.recv ≡ two_bytes)
    × Awaiting t
    × (b ≡ true → is_connected t ≡ true)
    × (t.recv_len ≡ 0 → is_connected t ≡ false)
process_recv-append_example =
    process_recv-append looking two_bytes receiving looking-Reads receiving-Awaiting refl
      (omega arith)

abbrev watching : Watch
watching = record {
  recv_in_use = false;
  send_in_use = false;
  need_send = true;
  armed = false;
  armed_out = false;
}

abbrev serving : Service
serving = record { phase = running; epoll = some 8; threads = 2; multi_threads = true }
