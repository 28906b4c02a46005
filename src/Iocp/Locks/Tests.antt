-- ===== src/Iocp/Locks/Tests.antt =====
-- A packet that comes in between the two calls of an operation's end.
use utility_engine_old.Base.{ℕ, ◌≡◌, refl, true, false, inl, some, List, [], ◌∷◌, ◌++◌}
use utility_engine_old.Epoll.{running}
use utility_engine_old.Iocp.{under_way}
use utility_engine_old.Iocp.Locks.{Race, Event, run, writes, commits, reads_first, ends_with}
use utility_engine_old.Iocp.Locks.{reads_next, closes}
use utility_engine_old.Iocp.Locks.Single.{Single}
use utility_engine_old.Iocp.Locks.Run.{run-Single}
use utility_engine_old.Session.{connect_peer_close}
use utility_engine_old.Session.Sample.{cleared-IsValid, opened}

abbrev resting : Race
resting = record {
  line = record { session = opened; recvs = 1; sends = 0; sent = [] };
  between = 0;
  asked = false;
  at_end = true;
}

resting-Single : Single resting []
resting-Single = record {
  valid = cleared-IsValid;
  mode = inl (record {
    no_op = refl;
    no_end = refl;
    not_asked = refl;
    idle = refl;
    nothing = λ _. refl;
    all_there = refl;
  });
}

abbrev calls : List Event
calls =
    writes 3
    ∷ commits 1 (2 ∷ 3 ∷ []) true
    ∷ reads_first under_way
    ∷ ends_with 3
    ∷ writes 1
    ∷ commits 4 [] true
    ∷ reads_next under_way
    ∷ reads_first under_way
    ∷ closes connect_peer_close
    ∷ ends_with 1
    ∷ []

run-Single_example :
    (came : List ℕ) × (t : Race) × (run running calls resting ≡ some (came, t))
    × Single t ([] ++ came)
run-Single_example = run-Single running calls resting [] resting-Single
