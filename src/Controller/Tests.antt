-- ===== src/Controller/Tests.antt =====
-- An object with a message that is closed.
use utility_engine_old.Base.{ℕ, ◌≡◌, refl, inl, inr, Bool, true, some, List, [], ◌∷◌, arith, ◌==◌}
use utility_engine_old.Base.{if◌then◌else◌}
use utility_engine_old.Controller.Closing.{turns, turns-close_object}
use utility_engine_old.Controller.Orderly.{Orderly}
use utility_engine_old.Session.Sample.{cleared}
use utility_engine_old.Controller.{Controller, close_object, run, request}

abbrev limit_len : ℕ
limit_len = 1000

-- A session that was just connected: nothing is read, and the system has room to put bytes into.
abbrev begun : Controller
begun = record {
  recv = record cleared { last_malloc = 4095 };
  m_size = 0;
  key = 5;
  queue = [];
  taken = [];
  errors = [];
  closed = 0;
}

-- A session whose message of six bytes is there and dispatched.
abbrev loaded : Controller
loaded = record begun {
  recv = record cleared {
    buffer = λ i. if i == 0 then 6 else 0;
    writer = 6;
    last_read = 6;
    limit = 6;
  };
  m_size = 6;
  queue = request 5 ∷ [];
}

loaded-Orderly : Orderly limit_len loaded
loaded-Orderly = record {
  valid = record {
    made = refl;
    big = omega arith;
    small = omega arith;
    final_eq = refl;
    reader_in = omega arith;
    writer_in = omega arith;
    copy_in = omega arith;
    copy_none = omega arith;
    copy_le = omega arith;
    mirror = λ i lt. absurd (omega arith);
    claim_in = omega arith;
    claim_room = omega arith;
  };
  framed = tt;
  mode = inr (
      inl (record {
        one_queued = refl;
        busy = omega arith;
        limited = refl;
        sized = record {
          at_least = omega arith;
          most = omega arith;
          there = omega arith;
          read_off = refl;
        };
        all_there = omega arith;
      }));
}

abbrev two_turns : List (List ℕ × Bool)
two_turns = ([], true) ∷ ([], true) ∷ []

turns-close_object_example :
    (t : Controller) × (run limit_len (turns two_turns) (close_object loaded) ≡ some ([], t))
    × (t.closed ≡ 1)
    × (t.taken ≡ [])
    × (t.errors ≡ [])
    × (t.recv ≡ loaded.recv)
    × (t.queue ≡ [])
turns-close_object_example =
    turns-close_object limit_len two_turns loaded loaded-Orderly (omega arith) (omega arith)
