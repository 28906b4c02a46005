-- ===== src/Controller/Turns/Tests.antt =====
-- A message in two parts; while its handler ends, another one comes in.
use utility_engine_old.Base.{ℕ, ◌≡◌, refl, inl, true, some, List, [], ◌∷◌, ◌++◌, arith}
use utility_engine_old.Controller.{Controller}
use utility_engine_old.Controller.Orderly.{stream}
use utility_engine_old.Controller.Turns.{Shift, Event, run, receives, takes, looks_at, ends}
use utility_engine_old.Controller.Turns.{goes_on}
use utility_engine_old.Controller.Turns.Manned.{Manned}
use utility_engine_old.Controller.Turns.Run.{run-Manned}
use utility_engine_old.Session.Sample.{cleared}

abbrev most : ℕ
most = 1000

-- A session that was just connected: nothing is read, and the system has room to put bytes into.
abbrev connected : Controller
connected = record {
  recv = record cleared { last_malloc = 4095 };
  m_size = 0;
  key = 5;
  queue = [];
  taken = [];
  errors = [];
  closed = 0;
}

abbrev nobody : Shift
nobody = record { controller = connected; workers = [] }

nobody-Manned : Manned most nobody
nobody-Manned = record {
  valid = record {
    made = refl;
    big = omega arith;
    small = omega arith;
    final_eq = refl;
    reader_in = omega arith;
    writer_in = omega arith;
    copy_in = omega arith;
    copy_none = omega arith;
    copy_le = omega arith;
    mirror = λ i lt. absurd (omega arith);
    claim_in = omega arith;
    claim_room = omega arith;
  };
  framed = tt;
  team = inl (record {
    none_queued = refl;
    idle = refl;
    no_limit = refl;
    short = inl (record { no_size = refl; at_start = refl }, omega arith);
  });
}

abbrev two_messages : List Event
two_messages =
    receives (6 ∷ 0 ∷ 0 ∷ [])
    ∷ takes
    ∷ receives (0 ∷ 7 ∷ 8 ∷ 5 ∷ [])
    ∷ takes
    ∷ looks_at 0 5
    ∷ ends 0 true
    ∷ receives (0 ∷ 0 ∷ 0 ∷ 9 ∷ [])
    ∷ takes
    ∷ goes_on 0
    ∷ takes
    ∷ []

run-Manned_example :
    (came : List ℕ) × (u : Shift) × (run most two_messages nobody ≡ some (came, u))
    × Manned most u
    × (stream u.controller ≡ [] ++ came)
run-Manned_example = run-Manned most two_messages nobody (omega arith) nobody-Manned
