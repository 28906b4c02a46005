-- ===== src/Iocp/Accepting/Tests.antt =====
-- A server with one session left and two operations under way.

use utility_engine_old.Base.{true, List, [], ◌∷◌, ◌==◌, if◌then◌else◌}
use utility_engine_old.Iocp.Accepting.Kept.{run-Account}
use utility_engine_old.Iocp.Accepting.Placed.{Account, UnderWay}
use utility_engine_old.Iocp.Accepting.{Listener, Event, run, posted_done, posting_waits, tracked}
use utility_engine_old.Iocp.Accepting.{connection, failure, stops}

abbrev listening : Listener
listening = record {
  server = record {
    running = true;
    sessions = record {
      base = 100;
      offset = λ i. if i == 0 then 254 else 0;
      next = 1;
      left = 1;
      size = 2;
    };
    accepts = record { base = 200; offset = λ i. 0; next = 0; left = 0; size = 2 };
    promised = 0;
    calls = [];
  };
  pending = 5 ∷ 6 ∷ [];
}

-- The second operation ends, then the first with no session left, one fails, and the server is stopped.
abbrev events : List Event
events =
    connection 1 tracked 7 posting_waits
    ∷ connection 0 tracked 8 posted_done
    ∷ failure 0 9 posting_waits
    ∷ stops
    ∷ connection 0 tracked 10 posting_waits
    ∷ []

run-Account_example :
    Account
      (run 256 true events listening).0
      (run 256 true events listening).1
      listening
      (run 256 true events listening).2
    × UnderWay (run 256 true events listening).0 0 listening (run 256 true events listening).2
run-Account_example = run-Account 256 true events listening
