-- ===== src/Epoll/Accepting/Tests.antt =====
-- A server that accepts four connections.

use utility_engine_old.Base.{true, List, [], ◌∷◌, ◌==◌, if◌then◌else◌}
use utility_engine_old.Epoll.Accepting.Kept.{Kept}
use utility_engine_old.Epoll.Accepting.{Accepted, Accepting, taken}
use utility_engine_old.Epoll.Accepting.{accept_interrupted, would_block}
use utility_engine_old.Responder.{Responder}

-- A server with three free sessions out of four, and one connection more than them.
abbrev server : Responder
server = record {
  running = true;
  sessions = record {
    base = 100;
    offset = λ i. if i == 0 then 254 else 0;
    next = 1;
    left = 3;
    size = 4;
  };
  accepts = record { base = 200; offset = λ i. 0; next = 0; left = 1; size = 1 };
  promised = 0;
  calls = [];
}

abbrev connections : List Accepted
connections =
    taken 7 true
    ∷ accept_interrupted
    ∷ taken 8 true
    ∷ taken 9 true
    ∷ taken 10 true
    ∷ would_block
    ∷ []
