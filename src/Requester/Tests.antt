-- ===== src/Requester/Tests.antt =====
-- A client that connects, stops, and fails at its second connection.

use utility_engine_old.Base.{◌≡◌, refl}
use utility_engine_old.Base.{inl, some, List}
use utility_engine_old.Base.{[], ◌∷◌, arith}
use utility_engine_old.Requester.{Requester, connect, start, stop}
use utility_engine_old.Requester.{on_close_session, Event, run, state_none}
use utility_engine_old.Requester.{state_connecting, state_timeout}
use utility_engine_old.Requester.{connects, times_out, breaks, starts, stops}
use utility_engine_old.Requester.{session_closes}
use utility_engine_old.Requester.Lifetime.{Settled, run-Settled}

abbrev down : Requester
down = record { state = state_none; calls = []; promised = 0 }

abbrev life : List Event
life = starts connects ∷ stops ∷ session_closes ∷ starts (breaks 4) ∷ starts connects ∷ stops ∷ []

run-life : (run life down).state ≡ state_connecting
unfolding run start stop connect on_close_session
run-life = refl

start-timeout : (start times_out down).0 ≡ some state_timeout
unfolding start connect
start-timeout = refl

down-Settled : Settled down
down-Settled = record { between = inl refl; left_open = 0; open_eq = refl; left_few = omega arith }

run-Settled_example : Settled (run life down)
run-Settled_example = run-Settled life down down-Settled
