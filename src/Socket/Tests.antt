-- ===== src/Socket/Tests.antt =====
-- The sockets on small inputs.

use utility_engine_old.Base.{◌≡◌, refl, true, false, none, some, [], ◌∷◌}
use utility_engine_old.Socket.Bind.{Held, bind-until_close}
use utility_engine_old.Socket.Connect.{Finished, connect-Finished}
use utility_engine_old.Epoll.{ok}
use utility_engine_old.Socket.{Socket, close, create_socket, set_blocking, select_loop}
use utility_engine_old.Socket.{finish_connect, Answers, connect, bind, at_once, going_on}
use utility_engine_old.Socket.{select_interrupted, select_timeout, select_ready}

abbrev fresh : Socket
fresh = record {
  fd = none;
  host = [];
  port = 7;
  six = false;
  blocking = true;
  opened = 0;
  closed = 0;
}

-- A connection made at once under a time limit, and one that `select` reports.
abbrev soon : Answers
soon = record {
  created = some 3;
  resolved = true;
  mode_set = true;
  connected = at_once;
  selected = select_timeout ∷ [];
  mode_back = true;
}

abbrev later : Answers
later = record soon { connected = going_on; selected = select_interrupted ∷ select_ready true ∷ [] }

abbrev late : Answers
late = record soon { connected = going_on; selected = select_interrupted ∷ select_timeout ∷ [] }

soon_left_non_blocking :
    connect soon (49 ∷ []) 80 500 fresh
    ≡ some (
      ok true,
      record {
        fd = some 3;
        host = 49 ∷ [];
        port = 7;
        six = false;
        blocking = false;
        opened = 1;
        closed = 0;
      },
    )
unfolding connect create_socket set_blocking finish_connect
soon_left_non_blocking = refl

later_blocks :
    connect later (49 ∷ 58 ∷ []) 80 500 fresh
    ≡ some (
      ok true,
      record {
        fd = some 3;
        host = 49 ∷ 58 ∷ [];
        port = 7;
        six = true;
        blocking = true;
        opened = 1;
        closed = 0;
      },
    )
unfolding connect create_socket set_blocking finish_connect select_loop
later_blocks = refl

late_closed :
    connect late (49 ∷ []) 80 500 fresh
    ≡ some (
      ok false,
      record {
        fd = none;
        host = 49 ∷ [];
        port = 7;
        six = false;
        blocking = false;
        opened = 1;
        closed = 1;
      },
    )
unfolding connect create_socket set_blocking finish_connect select_loop close
late_closed = refl

connect-Finished_example : Finished fresh (connect later (49 ∷ []) 80 500 fresh) true
connect-Finished_example = connect-Finished later (49 ∷ []) 80 500 fresh tt refl refl

bind-until_close_example : Held 5 (bind (some 5) true false (49 ∷ []) 80 fresh)
bind-until_close_example = bind-until_close 5 true false (49 ∷ []) 80 fresh refl refl
