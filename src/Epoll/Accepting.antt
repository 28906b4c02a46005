-- ===== src/Epoll/Accepting.antt =====
-- The part of `process_event` for a server (UtilityEngine/src/net_io_service_epoll.cpp), with
-- `track_session` for the sessions that the server gives. A session is the number of its element in
-- the server's pool; its `bind` and its descriptor's data stay outside.
pub mod Ledger
pub mod Kept
mod Tests
use utility_engine_old.Base.{ℕ, zero, suc, ◌+◌, ◌-◌, ◌*◌, ◌/◌, ◌%◌, ◌^◌, ◌≤◌, ◌<◌, min, max}
use utility_engine_old.Base.{bit_and, bit_or, bit_xor, ◌≡◌, refl, sym, ap, ap₂, ◌∙◌, ◌≢◌, ◌↔◌, ◌⊎◌}
use utility_engine_old.Base.{inl, inr, Bool, true, false, not, ◌&&◌, ◌||◌, Option, none, some, List}
use utility_engine_old.Base.{[], ◌∷◌, ◌++◌, map, arith, ltb, leb, ◌==◌, if◌then◌else◌, Bool-cases}
use utility_engine_old.Base.{ltb→lt, ltb→ge, lt→ltb, le→ltb, ==→eq, eq→==, check, sub_ulong}
use utility_engine_old.Base.{ulong_mod, length, get_elem?, get_or, set, take, drop, tabulate}
use utility_engine_old.Base.{replicate, length-append, length-set, length-tabulate, length-take}
use utility_engine_old.Base.{length-drop, take-append-drop, take-append, drop-append, drop-drop}
use utility_engine_old.Base.{take-append_le, drop-append_le, take-append_ge, drop-append_ge}
use utility_engine_old.Base.{drop-length, take-length, get_or-set_self, get_or-set_ne}
use utility_engine_old.Epoll.{Outcome, ok, throws}
use utility_engine_old.Factory.{Factory}
use utility_engine_old.Responder.{Responder, Call, process_accept, close_fd, close_session}
use utility_engine_old.Responder.{set_connected, on_connect, init_buffer, track_server}
use utility_engine_old.Responder.{untrack_server, close_socket, get_session}
use utility_engine_old.Factory

-- What `accept` answers: a descriptor, with whether `epoll_ctl` then adds it; an interruption; that
-- no connection waits; another error. In between another thread may have called the server's `stop`.
pub data Accepted : Type 0 where
  taken : ℕ → Bool → Accepted
  accept_interrupted would_block accept_failed stop_called : Accepted

-- `track_session`, with whether the service is running: the sessions then watched, and the server. If
-- the descriptor is not added, the session is asked to close, and that throws.
abbrev pub track_session : Bool → Bool → ℕ → Responder → Outcome (List ℕ) × Responder
track_session up added p r =
    if not up
    then (ok [], r)
    else (if added
        then (ok (p ∷ []), r)
        else (throws, record r { calls = r.calls ++ close_session p ∷ [] }))

-- What the loop leaves: whether it threw, the descriptors that `accept` gave, the sessions watched, and
-- the server.
pub record Accepting : Type 0 where
  pub outcome : Outcome (Unit {0})
  pub taken_fds : List ℕ
  pub watched : List ℕ
  pub server : Responder

module _ (m : ℕ) (up : Bool) where
  -- What is done with one descriptor.
  unfoldable pub settle : Bool → ℕ → Responder → Outcome (List ℕ) × Responder
  unfolding process_accept
  settle added fd r =
      let t = (process_accept m fd r).1 in
      elim (process_accept m fd r).0 [ none ↦ (ok [], t) | some p ↦ track_session up added p t ]

  -- The loop on `accept`; `none` is the end of the answers.
  unfoldable pub accept_loop : List Accepted → Responder → Option Accepting
  unfolding settle
  accept_loop [] r = none
  accept_loop (accept_interrupted ∷ answers) r = accept_loop answers r
  accept_loop (stop_called ∷ answers) r = accept_loop answers (record r { running = false })
  accept_loop (would_block ∷ answers) r =
      some (record { outcome = ok tt; taken_fds = []; watched = []; server = r })
  accept_loop (accept_failed ∷ answers) r = some (record {
    outcome = if not r.running then ok tt else throws;
    taken_fds = [];
    watched = [];
    server = r;
  })
  accept_loop (taken fd added ∷ answers) r = elim (settle added fd r).0 [
    | throws ↦ some (record {
      outcome = throws;
      taken_fds = fd ∷ [];
      watched = [];
      server = (settle added fd r).1;
    })
    | ok ps ↦ elim (accept_loop answers (settle added fd r).1) [
      | none ↦ none
      | some a ↦ some (record a { taken_fds = fd ∷ a.taken_fds; watched = ps ++ a.watched })
    ]
  ]

  -- The whole part, on the server's descriptor, with the answer of `epoll_ctl` that arms it again; the
  -- event has disarmed it. The Boolean is whether it is armed.
  unfoldable pub on_acceptable :
      Bool → Bool → List Accepted → Responder → Option (Outcome Bool × Accepting)
  unfolding accept_loop
  on_acceptable opened armed_again answers r =
      if not opened
      then some (ok false, record { outcome = ok tt; taken_fds = []; watched = []; server = r })
      else elim (accept_loop answers r) [
        | none ↦ none
        | some a ↦ elim a.outcome [
          | throws ↦ some (throws, a)
          | ok _ ↦
              if armed_again
              then some (ok true, a)
              else (if not a.server.running then some (ok false, a) else some (throws, a))
        ]
      ]
