-- ===== src/Requester.antt =====
-- The client side, `requester` (UtilityEngine/include/net_requester.hpp,
-- UtilityEngine/include/net_requester.inl): its states, and the calls of the session, the I/O service
-- and the promise that `join` waits for. Whether the socket connects, in time or not, is an argument.
pub mod Lifetime
mod Tests
use utility_engine_old.Base.{ℕ, zero, suc, ◌+◌, ◌-◌, ◌*◌, ◌/◌, ◌%◌, ◌^◌, ◌≤◌, ◌<◌, min, max}
use utility_engine_old.Base.{bit_and, bit_or, bit_xor, ◌≡◌, refl, sym, ap, ap₂, ◌∙◌, ◌≢◌, ◌↔◌, ◌⊎◌}
use utility_engine_old.Base.{inl, inr, Bool, true, false, not, ◌&&◌, ◌||◌, Option, none, some, List}
use utility_engine_old.Base.{[], ◌∷◌, ◌++◌, map, arith, ltb, leb, ◌==◌, if◌then◌else◌, Bool-cases}
use utility_engine_old.Base.{ltb→lt, ltb→ge, lt→ltb, le→ltb, ==→eq, eq→==, check, sub_ulong}
use utility_engine_old.Base.{ulong_mod, length, get_elem?, get_or, set, take, drop, tabulate}
use utility_engine_old.Base.{replicate, length-append, length-set, length-tabulate, length-take}
use utility_engine_old.Base.{length-drop, take-append-drop, take-append, drop-append, drop-drop}
use utility_engine_old.Base.{take-append_le, drop-append_le, take-append_ge, drop-append_ge}
use utility_engine_old.Base.{drop-length, take-length, get_or-set_self, get_or-set_ne}

-- `requester_iface::state`
pub data State : Type 0 where
  state_none state_starting state_connecting state_connected state_timeout state_stopping : State

-- What `connect` of the socket does; or, when it has connected, that one of the calls that follow
-- throws, after which as many of them were made, itself included.
pub data Answer : Type 0 where
  connects times_out fails : Answer
  breaks : ℕ → Answer

pub data Call : Type 0 where
  net_init net_free on_start on_stop set_connected on_connect init_buffer track_session
        close_session :
      Call

pub record Requester : Type 0 where
  pub state : State
  pub calls : List Call
  -- how often `set_value` was called on the promise of this connection; twice is an error
  pub promised : ℕ

-- The calls of a connection.
abbrev pub connection : List Call
connection = set_connected ∷ on_connect ∷ init_buffer ∷ track_session ∷ []

-- `connect`; `none` is the throw, which goes on to the caller.
unfoldable pub connect : Answer → Requester → Option Bool × Requester
connect answer r =
    let busy = record r { state = state_connecting } in
    elim r.state [
      | state_starting ↦ elim answer [
        | connects ↦ (
          some true,
          record busy { calls = r.calls ++ connection; promised = 0; state = state_connected },
        )
        | times_out ↦ (some false, busy)
        | fails ↦ (none, busy)
        | breaks n ↦ (none, record busy { calls = r.calls ++ take n connection })
      ]
      | state_none ↦ (some false, r)
      | state_connecting ↦ (some false, r)
      | state_connected ↦ (some false, r)
      | state_timeout ↦ (some false, r)
      | state_stopping ↦ (some false, r)
    ]

-- `start`: the state it answers, or `none` where it throws.
unfoldable pub start : Answer → Requester → Option State × Requester
unfolding connect
start answer r =
    let begun = record r { state = state_starting; calls = r.calls ++ net_init ∷ on_start ∷ [] } in
    elim r.state [
      | state_none ↦ elim (connect answer begun).0 [
        | none ↦ (none, (connect answer begun).1)
        | some up ↦
            if up
            then (some state_connected, (connect answer begun).1)
            else (some state_timeout, record (connect answer begun).1 { state = state_none })
      ]
      | state_starting ↦ (some state_starting, r)
      | state_connecting ↦ (some state_connecting, r)
      | state_connected ↦ (some state_connected, r)
      | state_timeout ↦ (some state_timeout, r)
      | state_stopping ↦ (some state_stopping, r)
    ]

-- `stop`
unfoldable pub stop : Requester → Requester
stop r = elim r.state [
  | state_connected ↦ record r {
    state = state_none;
    calls = r.calls ++ close_session ∷ on_stop ∷ net_free ∷ [];
  }
  | state_none ↦ r
  | state_starting ↦ r
  | state_connecting ↦ r
  | state_timeout ↦ r
  | state_stopping ↦ r
]

-- `on_close_session`
unfoldable pub on_close_session : Requester → Requester
on_close_session r = record r { promised = r.promised + 1 }

-- The calls that the user and the session make.
pub data Event : Type 0 where
  starts : Answer → Event
  stops session_closes : Event

unfoldable pub run : List Event → Requester → Requester
unfolding start stop on_close_session
run [] r = r
run (starts answer ∷ es) r = run es (start answer r).1
run (stops ∷ es) r = run es (stop r)
run (session_closes ∷ es) r = run es (on_close_session r)
