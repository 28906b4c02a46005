-- ===== src/Epoll.antt =====
-- The I/O service on epoll (UtilityEngine/include/net_io_service_epoll.hpp,
-- UtilityEngine/src/net_io_service_epoll.cpp): what it makes of the system's answers. The answers
-- of `read`, `write` and `epoll_ctl` are arguments; a list that is too short, and an error that the
-- source throws, are told apart from a result.
pub mod Sending
pub mod Receiving
pub mod Writable
pub mod Restart
pub mod Accepting
mod Tests
use utility_engine_old.Base.{ℕ, zero, suc, ◌+◌, ◌-◌, ◌*◌, ◌/◌, ◌%◌, ◌^◌, ◌≤◌, ◌<◌, min, max}
use utility_engine_old.Base.{bit_and, bit_or, bit_xor, ◌≡◌, refl, sym, ap, ap₂, ◌∙◌, ◌≢◌, ◌↔◌, ◌⊎◌}
use utility_engine_old.Base.{inl, inr, Bool, true, false, not, ◌&&◌, ◌||◌, Option, none, some, List}
use utility_engine_old.Base.{[], ◌∷◌, ◌++◌, map, arith, ltb, leb, ◌==◌, if◌then◌else◌, Bool-cases}
use utility_engine_old.Base.{ltb→lt, ltb→ge, lt→ltb, le→ltb, ==→eq, eq→==, check, sub_ulong}
use utility_engine_old.Base.{ulong_mod, length, get_elem?, get_or, set, take, drop, tabulate}
use utility_engine_old.Base.{replicate, length-append, length-set, length-tabulate, length-take}
use utility_engine_old.Base.{length-drop, take-append-drop, take-append, drop-append, drop-drop}
use utility_engine_old.Base.{take-append_le, drop-append_le, take-append_ge, drop-append_ge}
use utility_engine_old.Base.{drop-length, take-length, get_or-set_self, get_or-set_ne, peek, poke}
use utility_engine_old.Session.{Link, Reason, Call, Session, is_connected, close, handle_error}
use utility_engine_old.Session.{set_connected, next_room, clear_session, process_send, process_recv}
use utility_engine_old.Session.{send_loop, send, link_none, link_connected, link_closing}
use utility_engine_old.Session.{service_stop, connect_timeout, connect_peer_close}
use utility_engine_old.Session.{send_buffer_overflow, recv_buffer_overflow, handle_failed, untrack}
use utility_engine_old.Session.{close_socket, post_close, post_recv, post_send}
use utility_engine_old.Rotative.{Rotative}

-- `io_service_epoll::state`
pub data Phase : Type 0 where
  phase_none starting running stopping : Phase

pub record Service : Type 0 where
  pub phase : Phase
  -- `m_epoll`; `none` is -1
  pub epoll : Option ℕ
  pub threads : ℕ
  pub multi_threads : Bool

pub data Outcome {ℓ} (A : Type ℓ) : Type ℓ where
  ok : A → Outcome A
  throws : Outcome A

-- `create_epoll`; `answer` is that of `epoll_create`.
abbrev pub create_epoll : Option ℕ → Service → Outcome Service
create_epoll answer s = elim s.epoll [
  | some e ↦ throws
  | none ↦ elim answer [ none ↦ throws | some e ↦ ok (record s { epoll = some e }) ]
]

-- `start`, with the number of processors for 0 threads. On a throw the state stays `starting`.
unfoldable pub start : Option ℕ → ℕ → ℕ → Service → Outcome Service × Service
start answer processors nthread s = elim s.phase [
  | phase_none ↦
      let begun = record s { phase = starting } in
      let n = if nthread == 0 then processors else nthread in
      elim (create_epoll answer begun) [
        | throws ↦ (throws, begun)
        | ok t ↦
            let up = record t { phase = running; threads = n; multi_threads = ltb 1 n } in
            (ok up, up)
      ]
  | starting ↦ (ok s, s)
  | running ↦ (ok s, s)
  | stopping ↦ (ok s, s)
]

-- `stop` and `close`; `closed` says whether the system closed the descriptor. `close` leaves the
-- descriptor's number in `m_epoll`.
unfoldable pub stop : Bool → Service → Outcome Service × Service
stop closed s = elim s.phase [
  | phase_none ↦ (ok s, s)
  | starting ↦ (throws, s)
  | running ↦
      let down = record s { phase = stopping; threads = 0 } in
      let ended = record down { phase = phase_none } in
      if closed then (ok ended, ended) else (throws, down)
  | stopping ↦ (ok s, s)
]

-- What `write` answers: that it takes so many bytes, or all it is offered if they are fewer, or the
-- error. A count of 0, which `write` does not give for a length above 0, is left to the last branch.
pub data Written : Type 0 where
  count : ℕ → Written
  interrupted again bad_descriptor conn_reset failed : Written

-- The bytes offered to the system.
abbrev pub offered : Session → List ℕ
offered s = peek s.send_buffer.buffer s.send_buf s.send_len

-- The loop of `process_send`: whether to wait for room, the bytes that the system took, and the
-- session. The outer `none` is the end of the answers or a failed assertion.
unfoldable pub write_loop : List Written → Session → Option (Outcome Bool × List ℕ × Session)
unfolding close
write_loop [] s = none
write_loop (interrupted ∷ answers) s = write_loop answers s
write_loop (again ∷ answers) s = some (ok true, [], s)
write_loop (bad_descriptor ∷ answers) s = some (ok false, [], s)
write_loop (conn_reset ∷ answers) s = some (ok false, [], close connect_peer_close s)
write_loop (failed ∷ answers) s = some (throws, [], s)
write_loop (count n ∷ answers) s =
    let taken = min n s.send_len in
    if taken == 0 then some (throws, [], s) else elim (process_send taken s) [
      | none ↦ none
      | some (false, t) ↦ some (ok false, take taken (offered s), t)
      | some (true, t) ↦ elim (write_loop answers t) [
        | none ↦ none
        | some (o, sent, u) ↦ some (o, take taken (offered s) ++ sent, u)
      ]
    ]

-- What `read` answers: the bytes, none at the end of the stream, or the error.
pub data Arrived : Type 0 where
  bytes : List ℕ → Arrived
  read_interrupted read_again read_reset read_failed : Arrived

-- The system puts the bytes where `m_buffer` points.
abbrev pub filled_in : List ℕ → Session → Session
filled_in bs s = record s { recv = record s.recv { buffer = poke s.recv.buffer s.recv_buf bs } }

-- The loop of the event EPOLLIN: `b_exp`, the bytes that came, and the session. A read of more bytes
-- than were asked for does not happen, and is `none`.
unfoldable pub read_loop :
    (Session → Session) → List Arrived → Bool → Session → Option (Outcome Bool × List ℕ × Session)
unfolding close
read_loop parent [] b_exp s = none
read_loop parent (read_interrupted ∷ answers) b_exp s = read_loop parent answers b_exp s
read_loop parent (read_again ∷ answers) b_exp s = some (ok b_exp, [], s)
read_loop parent (read_reset ∷ answers) b_exp s = some (ok b_exp, [], close connect_peer_close s)
read_loop parent (read_failed ∷ answers) b_exp s = some (throws, [], s)
read_loop parent (bytes [] ∷ answers) b_exp s = some (ok b_exp, [], close connect_peer_close s)
read_loop parent (bytes (c ∷ cs) ∷ answers) b_exp s =
    if ltb s.recv_len (length (c ∷ cs))
    then none
    else elim (process_recv parent (length (c ∷ cs)) (filled_in (c ∷ cs) s)) [
      | none ↦ none
      | some (false, t) ↦ some (ok false, c ∷ cs, t)
      | some (true, t) ↦
          if ltb (length (c ∷ cs)) s.recv_len
          then some (ok true, c ∷ cs, t)
          else elim (read_loop parent answers true t) [
            | none ↦ none
            | some (o, more, u) ↦ some (o, c ∷ cs ++ more, u)
          ]
    ]

-- `per_io_data::m_ol` of both directions, and whether the descriptor is armed: EPOLLONESHOT disarms
-- it with each event.
pub record Watch : Type 0 where
  pub recv_in_use : Bool
  pub send_in_use : Bool
  pub need_send : Bool
  pub armed : Bool
  -- EPOLLOUT is waited for too
  pub armed_out : Bool

-- What `epoll_ctl` answers: done, the descriptor is gone, another error.
pub data Control : Type 0 where
  done gone refused : Control

-- `epoll_control(EPOLL_CTL_MOD, …)` and the code behind it, which is the same in each place. A session
-- that closes takes its descriptor out of epoll by its `untrack_session`.
abbrev pub rearm : Control → Bool → Watch → Session → Outcome (Watch × Session) × Watch × Session
rearm done out w s = let on = record w { armed = true; armed_out = out } in (ok (on, s), on, s)
rearm gone out w s = (ok (w, s), w, s)
rearm refused out w s =
    (throws, record w { armed = false; armed_out = false }, close service_stop s)

-- The part of `process_event` for EPOLLIN, from the value that `b_exp` has; it ends the loop with
-- b_exp, which then decides whether the descriptor is armed again.
unfoldable pub on_readable :
    (Session → Session)
    → Bool
    → Control
    → List Arrived
    → Bool
    → Watch
    → Session
    → Option (Outcome (Watch × Session) × Watch × Session)
unfolding read_loop
on_readable parent multi control answers b_exp w s =
    if multi && w.recv_in_use
    then some (ok (w, s), w, s)
    else elim (read_loop parent answers (if multi then false else b_exp) s) [
      | none ↦ none
      | some (throws, got, t) ↦
          some (throws, record w { recv_in_use = if multi then true else w.recv_in_use }, t)
      | some (ok b, got, t) ↦
          let free = record w { recv_in_use = if multi then false else w.recv_in_use } in
          if b then some (rearm control w.need_send free t) else some (ok (free, t), free, t)
    ]

-- The part of `process_event` for EPOLLOUT, with `process_send(sdata, data)`: the descriptor is armed
-- for EPOLLIN, what the system takes is sent, and if it takes no more now, the descriptor is armed
-- for both; a session that was closed on the way has taken it out of epoll. `first` and `second` are the two answers of `epoll_ctl`.
unfoldable pub on_writable :
    Bool
    → Control
    → Control
    → List Written
    → Watch
    → Session
    → Option (Outcome (Watch × Session) × Watch × Session)
unfolding write_loop
on_writable multi first second answers w s =
    let held = record w {
      need_send = false;
      send_in_use = if multi then true else w.send_in_use;
    } in
    let free = record held { send_in_use = if multi then false else w.send_in_use } in
    let armed = record held { armed = true; armed_out = false } in
    let rest = record free { armed = true; armed_out = false } in
    if multi && w.send_in_use then some (ok (w, s), w, s) else elim first [
      | gone ↦ some (ok (free, s), free, s)
      | refused ↦
          some (throws, record held { armed = false; armed_out = false }, close service_stop s)
      | done ↦ elim (write_loop answers s) [
        | none ↦ none
        | some (throws, sent, t) ↦ some (throws, armed, t)
        | some (ok false, sent, t) ↦
            let over = record rest { armed = is_connected t } in some (ok (over, t), over, t)
        | some (ok true, sent, t) ↦ some (rearm second true (record rest { need_send = true }) t)
      ]
    ]

-- `process_send(data)` for a packet that `send` has put into the buffer, and `post_send_event`.
unfoldable pub post_send_event :
    Control
    → List Written
    → Service
    → Watch
    → Session
    → Option (Outcome (Watch × Session) × Watch × Session)
unfolding write_loop
post_send_event control answers service w s = elim service.phase [
  | phase_none ↦ some (ok (w, s), w, s)
  | starting ↦ some (ok (w, s), w, s)
  | stopping ↦ some (ok (w, s), w, s)
  | running ↦ elim (write_loop answers s) [
    | none ↦ none
    | some (throws, sent, t) ↦ some (throws, w, t)
    | some (ok false, sent, t) ↦ some (ok (w, t), w, t)
    | some (ok true, sent, t) ↦ some (rearm control true (record w { need_send = true }) t)
  ]
]
