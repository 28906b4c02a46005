-- ===== src/Iocp.antt =====
-- The I/O service on completion ports (UtilityEngine/include/net_io_service_iocp.hpp,
-- UtilityEngine/src/net_io_service_iocp.cpp): what it makes of the system's answers, which are
-- arguments. An error that the source throws is told apart from a result.
pub mod Restart
pub mod Steady
pub mod Packet
pub mod Ended
pub mod Run
pub mod Locks
pub mod Accepting
use utility_engine_old.Epoll.{Phase, phase_none, starting, running, stopping, Outcome, ok, throws}
use utility_engine_old.Epoll.{offered, filled_in}
use utility_engine_old.Base.{ℕ, zero, suc, ◌+◌, ◌-◌, ◌*◌, ◌/◌, ◌%◌, ◌^◌, ◌≤◌, ◌<◌, min, max}
use utility_engine_old.Base.{bit_and, bit_or, bit_xor, ◌≡◌, refl, sym, ap, ap₂, ◌∙◌, ◌≢◌, ◌↔◌, ◌⊎◌}
use utility_engine_old.Base.{inl, inr, Bool, true, false, not, ◌&&◌, ◌||◌, Option, none, some, List}
use utility_engine_old.Base.{[], ◌∷◌, ◌++◌, map, arith, ltb, leb, ◌==◌, if◌then◌else◌, Bool-cases}
use utility_engine_old.Base.{ltb→lt, ltb→ge, lt→ltb, le→ltb, ==→eq, eq→==, check, sub_ulong}
use utility_engine_old.Base.{ulong_mod, length, get_elem?, get_or, set, take, drop, tabulate}
use utility_engine_old.Base.{replicate, length-append, length-set, length-tabulate, length-take}
use utility_engine_old.Base.{length-drop, take-append-drop, take-append, drop-append, drop-drop}
use utility_engine_old.Base.{take-append_le, drop-append_le, take-append_ge, drop-append_ge}
use utility_engine_old.Base.{drop-length, take-length, get_or-set_self, get_or-set_ne}
use utility_engine_old.Session.{Link, Reason, Call, Session, is_connected, close, handle_error}
use utility_engine_old.Session.{set_connected, next_room, clear_session, process_send, process_recv}
use utility_engine_old.Session.{send_loop, send, link_none, link_connected, link_closing}
use utility_engine_old.Session.{service_stop, connect_timeout, connect_peer_close}
use utility_engine_old.Session.{send_buffer_overflow, recv_buffer_overflow, handle_failed, untrack}
use utility_engine_old.Session.{close_socket, post_close, post_recv, post_send}

pub record Port : Type 0 where
  pub phase : Phase
  -- `m_hiocp`; `none` is NULL
  pub handle : Option ℕ
  pub threads : ℕ

-- `create_iocp`; `answer` is that of `CreateIoCompletionPort`.
abbrev pub create_iocp : Option ℕ → Port → Outcome Port
create_iocp answer s = elim s.handle [
  | some h ↦ throws
  | none ↦ elim answer [ none ↦ throws | some h ↦ ok (record s { handle = some h }) ]
]

-- `start`, with the number of processors for 0 threads. On a throw the state stays `starting`.
unfoldable pub start : Option ℕ → ℕ → ℕ → Port → Outcome Port × Port
start answer processors nthread s = elim s.phase [
  | phase_none ↦
      let begun = record s { phase = starting } in
      let n = if nthread == 0 then processors else nthread in
      elim (create_iocp answer begun) [
        | throws ↦ (throws, begun)
        | ok t ↦ let up = record t { phase = running; threads = t.threads + n } in (ok up, up)
      ]
  | starting ↦ (ok s, s)
  | running ↦ (ok s, s)
  | stopping ↦ (ok s, s)
]

-- `close`; `closed` says whether the system closed the handle.
unfoldable pub close_port : Bool → Port → Outcome Port × Port
close_port closed s =
    let cleared = record s { threads = 0 } in
    let done = record cleared { handle = none } in
    if closed then (ok done, done) else (throws, cleared)

-- `stop`: an exit event is posted for each thread, and all of them are joined; an event that no
-- thread has taken goes with the handle.
unfoldable pub stop : Bool → Port → Outcome Port × Port
unfolding close_port
stop closed s = elim s.phase [
  | phase_none ↦ (ok s, s)
  | starting ↦ (throws, s)
  | running ↦
      let joined = record s { phase = stopping } in
      elim (close_port closed joined).0 [
        | throws ↦ (throws, (close_port closed joined).1)
        | ok t ↦ let ended = record t { phase = phase_none } in (ok ended, ended)
      ]
  | stopping ↦ (ok s, s)
]

-- What WSASend and WSARecv answer: the operation is under way, also when it was done at once; the
-- peer is gone; the descriptor is no socket; another error.
pub data Posted : Type 0 where
  under_way peer_gone not_socket post_refused : Posted

-- A session with the operations of its two directions that are under way, and the bytes that the
-- system took from it.
pub record Line : Type 0 where
  pub session : Session
  pub recvs : ℕ
  pub sends : ℕ
  pub sent : List ℕ

-- `post_recv_event`
unfoldable pub post_recv_event : Posted → Line → Outcome Line × Line
unfolding close
post_recv_event answer l = elim answer [
  | under_way ↦ let t = record l { recvs = l.recvs + 1 } in (ok t, t)
  | peer_gone ↦ let t = record l { session = close connect_peer_close l.session } in (ok t, t)
  | not_socket ↦ (throws, l)
  | post_refused ↦ (throws, l)
]

-- `post_send_event`
unfoldable pub post_send_event : Posted → Phase → Line → Outcome Line × Line
unfolding close
post_send_event answer phase l =
    let posted = elim answer as (λ x. Outcome Line × Line) [
      | under_way ↦ (ok (record l { sends = l.sends + 1 }), record l { sends = l.sends + 1 })
      | peer_gone ↦ (
        ok (record l { session = close connect_peer_close l.session }),
        record l { session = close connect_peer_close l.session },
      )
      | not_socket ↦ (ok l, l)
      | post_refused ↦ (throws, l)
    ] in
    elim phase [
      | running ↦ posted
      | phase_none ↦ (ok l, l)
      | starting ↦ (ok l, l)
      | stopping ↦ (ok l, l)
    ]

-- `process_event` for a receive operation that ended, with the bytes that the system put where
-- `m_buffer` points. `none` is a failed assertion of the buffer.
unfoldable pub on_recv : (Session → Session) → List ℕ → Posted → Line → Option (Outcome Line × Line)
unfolding close post_recv_event
on_recv parent bytes answer l =
    let l' = record l { recvs = l.recvs - 1 } in
    elim bytes [
      | [] ↦ let t = record l' { session = close connect_peer_close l.session } in some (ok t, t)
      | c ∷ cs ↦ elim (process_recv parent (length (c ∷ cs)) (filled_in (c ∷ cs) l.session)) [
        | none ↦ none
        | some (true, s) ↦ some (post_recv_event answer (record l' { session = s }))
        | some (false, s) ↦ let t = record l' { session = s } in some (ok t, t)
      ]
    ]

-- `process_event` for a send operation that ended, n bytes of those offered having been sent, as one step;
-- Iocp.Locks cuts it at the locks of the buffer.
unfoldable pub on_send : ℕ → Posted → Phase → Line → Option (Outcome Line × Line)
unfolding close post_send_event
on_send n answer phase l =
    let l' = record l { sends = l.sends - 1; sent = l.sent ++ take n (offered l.session) } in
    if n == 0
    then (let t = record l' { session = close connect_peer_close l.session } in some (ok t, t))
    else elim (process_send n l.session) [
      | none ↦ none
      | some (true, s) ↦ some (post_send_event answer phase (record l' { session = s }))
      | some (false, s) ↦ let t = record l' { session = s } in some (ok t, t)
    ]

-- How an operation of a session can fail: by a time limit, by the peer, by its closing, otherwise.
pub data Failure : Type 0 where
  wait_timeout netname_deleted operation_aborted other_failure : Failure

-- `process_event` for an operation of a session that failed.
unfoldable pub on_failure : Failure → Line → Outcome Line × Line
unfolding close
on_failure why l =
    let late = record l { session = close connect_timeout l.session } in
    let gone = record l { session = close connect_peer_close l.session } in
    elim why [
      | wait_timeout ↦ (ok late, late)
      | netname_deleted ↦ (ok gone, gone)
      | operation_aborted ↦ (ok l, l)
      | other_failure ↦ (throws, l)
    ]

-- `send` of the session, whose call of `post_send_event` is carried out.
unfoldable pub send_packet : List ℕ → Posted → Phase → Line → Option (Bool × Line)
unfolding post_send_event
send_packet packet answer phase l = elim (send (length packet) packet l.session) [
  | none ↦ none
  | some (false, s) ↦ some (false, record l { session = s })
  | some (true, s) ↦
      let t = record l { session = s } in
      if ltb (length l.session.calls) (length s.calls)
      then some (true, (post_send_event answer phase t).1)
      else some (true, t)
]
