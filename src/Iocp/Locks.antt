-- ===== src/Iocp/Locks.antt =====
-- The sending of a session cut at the locks of its buffer: `send` and `process_send`
-- (UtilityEngine/include/net_session.inl) with the ends of operations
-- (UtilityEngine/src/net_io_service_iocp.cpp). `m_send_mutex` lets one sender in at a time; between
-- any two of its calls of the buffer, an operation that ends may make one of its own.
pub mod Single
pub mod Sender
pub mod Ending
pub mod Run
mod Tests
use utility_engine_old.Base.{ℕ, ◌+◌, ◌-◌, min, Bool, true, false, not, ◌&&◌, ◌||◌, Option, none}
use utility_engine_old.Base.{some, List, [], ◌∷◌, ◌++◌, arith, ltb, ◌==◌, if◌then◌else◌, length}
use utility_engine_old.Base.{take}
use utility_engine_old.Rotative.{max_packet_len, Rotative, read, write, commit_write, commit_read}
use utility_engine_old.Rotative.Invariant.{fill}
use utility_engine_old.Session.{Reason, Session, is_connected, close, connect_peer_close}
use utility_engine_old.Session.Offered.{offering}
use utility_engine_old.Epoll.{Phase, offered}
use utility_engine_old.Iocp.{Posted, Line, post_send_event}

-- `between` counts the ends of operations between their `commit_read` and their `read`. `asked` says
-- that the `commit_write` at the end of a packet answered true, and `read` has not been called
-- for it; `at_end` that no packet is begun and not committed to its end.
pub record Race : Type 0 where
  pub line : Line
  pub between : ℕ
  pub asked : Bool
  pub at_end : Bool

-- The line with another buffer to send from.
abbrev pub over : Rotative → Line → Line
over b l = record l { session = record l.session { send_buffer = b } }

-- The line that offers what `read` grants.
abbrev pub offered_next : Line → Line
offered_next l = record l { session = offering l.session l.session.send_buffer }

-- `write` of the sender
unfoldable pub sender_write : ℕ → Race → Race
sender_write n r =
    if r.asked
    then r
    else record r { line = over (write n r.line.session.send_buffer).2 r.line; at_end = false }

-- `commit_write` of the sender, who put the bytes where `write` pointed; at the end of the packet its
-- answer counts. The bytes are all taken, or there are more than `write` had granted and the call
-- is not made.
unfoldable pub sender_commit : List ℕ → Bool → Race → Option (List ℕ × Race)
sender_commit bytes last r =
    let b = r.line.session.send_buffer in
    if r.asked || ltb b.last_malloc (length bytes)
    then some ([], r)
    else elim (commit_write (length bytes) (fill bytes b)) [
      | none ↦ none
      | some (idle, c) ↦
          some (bytes, record r { line = over c r.line; asked = last && idle; at_end = last })
    ]

-- `read` of the sender that was asked for it, and `post_send_event` if the session is connected.
unfoldable pub sender_read : Posted → Phase → Race → Race
unfolding post_send_event
sender_read answer phase r =
    let l = offered_next r.line in
    let posted = (post_send_event answer phase l).1 in
    if not r.asked
    then r
    else record r { line = if is_connected l.session then posted else l; asked = false }

-- An operation ends, n bytes of those offered having been sent: a close, or `process_send` as far as
-- its `commit_read`.
unfoldable pub op_end : ℕ → Race → Option Race
unfolding close
op_end n r =
    let l = r.line in
    let k = min n l.session.send_len in
    let ended = record l { sends = l.sends - 1; sent = l.sent ++ take k (offered l.session) } in
    let gone = record ended { session = close connect_peer_close l.session } in
    if l.sends == 0
    then some r
    else (if k == 0
        then some (record r { line = gone })
        else (if not (is_connected l.session)
            then some (record r { line = ended })
            else elim (commit_read k l.session.send_buffer) [
              | none ↦ none
              | some b ↦ some (record r { line = over b ended; between = r.between + 1 })
            ]))

-- The rest of `process_send`: its `read`, and `post_send_event` if there are bytes and the session is
-- still connected.
unfoldable pub end_read : Posted → Phase → Race → Race
unfolding post_send_event
end_read answer phase r =
    let b = r.line.session.send_buffer in
    let posted = (post_send_event answer phase (offered_next r.line)).1 in
    let bare = over (read max_packet_len b).2 r.line in
    if r.between == 0 then r else record r {
      line =
          if (read max_packet_len b).1 == 0 || not (is_connected r.line.session)
          then bare
          else posted;
      between = r.between - 1;
    }

-- The calls of the sender and of the operations that end, and a `close` by anybody.
pub data Event : Type 0 where
  writes : ℕ → Event
  commits : ℕ → List ℕ → Bool → Event
  reads_first : Posted → Event
  ends_with : ℕ → Event
  reads_next : Posted → Event
  closes : Reason → Event

-- The bytes taken in by an event, and the state behind it.
unfoldable pub step : Phase → Event → Race → Option (List ℕ × Race)
unfolding sender_write sender_commit sender_read op_end end_read
step phase (writes n) r = some ([], sender_write n r)
step phase (commits c cs last) r = sender_commit (c ∷ cs) last r
step phase (reads_first answer) r = some ([], sender_read answer phase r)
step phase (ends_with n) r = elim (op_end n r) [ none ↦ none | some t ↦ some ([], t) ]
step phase (reads_next answer) r = some ([], end_read answer phase r)
step phase (closes why) r =
    some ([], record r { line = record r.line { session = close why r.line.session } })

unfoldable pub run : Phase → List Event → Race → Option (List ℕ × Race)
unfolding step
run phase [] r = some ([], r)
run phase (e ∷ es) r = elim (step phase e r) [
  | none ↦ none
  | some (came, t) ↦ elim (run phase es t) [ none ↦ none | some (more, u) ↦ some (came ++ more, u) ]
]
