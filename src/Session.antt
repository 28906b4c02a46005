-- ===== src/Session.antt =====
-- A connection: `session_iface` (UtilityEngine/src/net_session.cpp) and `session_wrap`
-- (UtilityEngine/include/net_session.inl), with both of its buffers a `rotative_buffer`.
-- The calls a session makes to the I/O service, to its socket and to its parent are recorded in the
-- order in which they are made. The parent may call the session back from within `post_request`:
-- what it does to the session then is the argument `parent`.
pub mod Closing
pub mod Sending
pub mod Offered
pub mod Sample
mod Tests
use utility_engine_old.Base.{ℕ, zero, suc, ◌+◌, ◌-◌, ◌*◌, ◌/◌, ◌%◌, ◌^◌, ◌≤◌, ◌<◌, min, max}
use utility_engine_old.Base.{bit_and, bit_or, bit_xor, ◌≡◌, refl, sym, ap, ap₂, ◌∙◌, ◌≢◌, ◌↔◌, ◌⊎◌}
use utility_engine_old.Base.{inl, inr, Bool, true, false, not, ◌&&◌, ◌||◌, Option, none, some, List}
use utility_engine_old.Base.{[], ◌∷◌, ◌++◌, map, arith, ltb, leb, ◌==◌, if◌then◌else◌, Bool-cases}
use utility_engine_old.Base.{ltb→lt, ltb→ge, lt→ltb, le→ltb, ==→eq, eq→==, check, sub_ulong}
use utility_engine_old.Base.{ulong_mod, length, get_elem?, get_or, set, take, drop, tabulate}
use utility_engine_old.Base.{replicate, length-append, length-set, length-tabulate, length-take}
use utility_engine_old.Base.{length-drop, take-append-drop, take-append, drop-append, drop-drop}
use utility_engine_old.Base.{take-append_le, drop-append_le, take-append_ge, drop-append_ge}
use utility_engine_old.Base.{drop-length, take-length, get_or-set_self, get_or-set_ne}
use utility_engine_old.Rotative.{max_packet_len, Rotative, created, clear, init, used}
use utility_engine_old.Rotative.{readable_size, clip, read, commit_read, writable_size, write}
use utility_engine_old.Rotative.{commit_write, reset, set_read_limit, next}
use utility_engine_old.Rotative.Invariant.{fill}

-- `session_iface::state`; `closing` is left under the lock that it is entered under.
pub data Link : Type 0 where
  link_none link_connected link_closing : Link

-- `session_iface::reason`
pub data Reason : Type 0 where
  service_stop connect_timeout connect_peer_close send_buffer_overflow recv_buffer_overflow : Reason
  handle_failed : Reason

-- The calls made: of the I/O service, of the socket, of the parent.
pub data Call : Type 0 where
  untrack close_socket : Call
  post_close : Reason → Call
  post_recv : ℕ → Call
  post_send : ℕ → ℕ → Call

pub record Session : Type 0 where
  pub link : Link
  pub compkey : ℕ
  pub recv : Rotative
  pub send_buffer : Rotative
  -- `m_recv_data.m_buffer` and `m_send_data.m_buffer`: pointer and length
  pub recv_buf : ℕ
  pub recv_len : ℕ
  pub send_buf : ℕ
  pub send_len : ℕ
  pub calls : List Call

abbrev pub is_connected : Session → Bool
is_connected s = elim s.link [ link_none ↦ false | link_connected ↦ true | link_closing ↦ false ]

-- `close`
unfoldable pub close : Reason → Session → Session
close why s =
    if is_connected s
    then record s {
      link = link_none;
      compkey = (s.compkey + 1) % 2 ^ 32;
      calls = s.calls ++ untrack ∷ close_socket ∷ post_close why ∷ [];
    }
    else s

-- `handle_error`
unfoldable pub handle_error : ℕ → Session → Session
unfolding close
handle_error key s = if s.compkey == key then close handle_failed s else s

-- `set_connected`, as far as the state goes.
unfoldable pub set_connected : Session → Session
set_connected s = record s { link = link_connected }

-- The room that the next bytes received go into.
abbrev pub next_room : Session → Session
next_room s =
    let (p, n, r) = write max_packet_len s.recv in record s { recv = r; recv_buf = p; recv_len = n }

-- `clear`
pub clear_session : Session → Session
clear_session s = next_room (record s { recv = clear s.recv; send_buffer = clear s.send_buffer })

-- `process_send` of `size` bytes that the system has sent; `none` is a failed assertion.
unfoldable pub process_send : ℕ → Session → Option (Bool × Session)
process_send size s =
    if not (is_connected s) then some (false, s) else elim (commit_read size s.send_buffer) [
      | none ↦ none
      | some b ↦
          let (p, n, r) = read max_packet_len b in
          if n == 0
          then some (false, record s { send_buffer = r })
          else some (true, record s { send_buffer = r; send_buf = p; send_len = n })
    ]

-- `process_recv` of `size` bytes that the system has received.
unfoldable pub process_recv : (Session → Session) → ℕ → Session → Option (Bool × Session)
unfolding close
process_recv parent size s =
    if not (is_connected s) then some (false, s) else elim (commit_write size s.recv) [
      | none ↦ none
      | some (idle, b) ↦
          let kept = record s { recv = b } in
          let told =
            if idle
            then parent (record kept { calls = s.calls ++ post_recv s.compkey ∷ [] })
            else kept in
          let room = next_room told in
          if room.recv_len == 0
          then some (false, close recv_buffer_overflow room)
          else some (is_connected room, room)
    ]

-- The loop of `send` on fuel: whether the last `commit_write` asks for a notice, and the buffer.
-- `none` is a failed assertion, a copy from behind the end of the packet, or no fuel.
unfoldable pub send_loop : ℕ → List ℕ → Rotative → Option (Bool × Rotative)
send_loop zero packet r = none
send_loop (suc fuel) packet r =
    let n = (write (length packet) r).1 in
    elim (commit_write n (fill (take n packet) (write (length packet) r).2)) [
      | none ↦ none
      | some (idle, b) ↦
          let on = send_loop fuel (drop n packet) b in
          if ltb (length packet) n
          then none
          else (if length packet == n then some (idle, b) else on)
    ]

-- `send` of a packet, on fuel for its turns.
unfoldable pub send : ℕ → List ℕ → Session → Option (Bool × Session)
unfolding close
send fuel packet s =
    if not (is_connected s)
    then some (false, s)
    else (if ltb (writable_size s.send_buffer) (length packet)
        then some (false, close send_buffer_overflow s)
        else elim (send_loop fuel packet s.send_buffer) [
          | none ↦ none
          | some (idle, b) ↦
              let (p, n, r) = read max_packet_len b in
              if idle
              then some (
                true,
                record s {
                  send_buffer = r;
                  send_buf = p;
                  send_len = n;
                  calls = s.calls ++ post_send p n ∷ [];
                },
              )
              else some (true, record s { send_buffer = b })
        ])
