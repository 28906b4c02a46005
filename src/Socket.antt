-- ===== src/Socket.antt =====
-- The sockets (UtilityEngine/include/net_socket.hpp, UtilityEngine/src/net_socket.cpp): what they make
-- of the answers of the system, which are arguments. How many descriptors the system gave out and
-- took back is counted.
pub mod Connect
pub mod Bind
mod Tests
use utility_engine_old.Base.{ℕ, zero, suc, ◌+◌, ◌-◌, ◌*◌, ◌/◌, ◌%◌, ◌^◌, ◌≤◌, ◌<◌, min, max}
use utility_engine_old.Base.{bit_and, bit_or, bit_xor, ◌≡◌, refl, sym, ap, ap₂, ◌∙◌, ◌≢◌, ◌↔◌, ◌⊎◌}
use utility_engine_old.Base.{inl, inr, Bool, true, false, not, ◌&&◌, ◌||◌, Option, none, some, List}
use utility_engine_old.Base.{[], ◌∷◌, ◌++◌, map, arith, ltb, leb, ◌==◌, if◌then◌else◌, Bool-cases}
use utility_engine_old.Base.{ltb→lt, ltb→ge, lt→ltb, le→ltb, ==→eq, eq→==, check, sub_ulong}
use utility_engine_old.Base.{ulong_mod, length, get_elem?, get_or, set, take, drop, tabulate}
use utility_engine_old.Base.{replicate, length-append, length-set, length-tabulate, length-take}
use utility_engine_old.Base.{length-drop, take-append-drop, take-append, drop-append, drop-drop}
use utility_engine_old.Base.{take-append_le, drop-append_le, take-append_ge, drop-append_ge}
use utility_engine_old.Base.{drop-length, take-length, get_or-set_self, get_or-set_ne}
use utility_engine_old.Epoll.{Outcome, ok, throws}

pub record Socket : Type 0 where
  -- `m_fd`; `none` is INVALID_SOCKET
  pub fd : Option ℕ
  pub host : List ℕ
  pub port : ℕ
  -- the family and the mode of the descriptor
  pub six : Bool
  pub blocking : Bool
  pub opened : ℕ
  pub closed : ℕ

-- `is_ipv6`: a colon in the host.
abbrev pub is_ipv6 : List ℕ → Bool
is_ipv6 [] = false
is_ipv6 (c ∷ cs) = (c == 58) || is_ipv6 cs

-- `close`, by `close_fd`
unfoldable pub close : Socket → Socket
close s = elim s.fd [ none ↦ s | some f ↦ record s { fd = none; closed = s.closed + 1 } ]

-- `create_socket` and `create_fd`, on the answer of `socket`; a new descriptor blocks.
unfoldable pub create_socket : Option ℕ → Socket → Outcome Socket × Socket
create_socket answer s = elim s.fd [
  | some f ↦ (throws, s)
  | none ↦ elim answer [
    | none ↦ (throws, s)
    | some f ↦
        let t = record s {
          fd = some f;
          six = is_ipv6 s.host;
          blocking = true;
          opened = s.opened + 1;
        } in
        (ok t, t)
  ]
]

-- `set_blocking`, with whether `ioctl` succeeds.
unfoldable pub set_blocking : Bool → Bool → Socket → Bool × Socket
set_blocking done mode s = elim s.fd [
  | none ↦ (false, s)
  | some f ↦ if done then (true, record s { blocking = mode }) else (false, s)
]

-- What the system's `connect` answers: done; a time limit of its own; that it goes on; an error.
pub data Connected : Type 0 where
  at_once timed_out going_on refused : Connected

-- What `select` answers, in the end with whether the connection has no error.
pub data Selected : Type 0 where
  select_interrupted select_failed select_timeout : Selected
  select_ready : Bool → Selected

-- `close` and a throw.
abbrev pub give_up : Socket → Outcome Bool × Socket
give_up s = (throws, close s)

-- The loop on `select`; `none` is the end of the answers.
unfoldable pub select_loop : List Selected → Bool → Socket → Option (Outcome Bool × Socket)
unfolding close set_blocking
select_loop [] back s = none
select_loop (select_interrupted ∷ answers) back s = select_loop answers back s
select_loop (select_failed ∷ answers) back s = some (give_up s)
select_loop (select_timeout ∷ answers) back s = some (ok false, close s)
select_loop (select_ready good ∷ answers) back s =
    if not good
    then some (give_up s)
    else (if (set_blocking back true s).0
        then some (ok true, (set_blocking back true s).1)
        else some (give_up s))

-- The part of `connect` from the call of the system's `connect` on.
unfoldable pub finish_connect :
    Connected → List Selected → Bool → ℕ → Socket → Option (Outcome Bool × Socket)
unfolding close select_loop
finish_connect answer selects back timeout_msecs s = elim answer [
  | at_once ↦ some (ok true, s)
  | timed_out ↦ some (ok false, close s)
  | refused ↦ some (give_up s)
  | going_on ↦ if ltb 0 timeout_msecs then select_loop selects back s else some (ok true, s)
]

-- The answers of the system to one `connect`: of `socket`, whether the host is resolved, whether the
-- mode is set, of `connect`, of `select`, and whether the mode is set back.
pub record Answers : Type 0 where
  pub created : Option ℕ
  pub resolved : Bool
  pub mode_set : Bool
  pub connected : Connected
  pub selected : List Selected
  pub mode_back : Bool

-- `connect`; `port = port` leaves `m_port` as it is.
unfoldable pub connect : Answers → List ℕ → ℕ → ℕ → Socket → Option (Outcome Bool × Socket)
unfolding close create_socket set_blocking finish_connect
connect a host port timeout_msecs s =
    let named = record s { host = host } in
    let t = (create_socket a.created named).1 in
    let u = (set_blocking a.mode_set (not (ltb 0 timeout_msecs)) t).1 in
    elim (create_socket a.created named).0 [
      | throws ↦ some (throws, t)
      | ok made ↦
          if not a.resolved
          then some (give_up t)
          else (if not (set_blocking a.mode_set (not (ltb 0 timeout_msecs)) t).0
              then some (give_up u)
              else finish_connect a.connected a.selected a.mode_back timeout_msecs u)
    ]

-- `bind`, with whether the host is resolved and whether the system binds.
unfoldable pub bind : Option ℕ → Bool → Bool → List ℕ → ℕ → Socket → Outcome Socket × Socket
unfolding create_socket
bind created resolved bound host port s =
    let named = record s { host = host; port = port } in
    let t = (create_socket created named).1 in
    elim (create_socket created named).0 [
      | throws ↦ (throws, t)
      | ok made ↦ if resolved && bound then (ok t, t) else (throws, t)
    ]
