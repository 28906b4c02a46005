-- ===== src/Iocp/Run.antt =====
-- The bytes of a session on their way to the system, over any order of the packets that its users
-- send and of the operations that end, each of them undivided.

use mathlib.Core.Path.{subst}
use mathlib.Core.List.{append_assoc, append-nil}
use utility_engine_old.Base.{ℕ, ◌-◌, ◌<◌, min, ◌≡◌, refl, sym, inl, inr, Option, none, some, List}
use utility_engine_old.Base.{[], ◌∷◌, ◌++◌, arith, ◌==◌, if◌then◌else◌, Bool-cases, length}
use utility_engine_old.Epoll.{Phase}
use utility_engine_old.Iocp.{Phase, Posted, Line, on_send, Failure, on_failure, send_packet}
use utility_engine_old.Iocp.{wait_timeout, netname_deleted, operation_aborted, other_failure}
use utility_engine_old.Session.{connect_timeout, connect_peer_close}
use utility_engine_old.Iocp.Steady.{Steady, Kept, same, ended, closed-Kept, busy}
use utility_engine_old.Iocp.Packet.{send_packet-Steady}
use utility_engine_old.Iocp.Ended.{on_send-Steady}

-- What happens: a packet is sent; the system has taken so many of the bytes offered, at most all of
-- them; the operation under way fails; each with the answer of a WSASend made on the way.
pub data Event : Type 0 where
  sends_packet : List ℕ → Posted → Event
  was_sent : ℕ → Posted → Event
  fails : Failure → Event

-- The bytes that the session accepted, and the state; an event for an operation that is not under
-- way does not happen. A throw goes to the caller and leaves the state.
unfoldable pub run : Phase → List Event → Line → Option (List ℕ × Line)
run phase [] l = some ([], l)
run phase (sends_packet packet answer ∷ es) l = elim (send_packet packet answer phase l) [
  | none ↦ none
  | some (b, t) ↦ elim (run phase es t) [
    | none ↦ none
    | some (more, u) ↦ some ((if b then packet else []) ++ more, u)
  ]
]
run phase (was_sent n answer ∷ es) l =
    let on = run phase es l in
    if l.sends == 0 then on else elim (on_send (min n l.session.send_len) answer phase l) [
      | none ↦ none
      | some (o, t) ↦ run phase es t
    ]
run phase (fails why ∷ es) l =
    let on = run phase es l in
    let later = run phase es (record (on_failure why l).1 { sends = l.sends - 1 }) in
    if l.sends == 0 then on else later

-- No packet is empty; `send` of an empty one copies bytes from behind it.
abbrev pub NoEmpty : List Event → Type 0
NoEmpty [] = Unit {0}
NoEmpty (sends_packet packet answer ∷ es) = (0 < length packet) × NoEmpty es
NoEmpty (was_sent n answer ∷ es) = NoEmpty es
NoEmpty (fails why ∷ es) = NoEmpty es

-- An operation fails.
on_failure-Steady :
    (why : Failure) (l : Line) (accepted : List ℕ)
    → Steady l accepted
    → 0 < l.sends
    → Steady (record (on_failure why l).1 { sends = l.sends - 1 }) accepted
unfolding on_failure
on_failure-Steady why l accepted s some_op = elim s.mode [
  | inl (z, empty, e) ↦ absurd (omega (arith, z, some_op))
  | inr (inl (few, a, e)) ↦
      busy l (record (on_failure why l).1 { sends = l.sends - 1 }) accepted (kept why)
        (omega (arith, few)) a e
  | inr (inr (z, off, left)) ↦ absurd (omega (arith, z, some_op))
]
  where
    kept : (why : Failure) → Kept l (record (on_failure why l).1 { sends = l.sends - 1 })
    kept wait_timeout = ended (closed-Kept connect_timeout l)
    kept netname_deleted = ended (closed-Kept connect_peer_close l)
    kept operation_aborted = same l (l.sends - 1)
    kept other_failure = same l (l.sends - 1)

-- Each send and each end of an operation being one step: whatever packets are sent, whatever part of the bytes offered the system takes each time, however
-- its calls answer, operations fail and the session is closed on the way: never is more than one send
-- operation under way, and the bytes sent are the first of those accepted, none of them lost,
-- repeated or out of order.
pub run-Steady :
    (phase : Phase) (es : List Event) (l : Line) (before : List ℕ)
    → NoEmpty es
    → Steady l before
    → (accepted : List ℕ) × (t : Line) × (run phase es l ≡ some (accepted, t))
      × Steady t (before ++ accepted)
unfolding run
run-Steady phase [] l before full s = ([], l, refl, subst (Steady l) (sym (append-nil before)) s)
run-Steady phase (sends_packet packet answer ∷ es) l before (some_bytes, full) s =
    let (b, d, e, w) = send_packet-Steady packet answer phase l before some_bytes s in
    let now = if b then packet else [] in
    let (accepted, t, f, x) = run-Steady phase es d (before ++ now) full w in
    (now ++ accepted, t, rw (run, e, f) refl, subst (Steady t) (append_assoc before now accepted) x)
run-Steady phase (was_sent n answer ∷ es) l before full s = elim (Bool-cases (l.sends == 0)) [
  | inl none_posted ↦
      let (accepted, t, f, x) = run-Steady phase es l before full s in
      (accepted, t, rw (run, none_posted) f, x)
  | inr some_posted ↦
      let (o, d, e, w) =
        on_send-Steady (min n l.session.send_len) answer phase l before s
          (ground (arith, some_posted)) (omega arith) in
      let (accepted, t, f, x) = run-Steady phase es d before full w in
      (accepted, t, rw (run, some_posted, e) f, x)
]
run-Steady phase (fails why ∷ es) l before full s = elim (Bool-cases (l.sends == 0)) [
  | inl none_posted ↦
      let (accepted, t, f, x) = run-Steady phase es l before full s in
      (accepted, t, rw (run, none_posted) f, x)
  | inr some_posted ↦
      let d = record (on_failure why l).1 { sends = l.sends - 1 } in
      let w = on_failure-Steady why l before s (ground (arith, some_posted)) in
      let (accepted, t, f, x) = run-Steady phase es d before full w in
      (accepted, t, rw (run, some_posted) f, x)
]
