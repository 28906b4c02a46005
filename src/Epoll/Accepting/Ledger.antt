-- ===== src/Epoll/Accepting/Ledger.antt =====
-- The descriptors that a server closes or gives to its sessions.
use utility_engine_old.Base.{ℕ, ◌+◌}
use utility_engine_old.Base.{◌≡◌, ap, ◌∙◌}
use utility_engine_old.Base.{Option, none, some, List}
use utility_engine_old.Base.{[], ◌∷◌, ◌++◌, arith, ◌==◌, if◌then◌else◌}
use utility_engine_old.Responder.{Responder, Call, process_accept, close_fd, close_session}
use utility_engine_old.Responder.{set_connected, on_connect, init_buffer, track_server}
use utility_engine_old.Responder.{untrack_server, close_socket, get_session}
use utility_engine_old.Factory.{Factory}
use utility_engine_old.Factory

-- How many calls of a kind there are.
abbrev pub tally : (Call → ℕ) → List Call → ℕ
tally kind [] = 0
tally kind (c ∷ calls) = kind c + tally kind calls

-- Whether a number is d, and how often it stands in a list.
pub hit : ℕ → ℕ → ℕ
hit d n = if n == d then 1 else 0

abbrev pub occurs : ℕ → List ℕ → ℕ
occurs d [] = 0
occurs d (n ∷ ns) = hit d n + occurs d ns

-- The descriptor d is closed; it is given to a session; a descriptor is given to the session q, and to
-- any session.
abbrev pub closes : ℕ → Call → ℕ
closes d track_server = 0
closes d untrack_server = 0
closes d close_socket = 0
closes d (close_fd fd) = hit d fd
closes d (close_session p) = 0
closes d (set_connected p fd) = 0
closes d (on_connect p) = 0
closes d (init_buffer p) = 0

abbrev pub given : ℕ → Call → ℕ
given d track_server = 0
given d untrack_server = 0
given d close_socket = 0
given d (close_fd fd) = 0
given d (close_session p) = 0
given d (set_connected p fd) = hit d fd
given d (on_connect p) = 0
given d (init_buffer p) = 0

abbrev pub to : ℕ → Call → ℕ
to q track_server = 0
to q untrack_server = 0
to q close_socket = 0
to q (close_fd fd) = 0
to q (close_session p) = 0
to q (set_connected p fd) = hit q p
to q (on_connect p) = 0
to q (init_buffer p) = 0

abbrev pub connects : Call → ℕ
connects track_server = 0
connects untrack_server = 0
connects close_socket = 0
connects (close_fd fd) = 0
connects (close_session p) = 0
connects (set_connected p fd) = 1
connects (on_connect p) = 0
connects (init_buffer p) = 0

-- How often the descriptor d was closed or given to a session.
abbrev pub settled : ℕ → Responder → ℕ
settled d r = tally (closes d) r.calls + tally (given d) r.calls

-- The descriptors of the list were closed or given to a session, each as often as it stands there and
-- no other, and each session given took one of the pool.
abbrev pub Ledger : Responder → List ℕ → Responder → Type 0
Ledger r fds t =
    ((d : ℕ) → settled d t ≡ settled d r + occurs d fds)
    × (t.sessions.left + tally connects t.calls ≡ r.sessions.left + tally connects r.calls)

pub tally-append :
    (kind : Call → ℕ) (xs ys : List Call) → tally kind (xs ++ ys) ≡ tally kind xs + tally kind ys
tally-append kind [] ys = omega arith
tally-append kind (c ∷ xs) ys = omega (arith, tally-append kind xs ys)

pub get_session-left :
    (m : ℕ) (r : Responder)
    → ((get_session m r).1.calls ≡ r.calls)
      × ((get_session m r).1.sessions.left + elim (get_session m r).0 [ none ↦ 0 | some p ↦ 1 ]
          ≡ r.sessions.left)
unfolding get_session Factory.malloc
get_session-left m r = (ground arith, ground arith)

-- With the sessions of one descriptor: none, or the one that was given.
abbrev pub Entry : Responder → ℕ → Option ℕ × Responder → Type 0
Entry r fd (o, t) =
    Ledger r (fd ∷ []) t
    × ((q : ℕ)
        → elim o [ none ↦ 0 | some p ↦ hit q p ] + tally (to q) r.calls ≡ tally (to q) t.calls)

-- Calls more, behind those that there are.
pub tally-more :
    (kind : Call → ℕ) (r t : Responder) (more : List Call)
    → t.calls ≡ r.calls
    → tally kind (t.calls ++ more) ≡ tally kind r.calls + tally kind more
tally-more kind r t more same =
    tally-append kind t.calls more ∙ ap (λ n. n + tally kind more) (ap (tally kind) same)

pub session-Entry :
    (fd : ℕ) (r t : Responder) (session : Option ℕ)
    → t.calls ≡ r.calls
    → t.sessions.left + elim session [ none ↦ 0 | some p ↦ 1 ] ≡ r.sessions.left
    → Entry r fd (elim session as (λ o. Option ℕ × Responder) [
      | none ↦ (none, record t { calls = t.calls ++ close_fd fd ∷ [] })
      | some p ↦ (
        some p,
        record t { calls = t.calls ++ set_connected p fd ∷ on_connect p ∷ init_buffer p ∷ [] },
      )
    ])
session-Entry fd r t none same left =
    let more = close_fd fd ∷ [] in
    (
      (
        λ d. omega (arith, tally-more (closes d) r t more same, tally-more (given d) r t more same),
        omega (arith, tally-more connects r t more same, left),
      ),
      λ q. omega (arith, tally-more (to q) r t more same),
    )
session-Entry fd r t (some p) same left =
    let more = set_connected p fd ∷ on_connect p ∷ init_buffer p ∷ [] in
    (
      (
        λ d. omega (arith, tally-more (closes d) r t more same, tally-more (given d) r t more same),
        omega (arith, tally-more connects r t more same, left),
      ),
      λ q. omega (arith, tally-more (to q) r t more same),
    )

pub process_accept-Entry : (m fd : ℕ) (r : Responder) → Entry r fd (process_accept m fd r)
unfolding process_accept
process_accept-Entry m fd r =
    let (same, left) = get_session-left m r in
    session-Entry fd r (get_session m r).1 (get_session m r).0 same left
