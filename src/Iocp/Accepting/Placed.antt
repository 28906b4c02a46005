-- ===== src/Iocp/Accepting/Placed.antt =====
-- Where the descriptors made for connections to come are: in an operation, closed, or with a session.
use utility_engine_old.Base.{List, ℕ, ◌+◌, ◌≤◌, ◌≡◌, refl, sym, ◌⊎◌, inl, inr, Bool, true, false}
use utility_engine_old.Base.{not, Option, none, some, [], ◌∷◌, ◌++◌, arith, if◌then◌else◌}
use utility_engine_old.Base.{Bool-cases, length, length-append}
use utility_engine_old.Iocp.Accepting.{Listener, Posting, Tracking, closing, post_accept_event}
use utility_engine_old.Iocp.Accepting.{track_session, take_connection, posted_done, posting_waits}
use utility_engine_old.Iocp.Accepting.{posting_refused, tracked, peer_left, tracking_refused}
use utility_engine_old.Responder.{get_session, Responder, process_accept, close_fd, close_session}
use mathlib.Core.Path.{subst}
use utility_engine_old.Epoll.Accepting.Kept.{occurs-append}
use utility_engine_old.Epoll.Accepting.Ledger.{closes, given, settled, occurs, hit}
use utility_engine_old.Epoll.Accepting.Ledger.{tally-append, process_accept-Entry}

-- How often the descriptor d is under way, closed, or given to a session
abbrev pub placed : ℕ → Listener → ℕ
placed d s = occurs d s.pending + settled d s.server

-- The descriptors that were there and those made are placed, each as often as before, but at most one
-- if an error was thrown.
abbrev pub Account : Bool → List ℕ → Listener → Listener → Type 0
Account threw made s t =
    (lost : List ℕ) × ((d : ℕ) → placed d s + occurs d made ≡ placed d t + occurs d lost)
    × (length lost ≤ (if threw then 1 else 0))

-- A throw, a server that was stopped, or n operations more.
abbrev pub UnderWay : Bool → ℕ → Listener → Listener → Type 0
UnderWay threw n s t =
    (threw ≡ true) ⊎ (t.server.running ≡ false) ⊎ (length t.pending ≡ length s.pending + n)

abbrev pub Posted : ℕ → Listener → Bool × Listener → Type 0
Posted fd s (threw, t) =
    Account threw (fd ∷ []) s t × UnderWay threw 1 s t × (t.server.running ≡ s.server.running)

pub waits-Posted :
    (fd : ℕ) (s : Listener) → Posted fd s (false, record s { pending = s.pending ++ fd ∷ [] })
waits-Posted fd s =
    let more = length-append s.pending (fd ∷ []) in
    (
      ([], λ d. omega (arith, occurs-append d s.pending (fd ∷ [])), omega arith),
      inr (inr (omega (arith, more))),
      refl,
    )

pub closed-Posted :
    (fd : ℕ) (s : Listener) → s.server.running ≡ false → Posted fd s (false, closing fd s)
closed-Posted fd s down =
    let more = close_fd fd ∷ [] in
    (
      (
        [],
        λ d. omega (
          arith,
          tally-append (closes d) s.server.calls more,
          tally-append (given d) s.server.calls more,
        ),
        omega arith,
      ),
      inr (inl down),
      refl,
    )

pub post_accept_event-Posted :
    (fd : ℕ) (answer : Posting) (s : Listener) → Posted fd s (post_accept_event fd answer s)
unfolding post_accept_event
post_accept_event-Posted fd posted_done s = waits-Posted fd s
post_accept_event-Posted fd posting_waits s = elim (Bool-cases s.server.running) [
  | inl t ↦
      subst
        (λ b. Posted fd s (
          if not b
          then (false, closing fd s)
          else (false, record s { pending = s.pending ++ fd ∷ [] })))
        (sym t) (waits-Posted fd s)
  | inr f ↦
      subst
        (λ b. Posted fd s (
          if not b
          then (false, closing fd s)
          else (false, record s { pending = s.pending ++ fd ∷ [] })))
        (sym f) (closed-Posted fd s f)
]
post_accept_event-Posted fd posting_refused s = elim (Bool-cases s.server.running) [
  | inl t ↦
      subst (λ b. Posted fd s (if not b then (false, closing fd s) else (true, s))) (sym t)
        ((fd ∷ [], λ d. omega arith, omega arith), inl refl, refl)
  | inr f ↦
      subst (λ b. Posted fd s (if not b then (false, closing fd s) else (true, s))) (sym f)
        (closed-Posted fd s f)
]

-- The descriptor fd is closed or given to a session, and the server runs as before.
abbrev pub Taken : ℕ → Responder → Responder → Type 0
Taken fd r t = ((d : ℕ) → settled d t ≡ settled d r + hit d fd) × (t.running ≡ r.running)

pub process_accept-running :
    (m fd : ℕ) (r : Responder) → (process_accept m fd r).1.running ≡ r.running
unfolding process_accept get_session
process_accept-running m fd r = ground arith

pub track_session-Taken :
    (fd : ℕ) (how : Tracking) (up : Bool) (r t : Responder) (p : ℕ)
    → Taken fd r t
    → Taken fd r (track_session up how p t).1
track_session-Taken fd tracked true r t p h = h
track_session-Taken fd peer_left true r t p (same, runs) =
    let more = close_session p ∷ [] in
    (
      λ d. omega (
        arith,
        tally-append (closes d) t.calls more,
        tally-append (given d) t.calls more,
        same d,
      ),
      runs,
    )
track_session-Taken fd tracking_refused true r t p h = h
track_session-Taken fd how false r t p h = h

pub session-Taken :
    (fd : ℕ) (how : Tracking) (up : Bool) (r t : Responder) (session : Option ℕ)
    → Taken fd r t
    → Taken fd r
        (elim session as (λ o. Bool × Responder) [
          | none ↦ (false, t)
          | some p ↦ track_session up how p t
        ]).1
session-Taken fd how up r t none h = h
session-Taken fd how up r t (some p) h = track_session-Taken fd how up r t p h

pub take_connection-Taken :
    (m : ℕ) (up : Bool) (how : Tracking) (fd : ℕ) (r : Responder)
    → Taken fd r (take_connection m up how fd r).1
unfolding take_connection
take_connection-Taken m up how fd r =
    session-Taken fd how up r (process_accept m fd r).1 (process_accept m fd r).0
      (λ d. omega (arith, (process_accept-Entry m fd r).0.0 d), process_accept-running m fd r)
