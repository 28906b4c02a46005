-- ===== src/Epoll/Accepting/Kept.antt =====
-- What becomes of the descriptors that a server accepts.
use utility_engine_old.Base.{ℕ, ◌+◌}
use utility_engine_old.Base.{◌≡◌}
use utility_engine_old.Base.{Bool, true, false, List}
use utility_engine_old.Base.{[], ◌∷◌, ◌++◌, arith}
use utility_engine_old.Epoll.Accepting.Ledger.{tally, occurs, to}
use utility_engine_old.Epoll.Accepting.Ledger.{Ledger}
use utility_engine_old.Epoll.Accepting.{Accepted, Accepting}
use utility_engine_old.Epoll.Accepting.{taken, accept_interrupted, would_block}
use utility_engine_old.Epoll.Accepting.{accept_failed, stop_called}
use utility_engine_old.Epoll.{Outcome, ok, throws}
use utility_engine_old.Responder.{Responder}

-- `accept` ends the loop at some time: the connections that wait are finitely many.
abbrev pub Answered : List Accepted → Type 0
Answered [] = ⊥
Answered (accept_interrupted ∷ answers) = Answered answers
Answered (stop_called ∷ answers) = Answered answers
Answered (would_block ∷ answers) = Unit {0}
Answered (accept_failed ∷ answers) = Unit {0}
Answered (taken fd added ∷ answers) = Answered answers

-- The sessions watched are those that were given, unless an error was thrown.
abbrev pub Watched : Responder → Outcome (List ℕ) → Responder → Type 0
Watched r throws t = Unit {0}
Watched r (ok ps) t = (q : ℕ) → occurs q ps + tally (to q) r.calls ≡ tally (to q) t.calls

pub occurs-append : (d : ℕ) (xs ys : List ℕ) → occurs d (xs ++ ys) ≡ occurs d xs + occurs d ys
occurs-append d [] ys = omega arith
occurs-append d (x ∷ xs) ys = omega (arith, occurs-append d xs ys)

-- Every session given is watched, unless an error was thrown.
abbrev pub AllWatched : Responder → Outcome (Unit {0}) → List ℕ → Responder → Type 0
AllWatched r throws ps t = Unit {0}
AllWatched r (ok _) ps t = (q : ℕ) → occurs q ps + tally (to q) r.calls ≡ tally (to q) t.calls

-- What the loop leaves, begun with the server r.
abbrev pub Kept : Responder → Accepting → Type 0
Kept r a = Ledger r a.taken_fds a.server × AllWatched r a.outcome a.watched a.server

-- A descriptor that stays disarmed without an error is that of a server that was stopped.
abbrev pub Armed : Outcome Bool → Bool → Type 0
Armed throws running = Unit {0}
Armed (ok true) running = Unit {0}
Armed (ok false) running = running ≡ false
