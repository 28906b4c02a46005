-- ===== src/Iocp/Locks/Run.antt =====
-- Any sequence of the calls of a sender and of operations that end.
use utility_engine_old.Base.{ℕ, ◌≡◌, refl, sym}
use utility_engine_old.Base.{some, List}
use utility_engine_old.Base.{[], ◌∷◌, ◌++◌, arith}
use utility_engine_old.Session.{close}
use utility_engine_old.Epoll.{Phase}
use utility_engine_old.Iocp.{Line}
use utility_engine_old.Iocp.Steady.{closed-Kept}
use utility_engine_old.Iocp.Locks.{Race, sender_write}
use utility_engine_old.Iocp.Locks.{sender_read, end_read, Event, step, run, writes, commits}
use utility_engine_old.Iocp.Locks.{reads_first, ends_with, reads_next, closes}
use mathlib.Core.Path.{subst}
use mathlib.Core.List.{append_assoc, append-nil}
use utility_engine_old.Iocp.Locks.Single.{Single}
use utility_engine_old.Iocp.Locks.Single.{Kept-Single, sender_write-Single}
use utility_engine_old.Iocp.Locks.Sender.{Went, sender_commit-Single, sender_read-Single}
use utility_engine_old.Iocp.Locks.Ending.{op_end-Single, end_read-Single}

-- Nothing comes in, and the state is t.
went : (t : Race) (accepted : List ℕ) → Single t accepted → Went (some ([], t)) accepted
went t accepted s = ([], t, refl, subst (Single t) (sym (append-nil accepted)) s)

step-Went :
    (phase : Phase) (e : Event) (r : Race) (accepted : List ℕ)
    → Single r accepted
    → Went (step phase e r) accepted
unfolding step
step-Went phase (writes n) r accepted s =
    went (sender_write n r) accepted (sender_write-Single n r accepted s)
step-Went phase (commits c cs last) r accepted s =
    sender_commit-Single (c ∷ cs) last r accepted (omega arith) s
step-Went phase (reads_first answer) r accepted s =
    went (sender_read answer phase r) accepted (sender_read-Single answer phase r accepted s)
step-Went phase (ends_with n) r accepted s =
    let (t, e, kept) = op_end-Single n r accepted s in
    ([], t, rw (step, e) refl, subst (Single t) (sym (append-nil accepted)) kept)
step-Went phase (reads_next answer) r accepted s =
    went (end_read answer phase r) accepted (end_read-Single answer phase r accepted s)
step-Went phase (closes why) r accepted s =
    let t : Line = record r.line { session = close why r.line.session } in
    went (record r { line = t }) accepted
      (Kept-Single r t accepted (closed-Kept why r.line) (omega arith) s)

-- However the calls that a sender and the operations that end make of the buffer come between one
-- another, each under its own lock, whatever part of the bytes offered the system takes, however
-- its posts answer, and with a `close` at any time: no assertion fails, and at most one of these
-- is there at a time: a send operation, an end of one that has not read on, and a sender that was
-- asked to read; the flag that asks a sender is never true beside one of the others. The bytes
-- sent are the first of those accepted, none of them lost, repeated or out of order; and while no
-- packet is half written and the buffer notes no reader, with none of the three there, nothing is
-- left to send.
pub run-Single :
    (phase : Phase) (es : List Event) (r : Race) (accepted : List ℕ)
    → Single r accepted
    → (came : List ℕ) × (t : Race) × (run phase es r ≡ some (came, t)) × Single t (accepted ++ came)
unfolding run
run-Single phase [] r accepted s = ([], r, refl, subst (Single r) (sym (append-nil accepted)) s)
run-Single phase (e ∷ es) r accepted s =
    let (came, t, f, kept) = step-Went phase e r accepted s in
    let (more, u, g, last) = run-Single phase es t (accepted ++ came) kept in
    (came ++ more, u, rw (run, f, g) refl, subst (Single u) (append_assoc accepted came more) last)
