-- ===== src/Controller/Turns/Run.antt =====
-- Any sequence of the workers' calls and of bytes that arrive.
use utility_engine_old.Base.{ℕ, ◌≤◌, ◌≡◌, refl, sym, ap, ◌∙◌, Option, some, List, [], ◌∷◌, ◌++◌}
use utility_engine_old.Base.{take, length-take_le}
use mathlib.Core.List.{append_assoc, append-nil}
use utility_engine_old.Rotative.{max_packet_len}
use utility_engine_old.Controller.Orderly.{stream}
use utility_engine_old.Controller.Turns.{Shift, take_task, look, Event, step, run, receives, takes}
use utility_engine_old.Controller.Turns.{looks_at, ends, goes_on}
use utility_engine_old.Controller.Turns.Manned.{Manned, take_task-Manned, look-Manned}
use utility_engine_old.Controller.Turns.Handed.{finish-Manned, go_on-Manned, arrive-Manned}

-- What an event leaves, with the bytes that came in.
abbrev pub Went : ℕ → Option (List ℕ × Shift) → List ℕ → Type 0
Went m result bytes =
    (came : List ℕ) × (t : Shift) × (result ≡ some (came, t))
    × Manned m t
    × (stream t.controller ≡ bytes ++ came)

still :
    (m : ℕ) (t : Shift) (bytes : List ℕ)
    → Manned m t × (stream t.controller ≡ bytes)
    → Went m (some ([], t)) bytes
still m t bytes (o, e) = ([], t, refl, o, e ∙ sym (append-nil bytes))

step-Went :
    (m : ℕ) (e : Event) (t : Shift)
    → m ≤ max_packet_len
    → Manned m t
    → Went m (step m e t) (stream t.controller)
unfolding step
step-Went m (receives bytes) t small o =
    let came = take t.controller.recv.last_malloc bytes in
    let (d, e, p, grown) =
      arrive-Manned m came t.controller t.workers
        (length-take_le t.controller.recv.last_malloc bytes) o in
    (came, record t { controller = d }, rw (step, e) refl, p, grown)
step-Went m takes t small o =
    still m (take_task t) (stream t.controller) (take_task-Manned m t.controller t.workers o)
step-Went m (looks_at i asked) t small o =
    still m (look i asked t) (stream t.controller)
      (look-Manned m i asked t.controller t.workers small o)
step-Went m (ends i handled) t small o =
    let (u, e, p, same) = finish-Manned m i handled t.controller t.workers o in
    ([], u, rw (step, e) refl, p, same ∙ sym (append-nil (stream t.controller)))
step-Went m (goes_on i) t small o =
    let (u, e, p, same) = go_on-Manned m i t.controller t.workers o in
    ([], u, rw (step, e) refl, p, same ∙ sym (append-nil (stream t.controller)))

-- However bytes arrive, and however many workers take tasks, read of the messages, end their handlers
-- or fail and look at the next message, each of these one step, in any order, from a state in
-- order: no assertion fails; of the tasks dispatched and the workers with a message there is at
-- most one in all; every message taken is as long as its first four bytes
-- say; and the messages taken and the readable bytes behind them are, in order, the bytes that came
-- in, none of them lost or taken twice.
pub run-Manned :
    (m : ℕ) (es : List Event) (t : Shift)
    → m ≤ max_packet_len
    → Manned m t
    → (came : List ℕ) × (u : Shift) × (run m es t ≡ some (came, u))
      × Manned m u
      × (stream u.controller ≡ stream t.controller ++ came)
unfolding run
run-Manned m [] t small o = ([], t, refl, o, sym (append-nil (stream t.controller)))
run-Manned m (e ∷ es) t small o =
    let (came, u, f, p, grown) = step-Went m e t small o in
    let (more, v, g, q, all) = run-Manned m es u small p in
    (
      came ++ more,
      v,
      rw (run, f, g) refl,
      q,
      all ∙ ap (λ l. l ++ more) grown ∙ append_assoc (stream t.controller) came more,
    )
