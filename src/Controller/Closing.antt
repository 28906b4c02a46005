-- ===== src/Controller/Closing.antt =====
-- What the workers do with the tasks of an object that was closed.
use utility_engine_old.Base.{ℕ, ◌+◌, ◌^◌, ◌<◌, ◌≡◌, refl, ap, ◌≢◌, inl, inr, Bool, false, some}
use utility_engine_old.Base.{List, [], ◌∷◌, ◌++◌, arith, ◌==◌, length}
use utility_engine_old.Controller.Orderly.{Orderly}
use utility_engine_old.Controller.{Controller, Event, close_object, handle_wrap, run, request}
use utility_engine_old.Controller.{closing, works}

-- Turns of the workers, each with what the handler would read and answer.
abbrev pub turns : List (List ℕ × Bool) → List Event
turns [] = []
turns ((asks, handled) ∷ ws) = works asks handled ∷ turns ws

turns-idle :
    (m : ℕ) (ws : List (List ℕ × Bool)) (c : Controller)
    → c.queue ≡ []
    → run m (turns ws) c ≡ some ([], c)
unfolding run handle_wrap
turns-idle m [] c q = refl
turns-idle m ((asks, handled) ∷ ws) c q =
    let same : handle_wrap m asks handled c ≡ some c = simp (handle_wrap, q) in
    rw (run, same) (turns-idle m ws c q)

-- The closing alone.
turns-closing :
    (m : ℕ) (ws : List (List ℕ × Bool)) (c : Controller)
    → c.queue ≡ closing ∷ []
    → 0 < length ws
    → run m (turns ws) c ≡ some ([], record c { queue = []; closed = c.closed + 1 })
unfolding run handle_wrap
turns-closing m [] c q some_turn = absurd (omega arith)
turns-closing m ((asks, handled) ∷ ws) c q some_turn =
    let d = record c { queue = []; closed = c.closed + 1 } in
    let e : handle_wrap m asks handled c ≡ some d = simp (handle_wrap, q) in
    rw (run, e) (turns-idle m ws d refl)

-- A request with an old key in front of it.
turns-stale :
    (m k : ℕ) (ws : List (List ℕ × Bool)) (c : Controller)
    → c.queue ≡ request k ∷ closing ∷ []
    → c.key ≢ k
    → 1 < length ws
    → run m (turns ws) c ≡ some ([], record c { queue = []; closed = c.closed + 1 })
unfolding run handle_wrap
turns-stale m k [] c q old enough = absurd (omega arith)
turns-stale m k ((asks, handled) ∷ ws) c q old enough =
    let d = record c { queue = closing ∷ [] } in
    let other : (c.key == k) ≡ false = ground (arith, old) in
    let e : handle_wrap m asks handled c ≡ some d = simp (handle_wrap, q, other) in
    rw (run, e) (turns-closing m ws d refl (omega (arith, enough)))

-- An orderly object that is closed, between any two events: within two turns of the workers, and
-- whatever they read and answer, `do_close` is called once, the request that may still have been
-- dispatched reaches no handler and tells no error, and nothing is left to do.
pub turns-close_object :
    (m : ℕ) (ws : List (List ℕ × Bool)) (c : Controller)
    → Orderly m c
    → c.key < 2 ^ 32
    → 1 < length ws
    → (t : Controller) × (run m (turns ws) (close_object c) ≡ some ([], t))
      × (t.closed ≡ c.closed + 1)
      × (t.taken ≡ c.taken)
      × (t.errors ≡ c.errors)
      × (t.recv ≡ c.recv)
      × (t.queue ≡ [])
unfolding close_object
turns-close_object m ws c o small enough =
    let d = close_object c in
    let moved : d.key ≢ c.key = omega (arith, small) in
    let alone : c.queue ≡ []
        → run m (turns ws) d ≡ some ([], record d { queue = []; closed = d.closed + 1 }) =
      λ q. turns-closing m ws d (ap (λ l. l ++ closing ∷ []) q) (omega (arith, enough)) in
    let all : run m (turns ws) d ≡ some ([], record d { queue = []; closed = d.closed + 1 }) =
      elim o.mode [
        | inl w ↦ alone w.none_queued
        | inr (inl y) ↦
            turns-stale m c.key ws d (ap (λ l. l ++ closing ∷ []) y.one_queued) moved enough
        | inr (inr h) ↦ alone h.none_queued
      ] in
    (record d { queue = []; closed = d.closed + 1 }, all, refl, refl, refl, refl, refl)
