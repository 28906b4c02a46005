-- ===== src/Pool/Stop.antt =====
-- `safe_stop`: what has become of the queue once the pool is down.
use utility_engine_old.Base.{ℕ, ◌≡◌, refl, sym, ap, ◌∙◌, Bool, true, false, not, ◌&&◌, some, List}
use utility_engine_old.Base.{[], ◌∷◌, ◌++◌, arith, if◌then◌else◌}
use utility_engine_old.Pool.{Job, Pool, is_start, is_none, created, init, schedule, count_up}
use utility_engine_old.Pool.{safe_stop, get_task, count_down, run_last, task_done, destroy, Event}
use utility_engine_old.Pool.{after, run, all_entered, all_given, state_none, absent, waiting, held}
use utility_engine_old.Pool.{released, task, last_task, on_schedule, on_count_up, on_safe_stop}
use utility_engine_old.Pool.{on_get_task, on_count_down, on_run_last, on_done, on_destroy}
use utility_engine_old.Pool.Order.{tasks-run}
use mathlib.Core.List.{append-nil}

module _ {ℓ} {A : Type ℓ} where
  abbrev pub is_empty : List (Job A) → Bool
  is_empty [] = true
  is_empty (t ∷ ts) = false

  -- No task of `safe_stop` is in the queue.
  abbrev pub plain : List (Job A) → Bool
  plain [] = true
  plain (task a ∷ ts) = plain ts
  plain (last_task ∷ ts) = false

  -- The task of `safe_stop` is the last of the queue.
  abbrev pub ends : List (Job A) → Bool
  ends [] = false
  ends (task a ∷ ts) = ends ts
  ends (last_task ∷ ts) = is_empty ts

  -- What the queue holds in each state of `safe_stop`.
  pub sound : Pool A → Bool
  sound p = elim p.stopper [
    | absent ↦ if is_none p.state then is_empty p.tasks else is_start p.state && plain p.tasks
    | waiting ↦ not (is_start p.state) && not (is_none p.state) && ends p.tasks
    | held ↦ not (is_start p.state) && not (is_none p.state) && is_empty p.tasks
    | released ↦ not (is_start p.state) && not (is_none p.state) && is_empty p.tasks
  ]

  pub plain-append : (ts : List (Job A)) (a : A) → plain (ts ++ task a ∷ []) ≡ plain ts
  plain-append [] a = refl
  plain-append (task b ∷ ts) a = plain-append ts a
  plain-append (last_task ∷ ts) a = refl

  pub ends-append : (ts : List (Job A)) → plain ts ≡ true → ends (ts ++ last_task ∷ []) ≡ true
  ends-append [] h = refl
  ends-append (task b ∷ ts) h = ends-append ts h
  ends-append (last_task ∷ ts) h = ground arith

  sound-after : (e : Event A) (p : Pool A) → sound p ≡ true → sound (after e p) ≡ true
  unfolding sound after schedule count_up safe_stop get_task count_down run_last task_done destroy
  sound-after (on_schedule a) p h = ground (arith, plain-append p.tasks a)
  sound-after on_count_up p h = ground arith
  sound-after on_safe_stop p h = ground (arith, ends-append p.tasks)
  sound-after on_get_task p h = ground arith
  sound-after on_count_down p h = ground arith
  sound-after on_run_last p h = ground arith
  sound-after on_done p h = ground arith
  sound-after on_destroy p h = ground arith

  sound-run : (es : List (Event A)) (p : Pool A) → sound p ≡ true → sound (run es p) ≡ true
  unfolding run
  sound-run [] p h = h
  sound-run (e ∷ es) p h = sound-run es (after e p) (sound-after e p h)

  -- Whatever the threads do with a pool that was just started: if the pool is down, the workers
  -- have taken every task that was accepted, in the order of acceptance, and the queue is empty.
  pub given-entered :
      (es : List (Event A)) (n : ℕ) (p : Pool A)
      → init n created ≡ some p
      → (run es p).state ≡ state_none
      → (all_given es p ≡ all_entered es p) × ((run es p).tasks ≡ [])
  unfolding init sound
  given-entered es n p e down =
      let s : sound p ≡ true = ground (arith, e) in
      let t = sound-run es p s in
      let none_left : (run es p).tasks ≡ [] = ground (arith, t, down) in
      let at_first : p.tasks ≡ [] = ground (arith, e) in
      let order = tasks-run es p in
      (
        sym (append-nil (all_given es p))
            ∙ ap (λ l. all_given es p ++ l) (sym none_left)
            ∙ sym order
            ∙ ap (λ l. l ++ all_entered es p) at_first,
        none_left,
      )
