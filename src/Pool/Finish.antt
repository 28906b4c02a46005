-- ===== src/Pool/Finish.antt =====
-- `safe_stop` comes to an end: how many steps of the workers it waits for.
use utility_engine_old.Base.{ℕ, zero, suc, ◌+◌, ◌<◌, ◌≡◌, refl, sym, true, false, List, [], ◌∷◌}
use utility_engine_old.Base.{◌++◌, arith, length, replicate, length-append}
use utility_engine_old.Pool.{Job, Pool, is_none, safe_stop, get_task, run_last, destroy, Event}
use utility_engine_old.Pool.{after, run, state_none, state_start, held, task, last_task}
use utility_engine_old.Pool.{on_safe_stop, on_get_task, on_run_last, on_destroy}
use utility_engine_old.Pool.Stop.{plain, ends, ends-append}

module _ {ℓ} {A : Type ℓ} where
  pub run-append : (es fs : List (Event A)) (p : Pool A) → run (es ++ fs) p ≡ run fs (run es p)
  unfolding run
  run-append [] fs p = refl
  run-append (e ∷ es) fs p = run-append es fs (after e p)

  ends-length : (ts : List (Job A)) → ends ts ≡ true → 0 < length ts
  ends-length [] h = ground arith
  ends-length (t ∷ ts) h = omega arith

  take-last :
      (p : Pool A) (ts : List (Job A))
      → p.tasks ≡ ts
      → length ts ≡ 1
      → ends ts ≡ true
      → is_none p.state ≡ false
      → (after on_get_task p).stopper ≡ held
  unfolding after get_task
  take-last p [] e l h s = absurd (omega (arith, l))
  take-last p (task a ∷ ts) e l h s = absurd (omega (arith, l, ends-length ts h))
  take-last p (last_task ∷ ts) e l h s = ground (arith, s, e)

  last-held :
      (n : ℕ) (p : Pool A)
      → n ≡ length p.tasks
      → ends p.tasks ≡ true
      → is_none p.state ≡ false
      → (run (replicate n on_get_task) p).stopper ≡ held
  unfolding run after get_task
  last-held zero p e h s = absurd (omega (arith, e, ends-length p.tasks h))
  last-held (suc zero) p e h s = take-last p p.tasks refl (sym e) h s
  last-held (suc (suc n)) p e h s =
      last-held (suc n) (after on_get_task p) (ground (arith, e, h, s)) (ground (arith, e, h, s))
        (ground (arith, e, h, s))

  -- The steps that bring a pool down with n tasks in its queue.
  pub winding_down : ℕ → List (Event A)
  winding_down n = on_safe_stop ∷ replicate (n + 1) on_get_task ++ on_run_last ∷ on_destroy ∷ []

  down-held :
      (q : Pool A) → q.stopper ≡ held → (run (on_run_last ∷ on_destroy ∷ []) q).state ≡ state_none
  unfolding run after run_last destroy
  down-held q h = ground (arith, h)

  winding :
      (p : Pool A) (ts : List (Job A))
      → p.tasks ≡ ts
      → p.state ≡ state_start
      → plain ts ≡ true
      → (run (winding_down (length ts)) p).state ≡ state_none
  unfolding run after safe_stop winding_down get_task run_last destroy
  winding p [] e s h = ground (arith, e, s)
  winding p (t ∷ ts) e s h =
      let q = after on_safe_stop p in
      let l = length (t ∷ ts) + 1 in
      let held_at : (run (replicate l on_get_task) q).stopper ≡ held =
        last-held l q (ground (arith, e, s, length-append (t ∷ ts) (last_task ∷ [])))
          (ground (arith, e, s, ends-append (t ∷ ts) h)) (ground (arith, e, s)) in
      rw (run-append (replicate l on_get_task) (on_run_last ∷ on_destroy ∷ []) q)
        (down-held (run (replicate l on_get_task) q) held_at)

  -- A started pool is brought down by `safe_stop`: after as many turns of the workers as tasks
  -- wait, and one for its own task, the wait is over and the pool is in the state `none`.
  pub safe_stop-winding_down :
      (p : Pool A)
      → p.state ≡ state_start
      → plain p.tasks ≡ true
      → (run (winding_down (length p.tasks)) p).state ≡ state_none
  safe_stop-winding_down p s h = winding p p.tasks refl s h
