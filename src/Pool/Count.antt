-- ===== src/Pool/Count.antt =====
-- What the counter `m_ntasks` of the pool is worth, which `task_size` reads without the lock.
use utility_engine_old.Base.{ℕ, ◌+◌, ◌%◌, ◌<◌, ◌≡◌, some, List, [], ◌∷◌, arith, ulong_mod, length}
use utility_engine_old.Base.{length-append}
use utility_engine_old.Pool.{Pool, created, init, schedule, count_up, safe_stop, get_task}
use utility_engine_old.Pool.{count_down, run_last, task_done, destroy, Event, after, run, task}
use utility_engine_old.Pool.{last_task, on_schedule, on_count_up, on_safe_stop, on_get_task}
use utility_engine_old.Pool.{on_count_down, on_run_last, on_done, on_destroy}

-- The counter and the queue agree once every thread has moved the counter.
pub Counted {ℓ} : {A : Type ℓ} → Pool A → Type 0
Counted p =
    (p.ntasks + p.adding) % ulong_mod ≡ (length p.tasks + p.taking) % ulong_mod
    × (p.ntasks < ulong_mod)

module _ {ℓ} {A : Type ℓ} where
  after-Counted : (e : Event A) (p : Pool A) → Counted p → Counted (after e p)
  unfolding Counted after schedule count_up safe_stop get_task count_down run_last task_done destroy
  after-Counted (on_schedule a) p h = ground (arith, h.0, h.1, length-append p.tasks (task a ∷ []))
  after-Counted on_count_up p h = ground (arith, h.0, h.1)
  after-Counted on_safe_stop p h = ground (arith, h.0, h.1, length-append p.tasks (last_task ∷ []))
  after-Counted on_get_task p h = ground (arith, h.0, h.1)
  after-Counted on_count_down p h = ground (arith, h.0, h.1)
  after-Counted on_run_last p h = ground (arith, h.0, h.1)
  after-Counted on_done p h = ground (arith, h.0, h.1)
  after-Counted on_destroy p h = ground (arith, h.0, h.1)

  run-Counted : (es : List (Event A)) (p : Pool A) → Counted p → Counted (run es p)
  unfolding run
  run-Counted [] p h = h
  run-Counted (e ∷ es) p h = run-Counted es (after e p) (after-Counted e p h)

  -- From a pool that was just started, once no thread is between its lock and the counter,
  -- `task_size` is the number of tasks in the queue, if they are fewer than 2 ^ 64.
  pub ntasks-length :
      (es : List (Event A)) (n : ℕ) (p : Pool A)
      → init n created ≡ some p
      → (run es p).adding ≡ 0
      → (run es p).taking ≡ 0
      → length (run es p).tasks < ulong_mod
      → (run es p).ntasks ≡ length (run es p).tasks
  unfolding init Counted
  ntasks-length es n p e a t small =
      let c : Counted p = ground (arith, e) in let d = run-Counted es p c in omega (arith, d.0, d.1)
