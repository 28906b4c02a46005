-- ===== src/Pool/Tests.antt =====
-- Runs of the thread pool, and its theorems at two tasks and two workers.
use utility_engine_old.Base.{ℕ, ◌-◌, ◌^◌, ◌≡◌, refl, List, [], ◌∷◌, ◌++◌}
use utility_engine_old.Pool.{Pool, created, init, schedule, count_up, safe_stop, get_task}
use utility_engine_old.Pool.{count_down, run_last, task_done, destroy, Event, after, run}
use utility_engine_old.Pool.{all_entered, all_given, state_start, task, on_schedule, on_count_up}
use utility_engine_old.Pool.{on_safe_stop, on_get_task, on_count_down, on_run_last, on_done}
use utility_engine_old.Pool.{on_destroy}
use utility_engine_old.Pool.Order.{tasks-run}
use utility_engine_old.Pool.Stop.{given-entered}

abbrev started : Pool ℕ
started = record created { size = 2; state = state_start }

abbrev two_tasks : List (Event ℕ)
two_tasks =
    on_schedule 7 ∷ on_count_up ∷ on_schedule 9 ∷ on_get_task ∷ on_count_up ∷ on_count_down ∷ []

abbrev whole_life : List (Event ℕ)
whole_life =
    two_tasks
    ++ on_safe_stop
      ∷ on_schedule 11
      ∷ on_get_task
      ∷ on_done
      ∷ on_get_task
      ∷ on_run_last
      ∷ on_destroy
      ∷ []

-- A worker may count a task down before its caller has counted it up: `task_size` wraps round.
counter_below_zero :
    (run (on_schedule 7 ∷ on_get_task ∷ on_count_down ∷ []) started).ntasks ≡ 2 ^ 64 - 1
unfolding run after schedule get_task count_down
counter_below_zero = refl

tasks-run_example :
    task 3 ∷ all_entered whole_life (record started { tasks = task 3 ∷ [] })
    ≡ all_given whole_life (record started { tasks = task 3 ∷ [] })
      ++ (run whole_life (record started { tasks = task 3 ∷ [] })).tasks
tasks-run_example = tasks-run whole_life (record started { tasks = task 3 ∷ [] })

given-entered_example :
    (all_given whole_life started ≡ all_entered whole_life started)
    × ((run whole_life started).tasks ≡ [])
unfolding run after schedule get_task count_down count_up safe_stop run_last task_done destroy init
given-entered_example = given-entered whole_life 2 started refl refl
