-- ===== src/Pool/Order.antt =====
-- The order in which the pool hands out the tasks of its queue.

use utility_engine_old.Base.{◌≡◌, sym, ap, ◌∙◌, List, [], ◌∷◌, ◌++◌, arith}
use utility_engine_old.Pool.{Pool, schedule, count_up, safe_stop, get_task, count_down, run_last}
use utility_engine_old.Pool.{task_done, destroy, Event, after, run, entered, given, all_entered}
use utility_engine_old.Pool.{all_given, on_schedule, on_count_up, on_safe_stop, on_get_task}
use utility_engine_old.Pool.{on_count_down, on_run_last, on_done, on_destroy}
use mathlib.Core.List.{List, append_assoc, append-nil}

module _ {ℓ} {A : Type ℓ} where
  tasks-after : (e : Event A) (p : Pool A) → p.tasks ++ entered e p ≡ given e p ++ (after e p).tasks
  unfolding after entered given schedule count_up safe_stop get_task count_down run_last task_done
      destroy
  tasks-after (on_schedule a) p = ground (arith, append-nil p.tasks)
  tasks-after on_count_up p = ground (arith, append-nil p.tasks)
  tasks-after on_safe_stop p = ground (arith, append-nil p.tasks)
  tasks-after on_get_task p = ground (arith, append-nil p.tasks)
  tasks-after on_count_down p = ground (arith, append-nil p.tasks)
  tasks-after on_run_last p = ground (arith, append-nil p.tasks)
  tasks-after on_done p = ground (arith, append-nil p.tasks)
  tasks-after on_destroy p = ground (arith, append-nil p.tasks)

  -- Whatever the threads do, no task of the queue is lost, repeated or reordered: the tasks taken
  -- out, followed by those still in the queue, are those it held at first followed by those put in.
  pub tasks-run :
      (es : List (Event A)) (p : Pool A)
      → p.tasks ++ all_entered es p ≡ all_given es p ++ (run es p).tasks
  unfolding run all_entered all_given
  tasks-run [] p = append-nil p.tasks
  tasks-run (e ∷ es) p =
      let now : p.tasks ++ entered e p ≡ given e p ++ (after e p).tasks = tasks-after e p in
      let later = tasks-run es (after e p) in
      sym (append_assoc p.tasks (entered e p) (all_entered es (after e p)))
      ∙ ap (λ l. l ++ all_entered es (after e p)) now
      ∙ append_assoc (given e p) (after e p).tasks (all_entered es (after e p))
      ∙ ap (λ l. given e p ++ l) later
      ∙ sym (append_assoc (given e p) (all_given es (after e p)) (run es (after e p)).tasks)
