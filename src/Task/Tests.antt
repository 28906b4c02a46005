-- ===== src/Task/Tests.antt =====
-- Runs of the dispatch of tasks, and its theorems at three workers.
use utility_engine_old.Base.{ℕ, ◌≤◌, ◌<◌, ◌≡◌, refl, true, some, List, [], ◌∷◌, ◌++◌, arith, length}
use utility_engine_old.Base.{get_or}
use utility_engine_old.Pool.{task}
use utility_engine_old.Task.{Object, new_object, may_add, bump_ref, add_ref, Balance, new_worker}
use utility_engine_old.Task.{task_sizes, dispatch, pos, negsuc}
use utility_engine_old.Task.Dispatch.{queue_at, dispatch-twice}

abbrev held_twice : Object
held_twice = record new_object { ref = pos 2 }

-- `add_ref` tests under the lock and adds outside of it: with `wait_ref` between the two, the
-- object that was closed is open again.
closed_then_added : (add_ref (bump_ref (record new_object { ref = negsuc 0 }))).0 ≡ true
unfolding add_ref bump_ref may_add
closed_then_added = refl

abbrev sizes : List ℕ
sizes = 5 ∷ 0 ∷ 7 ∷ []

abbrev three : Balance ℕ
three = record {
  workers = record new_worker { ntasks = 1; tasks = task 8 ∷ [] } ∷ new_worker ∷ new_worker ∷ [];
  running = true;
}

dispatch-twice_example :
    (k : ℕ) × (o' : Object) × (b' : Balance ℕ) × (b'' : Balance ℕ) × (dispatch 20 new_object three
      ≡ some (o', b'))
    × (dispatch 21 o' b' ≡ some (o', b''))
    × (queue_at k b''.workers ≡ queue_at k three.workers ++ task 20 ∷ task 21 ∷ [])
    × ((j : ℕ)
        → j < length three.workers
        → get_or (task_sizes three.workers) k 0 ≤ get_or (task_sizes three.workers) j 0)
unfolding new_object
dispatch-twice_example = dispatch-twice 20 21 new_object three refl (omega arith) refl
