-- ===== src/Task/Dispatch.antt =====
-- Where `dispatcher_balance` sends the tasks of one object.
use utility_engine_old.Base.{ℕ, zero, suc, ◌-◌, ◌≤◌, ◌<◌, ◌≡◌, refl, ap, ◌∙◌, inl, Bool, true, ◌&&◌}
use utility_engine_old.Base.{some, List, [], ◌∷◌, ◌++◌, arith, length, get_or}
use utility_engine_old.Pool.{Job, Pool, is_start, schedule, task}
use utility_engine_old.Task.{Object, get_worker, Balance, task_sizes, schedule_at, dispatch}
use mathlib.Core.List.{append_assoc}
use utility_engine_old.Task.Least.{get_worker-kept, get_worker-least}

module _ {ℓ} {A : Type ℓ} where
  length-task_sizes : (ps : List (Pool A)) → length (task_sizes ps) ≡ length ps
  length-task_sizes [] = refl
  length-task_sizes (p ∷ ps) = ap suc (length-task_sizes ps)

  length-schedule_at :
      (i : ℕ) (a : A) (ps : List (Pool A)) → length (task_sizes (schedule_at i a ps)) ≡ length ps
  length-schedule_at i a [] = refl
  length-schedule_at zero a (p ∷ ps) = ap suc (length-task_sizes ps)
  length-schedule_at (suc i) a (p ∷ ps) = ap suc (length-schedule_at i a ps)

  -- The queue of the i-th worker.
  pub queue_at : ℕ → List (Pool A) → List (Job A)
  queue_at i [] = []
  queue_at zero (p ∷ ps) = p.tasks
  queue_at (suc i) (p ∷ ps) = queue_at i ps

  abbrev pub all_started : List (Pool A) → Bool
  all_started [] = true
  all_started (p ∷ ps) = is_start p.state && all_started ps

  queue_at-schedule_at :
      (i : ℕ) (a : A) (ps : List (Pool A))
      → i < length ps
      → all_started ps ≡ true
      → (queue_at i (schedule_at i a ps) ≡ queue_at i ps ++ task a ∷ [])
        × (all_started (schedule_at i a ps) ≡ true)
  unfolding queue_at schedule
  queue_at-schedule_at i a [] lt h = absurd (omega (arith, lt))
  queue_at-schedule_at zero a (p ∷ ps) lt h = (ground (arith, h), ground (arith, h))
  queue_at-schedule_at (suc i) a (p ∷ ps) lt h =
      let (q, s) = queue_at-schedule_at i a ps (omega (arith, lt)) (ground (arith, h)) in
      (q, ground (arith, h, s))

  first_worker :
      (ps : List (Pool A)) (n : ℕ)
      → n ≡ 0
      → 0 < length ps
      → (k : ℕ) × (get_worker (task_sizes ps) n ≡ some (suc k))
        × (k < length ps)
        × ((j : ℕ) → j < length ps → get_or (task_sizes ps) k 0 ≤ get_or (task_sizes ps) j 0)
  first_worker [] n e lt = absurd (omega (arith, lt))
  first_worker (p ∷ ps) n e lt =
      let (k, w, below, low) = get_worker-least p.ntasks (task_sizes ps) n (inl e) in
      (
        k,
        w,
        omega (arith, below, length-task_sizes ps),
        λ j h. low j (omega (arith, h, length-task_sizes ps)),
      )

  dispatch-at :
      (k : ℕ) (a : A) (o : Object) (b : Balance A)
      → get_worker (task_sizes b.workers) o.worker_index ≡ some (suc k)
      → dispatch a o b
        ≡ some (record o { worker_index = suc k }, record b { workers = schedule_at k a b.workers })
  unfolding dispatch
  dispatch-at k a o b e =
      let n : suc k - 1 ≡ k = omega arith in
      rw (e, dispatch)
        (ap
          (λ i.
            some
              (record o { worker_index = suc k }, record b { workers = schedule_at i a b.workers }))
          n)

  -- Two tasks of an object that has no worker yet, on started workers: both are accepted, they go
  -- to the same worker, one behind the other, at the end of its queue; and when the first was sent
  -- no worker had fewer tasks.
  pub dispatch-twice :
      (a c : A) (o : Object) (b : Balance A)
      → o.worker_index ≡ 0
      → 0 < length b.workers
      → all_started b.workers ≡ true
      → (k : ℕ) × (o' : Object) × (b' : Balance A) × (b'' : Balance A) × (dispatch a o b
          ≡ some (o', b'))
        × (dispatch c o' b' ≡ some (o', b''))
        × (queue_at k b''.workers ≡ queue_at k b.workers ++ task a ∷ task c ∷ [])
        × ((j : ℕ)
            → j < length b.workers
            → get_or (task_sizes b.workers) k 0 ≤ get_or (task_sizes b.workers) j 0)
  dispatch-twice a c o b none_yet some_worker st =
      let (k, e, lt, low) = first_worker b.workers o.worker_index none_yet some_worker in
      let ws = schedule_at k a b.workers in
      let o' = record o { worker_index = suc k } in
      let kept : get_worker (task_sizes ws) (suc k) ≡ some (suc k) =
        get_worker-kept (task_sizes ws) (suc k) (omega arith)
          (omega (arith, lt, length-schedule_at k a b.workers)) in
      let (q, s) = queue_at-schedule_at k a b.workers lt st in
      let lt' : k < length ws =
        omega (arith, lt, length-schedule_at k a b.workers, length-task_sizes ws) in
      let (q', s') = queue_at-schedule_at k c ws lt' s in
      (
        k,
        o',
        record b { workers = ws },
        record b { workers = schedule_at k c ws },
        dispatch-at k a o b e,
        dispatch-at k c o' (record b { workers = ws }) kept,
        q'
            ∙ ap (λ l. l ++ task c ∷ []) q
            ∙ append_assoc (queue_at k b.workers) (task a ∷ []) (task c ∷ []),
        low,
      )
