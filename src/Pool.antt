-- ===== src/Pool.antt =====
-- The thread pool `thread_pool_wrap` and `thread_pool<0, T>`
-- (UtilityEngine/include/com_thread_pool.hpp): a queue of tasks that several threads share.
-- Each event is one stretch of one thread between its locks. The counter `m_ntasks` is moved
-- outside the lock, so the threads that have still to move it are counted.
pub mod Order
pub mod Count
pub mod Stop
pub mod Finish
mod Tests
use utility_engine_old.Base.{◌++◌, ◌%◌, some, not, ◌-◌, none, true, ◌∷◌, false, ◌==◌, Bool, []}
use utility_engine_old.Base.{if◌then◌else◌, ◌+◌, Option, List, ℕ, ltb, ulong_mod, check}

-- `thread_pool_wrap::state`
pub data State : Type 0 where
  state_none state_stop state_start : State

-- The thread inside `safe_stop`: none, one that waits for its own task, that task in the hands of
-- a worker, that task run, or none to wait for.
pub data Stopper : Type 0 where
  absent waiting held released : Stopper

-- A task of the queue: one scheduled, or the one that `safe_stop` puts behind them.
pub data Job {ℓ} (A : Type ℓ) : Type ℓ where
  task : A → Job A
  last_task : Job A

pub record Pool {ℓ} (A : Type ℓ) : Type ℓ where
  pub tasks : List (Job A)
  pub size : ℕ
  pub working : ℕ
  pub ntasks : ℕ
  pub state : State
  -- workers and callers between the unlock and the change of `m_ntasks`
  pub adding : ℕ
  pub taking : ℕ
  pub stopper : Stopper

abbrev pub is_start : State → Bool
is_start state_none = false
is_start state_stop = false
is_start state_start = true

abbrev pub is_none : State → Bool
is_none state_none = true
is_none state_stop = false
is_none state_start = false

module _ {ℓ} {A : Type ℓ} where
  -- The pool before `init`.
  abbrev pub created : Pool A
  created = record {
    tasks = [];
    size = 0;
    working = 0;
    ntasks = 0;
    state = state_none;
    adding = 0;
    taking = 0;
    stopper = absent;
  }

  -- `thread_pool<0, T>::init` and `_init`; the threads start in `get_task`.
  unfoldable pub init : ℕ → Pool A → Option (Pool A)
  init n p =
      check (not (n == 0))
        (if is_none p.state then some (record p { size = n; state = state_start }) else some p)

  -- `schedule`, up to its unlock.
  unfoldable pub schedule : A → Pool A → Bool × Pool A
  schedule a p =
      if is_start p.state
      then (true, record p { tasks = p.tasks ++ task a ∷ []; adding = p.adding + 1 })
      else (false, p)

  -- `++m_ntasks`
  pub count_up : Pool A → Pool A
  count_up p =
      if p.adding == 0
      then p
      else record p { adding = p.adding - 1; ntasks = (p.ntasks + 1) % ulong_mod }

  -- `safe_stop`, up to the wait for its own task.
  pub safe_stop : Pool A → Bool × Pool A
  safe_stop p =
      if is_start p.state
      then (elim p.tasks [
        | [] ↦ (true, record p { state = state_stop; stopper = released })
        | t ∷ ts ↦ (
          true,
          record p {
            state = state_stop;
            tasks = t ∷ ts ++ last_task ∷ [];
            adding = p.adding + 1;
            stopper = waiting;
          },
        )
      ])
      else (false, p)

  -- `get_task`, up to its unlock: `none` while the thread waits and when it is told to end.
  pub get_task : Pool A → Option (Job A) × Pool A
  get_task p = if is_none p.state then (none, p) else elim p.tasks [
    | [] ↦ (none, p)
    | task a ∷ ts ↦ (
      some (task a),
      record p { tasks = ts; working = (p.working + 1) % ulong_mod; taking = p.taking + 1 },
    )
    | last_task ∷ ts ↦ (
      some last_task,
      record p {
        tasks = ts;
        working = (p.working + 1) % ulong_mod;
        taking = p.taking + 1;
        stopper = held;
      },
    )
  ]

  -- `--m_ntasks`
  pub count_down : Pool A → Pool A
  count_down p =
      if p.taking == 0
      then p
      else record p { taking = p.taking - 1; ntasks = (p.ntasks + (ulong_mod - 1)) % ulong_mod }

  -- The worker that holds the last task runs it.
  pub run_last : Pool A → Pool A
  run_last p = elim p.stopper [
    | absent ↦ p
    | waiting ↦ p
    | held ↦ record p { stopper = released }
    | released ↦ p
  ]

  -- A worker whose task has returned: `--m_working` at the top of its loop.
  pub task_done : Pool A → Pool A
  task_done p = record p { working = (p.working + (ulong_mod - 1)) % ulong_mod }

  -- `_destory`, called by `safe_stop` once its task has run.
  pub destroy : Pool A → Pool A
  destroy p = elim p.stopper [
    | absent ↦ p
    | waiting ↦ p
    | held ↦ p
    | released ↦ record p { state = state_none; stopper = absent }
  ]

-- What the threads do, in the order in which it happens.
pub data Event {ℓ} (A : Type ℓ) : Type ℓ where
  on_schedule : A → Event A
  on_count_up on_safe_stop on_get_task on_count_down on_run_last on_done on_destroy : Event A

module _ {ℓ} {A : Type ℓ} where
  unfoldable pub after : Event A → Pool A → Pool A
  after (on_schedule a) p = (schedule a p).1
  after on_count_up p = count_up p
  after on_safe_stop p = (safe_stop p).1
  after on_get_task p = (get_task p).1
  after on_count_down p = count_down p
  after on_run_last p = run_last p
  after on_done p = task_done p
  after on_destroy p = destroy p

  unfoldable pub run : List (Event A) → Pool A → Pool A
  run [] p = p
  run (e ∷ es) p = run es (after e p)

  -- The task that an event puts into the queue, and the one it takes out of it.
  pub entered : Event A → Pool A → List (Job A)
  entered (on_schedule a) p = if is_start p.state then task a ∷ [] else []
  entered on_count_up p = []
  entered on_safe_stop p =
      if is_start p.state then (elim p.tasks [ [] ↦ [] | t ∷ ts ↦ last_task ∷ [] ]) else []
  entered on_get_task p = []
  entered on_count_down p = []
  entered on_run_last p = []
  entered on_done p = []
  entered on_destroy p = []

  pub given : Event A → Pool A → List (Job A)
  given (on_schedule a) p = []
  given on_count_up p = []
  given on_safe_stop p = []
  given on_get_task p = elim (get_task p).0 [ none ↦ [] | some t ↦ t ∷ [] ]
  given on_count_down p = []
  given on_run_last p = []
  given on_done p = []
  given on_destroy p = []

  pub all_entered : List (Event A) → Pool A → List (Job A)
  all_entered [] p = []
  all_entered (e ∷ es) p = entered e p ++ all_entered es (after e p)

  pub all_given : List (Event A) → Pool A → List (Job A)
  all_given [] p = []
  all_given (e ∷ es) p = given e p ++ all_given es (after e p)
