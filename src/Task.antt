-- ===== src/Task.antt =====
-- The tasks and their dispatch to workers: `object_iface` (UtilityEngine/src/task_object.cpp),
-- `dispatcher_balance` (UtilityEngine/src/task_dispatcher_balance.cpp) and `dispatcher_pool`
-- (UtilityEngine/src/task_dispatcher_pool.cpp), over the thread pools of Pool.
pub mod Reference
pub mod Least
pub mod Dispatch
mod Tests
use utility_engine_old.Pool.{state_start, schedule, created, init, Pool}
use utility_engine_old.Base.{ℕ, zero, suc, ◌+◌, ◌-◌, ◌*◌, ◌/◌, ◌%◌, ◌^◌, ◌≤◌, ◌<◌, min, max}
use utility_engine_old.Base.{bit_and, bit_or, bit_xor, ◌≡◌, refl, sym, ap, ap₂, ◌∙◌, ◌≢◌, ◌↔◌, ◌⊎◌}
use utility_engine_old.Base.{inl, inr, Bool, true, false, not, ◌&&◌, ◌||◌, Option, none, some, List}
use utility_engine_old.Base.{[], ◌∷◌, ◌++◌, map, arith, ltb, leb, ◌==◌, if◌then◌else◌, Bool-cases}
use utility_engine_old.Base.{ltb→lt, ltb→ge, lt→ltb, le→ltb, ==→eq, eq→==, check, sub_ulong}
use utility_engine_old.Base.{ulong_mod, length, get_elem?, get_or, set, take, drop, tabulate}
use utility_engine_old.Base.{replicate, length-append, length-set, length-tabulate, length-take}
use utility_engine_old.Base.{length-drop, take-append-drop, take-append, drop-append, drop-drop}
use utility_engine_old.Base.{take-append_le, drop-append_le, take-append_ge, drop-append_ge}
use utility_engine_old.Base.{drop-length, take-length, get_or-set_self, get_or-set_ne}

-- The values of `atomic_int m_ref`.
pub data ℤ : Type 0 where
  pos : ℕ → ℤ
  negsuc : ℕ → ℤ

-- `object_iface`
pub record Object : Type 0 where
  pub compkey : ℕ
  pub worker_index : ℕ
  pub ref : ℤ

pub new_object : Object
new_object = record { compkey = 0; worker_index = 0; ref = pos 0 }

abbrev pub is_negative : ℤ → Bool
is_negative (pos n) = false
is_negative (negsuc n) = true

abbrev pub increment : ℤ → ℤ
increment (pos n) = pos (n + 1)
increment (negsuc zero) = pos 0
increment (negsuc (suc n)) = negsuc n

abbrev pub decrement : ℤ → ℤ
decrement (pos zero) = negsuc 0
decrement (pos (suc n)) = pos n
decrement (negsuc n) = negsuc (n + 1)

-- `add_ref` in its two steps: the test under the lock, and the increment behind it.
pub may_add : Object → Bool
may_add o = not (is_negative o.ref)

pub bump_ref : Object → Object
bump_ref o = record o { ref = increment o.ref }

pub add_ref : Object → Bool × Object
add_ref o = if may_add o then (true, bump_ref o) else (false, o)

pub sub_ref : Object → Object
sub_ref o = record o { ref = decrement o.ref }

-- `m_ref.compare_exchange_weak(0, -1)`, one that does not fail at random
abbrev pub exchange : ℤ → Bool × ℤ
exchange (pos zero) = (true, negsuc 0)
exchange (pos (suc n)) = (false, pos (suc n))
exchange (negsuc n) = (false, negsuc n)

-- The loop of `wait_ref` on fuel: it turns while the exchange succeeds; `none` is out of fuel.
pub wait_loop : ℕ → ℤ → Option ℤ
wait_loop zero r = none
wait_loop (suc fuel) r =
    let again = wait_loop fuel (exchange r).1 in
    if (exchange r).0 then again else some (exchange r).1

pub wait_ref : ℕ → Object → Option Object
wait_ref fuel o = elim (wait_loop fuel o.ref) [
  | none ↦ none
  | some r ↦ some (record o { compkey = (o.compkey + 1) % 2 ^ 32; ref = r })
]

pub reset_ref : Object → Object
reset_ref o = record o { ref = pos 0 }

-- The loop of `get_worker` over the workers from index i on, each by its `task_size`.
pub least : List ℕ → ℕ → ℕ → ℕ → ℕ
least [] i min_task n = n
least (ntask ∷ rest) i min_task n =
    let lower = least rest (i + 1) ntask (i + 1) in
    let same = least rest (i + 1) min_task n in if ltb ntask min_task then lower else same

-- `get_worker`: the worker's number, from 1 on. Without workers the source reads a null pointer.
pub get_worker : List ℕ → ℕ → Option ℕ
get_worker [] n = none
get_worker (first ∷ rest) n =
    let kept = if ltb (suc (length rest)) n then 0 else n in
    if ltb 0 kept then some kept else some (least rest 1 first 1)

-- `dispatcher_balance` over tasks A
pub record Balance {ℓ} (A : Type ℓ) : Type ℓ where
  pub workers : List (Pool A)
  pub running : Bool

module _ {ℓ} {A : Type ℓ} where
  -- A worker is a `thread_pool<1, T>`, which its constructor starts.
  abbrev pub new_worker : Pool A
  new_worker = record created { size = 1; state = state_start }

  pub start_balance : ℕ → Balance A → Option (Balance A)
  start_balance nworker b = check (ltb 0 nworker) (
      if b.running
      then some b
      else some (record { workers = replicate nworker new_worker; running = true }))

  abbrev pub task_sizes : List (Pool A) → List ℕ
  task_sizes ps = map (λ p. p.ntasks) ps

  -- `worker->schedule` of the i-th worker.
  abbrev pub schedule_at : ℕ → A → List (Pool A) → List (Pool A)
  schedule_at i a [] = []
  schedule_at zero a (p ∷ ps) = (schedule a p).1 ∷ ps
  schedule_at (suc i) a (p ∷ ps) = p ∷ schedule_at i a ps

  -- `dispatch` of a task on an object.
  pub dispatch : A → Object → Balance A → Option (Object × Balance A)
  dispatch a o b = elim (get_worker (task_sizes b.workers) o.worker_index) [
    | none ↦ none
    | some n ↦
        some (record o { worker_index = n }, record b { workers = schedule_at (n - 1) a b.workers })
  ]

-- `dispatcher_pool` over tasks A
pub record Shared {ℓ} (A : Type ℓ) : Type ℓ where
  pub pool : Pool A
  pub on : Bool

module _ {ℓ} {A : Type ℓ} where
  pub start_pool : ℕ → Shared A → Option (Shared A)
  start_pool nworker s = check (ltb 0 nworker) (
      if s.on then some s else elim (init nworker s.pool) [
        | none ↦ none
        | some p ↦ some (record { pool = p; on = true })
      ])

  pub dispatch_pool : A → Shared A → Shared A
  dispatch_pool a s = record s { pool = (schedule a s.pool).1 }
