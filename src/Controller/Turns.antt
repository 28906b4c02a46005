-- ===== src/Controller/Turns.antt =====
-- The turns of the workers cut where they leave the controller
-- (UtilityEngine/include/msg_controler.hpp): a task is taken; `get_handle` and the handler read of the
-- message, piece by piece; the handler ends, and the bytes of the message are given back; the rest of
-- `commit` is done and the next message is looked at. Bytes may arrive, and other workers take
-- tasks, between any two of these. `comfirm`, with what its caller dispatches, is one step.
pub mod Manned
pub mod Handed
pub mod Run
mod Tests
use utility_engine_old.Base.{ℕ, zero, suc, ◌+◌, Bool, not, Option, none, some, List, [], ◌∷◌, ◌++◌}
use utility_engine_old.Base.{arith, ◌==◌, if◌then◌else◌, take, get_elem?}
use utility_engine_old.Rotative.{commit_read, next, reset, set_read_limit}
use utility_engine_old.Rotative.Contents.{contents}
use utility_engine_old.Controller.{Controller, request, closing, arrive, post_request}

-- A worker with a request of a key: it may read of the message; or the message's bytes were given
-- back, and the rest of `commit` is to do.
pub data Worker : Type 0 where
  handles : ℕ → Worker
  has_left : ℕ → Worker

-- The controller, and the workers that are with it.
pub record Shift : Type 0 where
  pub controller : Controller
  pub workers : List Worker

abbrev pub all_but : ℕ → List Worker → List Worker
all_but i [] = []
all_but zero (w ∷ ws) = ws
all_but (suc i) (w ∷ ws) = w ∷ all_but i ws

-- The beginning of `handle_wrap`, with the first task of the queue.
unfoldable pub take_task : Shift → Shift
take_task t =
    let c = t.controller in
    elim c.queue [
      | [] ↦ t
      | closing ∷ q ↦ record t { controller = record c { queue = q; closed = c.closed + 1 } }
      | request compkey ∷ q ↦ record {
        controller = record c { queue = q };
        workers = if c.key == compkey then t.workers ++ handles compkey ∷ [] else t.workers;
      }
    ]

-- The worker i asks for so many bytes of the message.
unfoldable pub look : ℕ → ℕ → Shift → Shift
look i asked t =
    let c = t.controller in
    elim (get_elem? t.workers i) [
      | none ↦ t
      | some (has_left compkey) ↦ t
      | some (handles compkey) ↦ record t { controller = record c { recv = (next asked c.recv).2 } }
    ]

-- The handler of the worker i ends, or there is none: an error, or the `commit_read` of `commit`.
unfoldable pub finish : ℕ → Bool → Shift → Option Shift
finish i handled t =
    let c = t.controller in
    let rest = all_but i t.workers in
    elim (get_elem? t.workers i) [
      | none ↦ some t
      | some (has_left compkey) ↦ some t
      | some (handles compkey) ↦
          if not handled
          then some (record {
            controller = record c { errors = c.errors ++ compkey ∷ [] };
            workers = rest;
          })
          else elim (commit_read c.m_size c.recv) [
            | none ↦ none
            | some b ↦ some (record {
              controller = record c {
                recv = b;
                taken = c.taken ++ take c.m_size (contents c.recv) ∷ [];
              };
              workers = rest ++ has_left compkey ∷ [];
            })
          ]
    ]

-- The rest of `commit`, and `comfirm` with what `handle_wrap` makes of it.
unfoldable pub go_on : ℕ → ℕ → Shift → Option Shift
go_on m i t =
    let c = t.controller in
    elim (get_elem? t.workers i) [
      | none ↦ some t
      | some (handles compkey) ↦ some t
      | some (has_left compkey) ↦
          elim (post_request m compkey
            (record c { recv = set_read_limit 0 (reset c.recv); m_size = 0 })) [
              | none ↦ none
              | some d ↦ some (record { controller = d; workers = all_but i t.workers })
            ]
    ]

-- The calls of the workers, and the bytes that the system gives, at most those asked for.
pub data Event : Type 0 where
  receives : List ℕ → Event
  takes : Event
  looks_at : ℕ → ℕ → Event
  ends : ℕ → Bool → Event
  goes_on : ℕ → Event

-- The bytes that came in, and the state.
unfoldable pub step : ℕ → Event → Shift → Option (List ℕ × Shift)
unfolding take_task look finish go_on
step m (receives bytes) t =
    let came = take t.controller.recv.last_malloc bytes in
    elim (arrive m came t.controller) [
      | none ↦ none
      | some c ↦ some (came, record t { controller = c })
    ]
step m takes t = some ([], take_task t)
step m (looks_at i asked) t = some ([], look i asked t)
step m (ends i handled) t = elim (finish i handled t) [ none ↦ none | some u ↦ some ([], u) ]
step m (goes_on i) t = elim (go_on m i t) [ none ↦ none | some u ↦ some ([], u) ]

unfoldable pub run : ℕ → List Event → Shift → Option (List ℕ × Shift)
unfolding step
run m [] t = some ([], t)
run m (e ∷ es) t = elim (step m e t) [
  | none ↦ none
  | some (came, u) ↦ elim (run m es u) [ none ↦ none | some (more, v) ↦ some (came ++ more, v) ]
]
