-- ===== src/Controller/Turns/Manned.antt =====
-- What a worker is with, between two of its calls.
use utility_engine_old.Base.{ℕ, zero, suc, ◌≤◌, ◌<◌, ◌≡◌, refl, sym, ap, ◌∙◌, inl, inr}
use utility_engine_old.Base.{true, false, Option, some, List, [], ◌∷◌, ◌++◌, arith, ◌==◌}
use utility_engine_old.Base.{length}
use mathlib.Core.Path.{subst}
use utility_engine_old.Rotative.{max_packet_len}
use utility_engine_old.Rotative.Invariant.{IsValid}
use utility_engine_old.Rotative.Contents.{length-contents}
use utility_engine_old.Rotative.Message.{next-Keeps}
use utility_engine_old.Parser.Zero.{concat}
use utility_engine_old.Controller.{Controller, request}
use utility_engine_old.Controller.Orderly.{Ready, AllFramed}
use utility_engine_old.Controller.Orderly.{stream}
use utility_engine_old.Controller.Confirm.{Sized-same}
use utility_engine_old.Controller.Arrive.{Mode}
use utility_engine_old.Controller.Turns.{Worker, handles, has_left, Shift, take_task, look}

-- The controller as it was when its one request was in the queue.
abbrev pub queued : Controller → Controller
queued c = record c { queue = request c.key ∷ [] }

-- No worker is there, and the controller is in one of its modes; or one worker is, no task is
-- dispatched and the flag is not set; never are there two.
abbrev pub Team : ℕ → Controller → List Worker → Type 0
Team m c [] = Mode m c
Team m c (handles k ∷ []) = (k ≡ c.key) × (c.queue ≡ []) × Ready m (queued c)
Team m c (has_left k ∷ []) = (k ≡ c.key) × (c.queue ≡ []) × (0 < c.recv.last_read)
Team m c (w ∷ v ∷ ws) = true ≡ false

pub record Manned (m : ℕ) (t : Shift) : Type 0 where
  pub valid : IsValid t.controller.recv
  pub framed : AllFramed t.controller.taken
  pub team : Team m t.controller t.workers

-- What a step leaves, and the bytes of the messages taken and of those behind them.
abbrev pub Left : ℕ → Option Shift → List ℕ → Type 0
Left m result bytes = (t : Shift) × (result ≡ some t) × Manned m t × (stream t.controller ≡ bytes)

abbrev pub shift_of : Controller → List Worker → Shift
shift_of c ws = record { controller = c; workers = ws }

handed :
    (m : ℕ) (c : Controller) → Ready m c → Team m (record c { queue = [] }) (handles c.key ∷ [])
handed m c y = (
  refl,
  refl,
  record {
    one_queued = refl;
    busy = y.busy;
    limited = y.limited;
    sized = Sized-same m y.sized refl refl;
    all_there = y.all_there;
  },
)

no_task : (t : Shift) → t.controller.queue ≡ [] → take_task t ≡ t
unfolding take_task
no_task t e = simp (take_task, e)

the_task :
    (c : Controller)
    → c.queue ≡ request c.key ∷ []
    → take_task (shift_of c []) ≡ shift_of (record c { queue = [] }) (handles c.key ∷ [])
unfolding take_task
the_task c e = let self : (c.key == c.key) ≡ true = ground arith in simp (take_task, e, self)

pub take_task-Manned :
    (m : ℕ) (c : Controller) (ws : List Worker)
    → Manned m (shift_of c ws)
    → Manned m (take_task (shift_of c ws))
      × (stream (take_task (shift_of c ws)).controller ≡ stream c)
take_task-Manned m c [] o = elim o.team [
  | inl w ↦ still w.none_queued
  | inr (inl y) ↦
      let now = the_task c y.one_queued in
      (
        subst (Manned m) (sym now)
            (record { valid = o.valid; framed = o.framed; team = handed m c y }),
        ap (λ t. stream t.controller) now,
      )
  | inr (inr h) ↦ still h.none_queued
]
  where
    still :
        c.queue ≡ []
        → Manned m (take_task (shift_of c []))
          × (stream (take_task (shift_of c [])).controller ≡ stream c)
    still e =
        let now = no_task (shift_of c []) e in
        (subst (Manned m) (sym now) o, ap (λ t. stream t.controller) now)
take_task-Manned m c (handles k ∷ []) o =
    let now = no_task (shift_of c (handles k ∷ [])) o.team.1 in
    (subst (Manned m) (sym now) o, ap (λ t. stream t.controller) now)
take_task-Manned m c (has_left k ∷ []) o =
    let now = no_task (shift_of c (has_left k ∷ [])) o.team.1 in
    (subst (Manned m) (sym now) o, ap (λ t. stream t.controller) now)
take_task-Manned m c (w ∷ v ∷ ws) o = absurd (ground (arith, o.team))

-- The worker reads a piece of the message.
pub look-Manned :
    (m i asked : ℕ) (c : Controller) (ws : List Worker)
    → m ≤ max_packet_len
    → Manned m (shift_of c ws)
    → Manned m (look i asked (shift_of c ws))
      × (stream (look i asked (shift_of c ws)).controller ≡ stream c)
unfolding look
look-Manned m i asked c [] small o = (o, refl)
look-Manned m zero asked c (handles k ∷ []) small o =
    let y = o.team.2 in
    let (kept, ok) =
      next-Keeps asked o.valid (omega (arith, y.limited, y.sized.most, small))
        (omega (arith, y.limited, y.all_there, length-contents c.recv))
        (omega (arith, y.limited, y.sized.at_least)) (omega (arith, y.limited, y.busy)) in
    (
      record {
        valid = kept.valid;
        framed = o.framed;
        team = (
          o.team.0,
          o.team.1,
          record {
            one_queued = refl;
            busy = omega (arith, ok, y.limited);
            limited = kept.limit_eq ∙ y.limited;
            sized = Sized-same m y.sized refl kept.same;
            all_there = omega (arith, ap length kept.same, y.all_there);
          },
        );
      },
      ap (λ x. concat c.taken ++ x) kept.same,
    )
look-Manned m (suc i) asked c (handles k ∷ []) small o = (o, refl)
look-Manned m zero asked c (has_left k ∷ []) small o = (o, refl)
look-Manned m (suc i) asked c (has_left k ∷ []) small o = (o, refl)
look-Manned m i asked c (w ∷ v ∷ ws) small o = absurd (ground (arith, o.team))
