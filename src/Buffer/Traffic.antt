-- ===== src/Buffer/Traffic.antt =====
-- Any sequence of stores and fetches on a buffer, as its users make them.
use utility_engine_old.Base.{ℕ, ◌≡◌, refl, sym, ap, ◌∙◌, Option, none, some, List, [], ◌∷◌, ◌++◌}
use utility_engine_old.Base.{take, drop, take-append-drop}
use utility_engine_old.Buffer.{Buffer}
use mathlib.Core.List.{append_assoc, append-nil}

pub data Op : Type 0 where
  on_store : List ℕ → Op
  on_fetch : ℕ → Op

module _ {B : Type 0} (buffer : Buffer B) where
  -- All that was taken in, all that was given out, and the state.
  unfoldable pub run : List Op → B → Option (List ℕ × List ℕ × B)
  run [] b = some ([], [], b)
  run (on_store bytes ∷ ops) b = elim (buffer.store bytes b) [
    | none ↦ none
    | some (taken, idle, s) ↦ elim (run ops s) [
      | none ↦ none
      | some (ins, outs, t) ↦ some (taken ++ ins, outs, t)
    ]
  ]
  run (on_fetch asked ∷ ops) b = elim (buffer.fetch asked b) [
    | none ↦ none
    | some (given, s) ↦ elim (run ops s) [
      | none ↦ none
      | some (ins, outs, t) ↦ some (ins, given ++ outs, t)
    ]
  ]

  -- No sequence aborts or leaves the valid states; what was given out, followed by what is still
  -- readable, is what was readable at first followed by what was taken in.
  pub run_lem :
      (ops : List Op) (b : B)
      → buffer.Valid b
      → (ins outs : List ℕ) × (s : B) × (run ops b ≡ some (ins, outs, s))
        × buffer.Valid s
        × (outs ++ buffer.contents s ≡ buffer.contents b ++ ins)
  unfolding run
  run_lem [] b v = ([], [], b, refl, v, sym (append-nil (buffer.contents b)))
  run_lem (on_store bytes ∷ ops) b v =
      let (n, idle, s, e, w, c, some_taken, left) = buffer.store_law bytes b v in
      let (ins, outs, t, f, u, d) = run_lem ops s w in
      (
        take n bytes ++ ins,
        outs,
        t,
        rw (e, run) (rw f refl),
        u,
        d ∙ ap (λ l. l ++ ins) c ∙ append_assoc (buffer.contents b) (take n bytes) ins,
      )
  run_lem (on_fetch asked ∷ ops) b v =
      let (n, s, e, w, c, some_given) = buffer.fetch_law asked b v in
      let (ins, outs, t, f, u, d) = run_lem ops s w in
      let given = take n (buffer.contents b) in
      (
        ins,
        given ++ outs,
        t,
        rw (e, run) (rw f refl),
        u,
        append_assoc given outs (buffer.contents t)
            ∙ ap (λ l. given ++ l) (d ∙ ap (λ l. l ++ ins) c)
            ∙ sym (append_assoc given (drop n (buffer.contents b)) ins)
            ∙ ap (λ l. l ++ ins) (take-append-drop n (buffer.contents b)),
      )
