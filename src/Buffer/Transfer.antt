-- ===== src/Buffer/Transfer.antt =====
-- The loops of the users of a buffer: a packet put in as a whole, and all bytes taken out.
use utility_engine_old.Base.{ℕ, zero, suc, ◌≤◌, ◌<◌, ◌≡◌, refl, sym, ap, ap₂, ◌∙◌, ◌⊎◌, inl, inr}
use utility_engine_old.Base.{Bool, false, Option, none, some, List, [], ◌∷◌, ◌++◌, arith, ◌==◌}
use utility_engine_old.Base.{if◌then◌else◌, Bool-cases, ==→eq, length, take, drop, length-append}
use utility_engine_old.Base.{length-take, length-drop, take-append-drop, drop-length, take-length}
use utility_engine_old.Base.{eq_nil_of_length}
use utility_engine_old.Buffer.{Buffer}
use mathlib.Core.List.{append_assoc, append-nil}

module _ {B : Type 0} (buffer : Buffer B) where
  -- The loop of `session_wrap::send` over the bytes left, on fuel for its turns.
  unfoldable pub put_all : ℕ → List ℕ → B → Option B
  put_all zero bytes b = none
  put_all (suc fuel) bytes b = elim (buffer.store bytes b) [
    | none ↦ none
    | some (taken, idle, s) ↦
        let on = put_all fuel (drop (length taken) bytes) s in
        if length taken == length bytes then some s else on
  ]

  -- What `process_send` hands to the system, call after call, each time at most `asked` bytes, until
  -- the buffer gives none.
  unfoldable pub take_all : ℕ → ℕ → B → Option (List ℕ × B)
  take_all zero asked b = none
  take_all (suc fuel) asked b = elim (buffer.fetch asked b) [
    | none ↦ none
    | some ([], s) ↦ some ([], s)
    | some (c ∷ given, s) ↦ elim (take_all fuel asked s) [
      | none ↦ none
      | some (more, t) ↦ some (c ∷ given ++ more, t)
    ]
  ]

  put_all-next :
      (fuel : ℕ) (bytes taken : List ℕ) (idle : Bool) (b s : B)
      → buffer.store bytes b ≡ some (taken, idle, s)
      → (length taken == length bytes) ≡ false
      → put_all (suc fuel) bytes b ≡ put_all fuel (drop (length taken) bytes) s
  unfolding put_all
  put_all-next fuel bytes taken idle b s e more = rw (put_all, e, more) refl

  -- A packet that is not empty and fits is put in as a whole, with a turn for each byte at most.
  pub put_all-append :
      (fuel : ℕ) (bytes : List ℕ) (b : B)
      → buffer.Valid b
      → 0 < length bytes
      → length bytes ≤ fuel
      → length bytes ≤ buffer.room b
      → (t : B) × (put_all fuel bytes b ≡ some t)
        × buffer.Valid t
        × (buffer.contents t ≡ buffer.contents b ++ bytes)
  unfolding put_all
  put_all-append zero bytes b v some_bytes enough fits = absurd (omega (arith, some_bytes, enough))
  put_all-append (suc fuel) bytes b v some_bytes enough fits =
      let (n, idle, s, e, w, c, progress, left) = buffer.store_law bytes b v in
      let positive : 0 < n = progress some_bytes (omega (arith, some_bytes, fits)) in
      elim (Bool-cases (length (take n bytes) == length bytes)) [
        | inl last ↦
            let whole : length (take n bytes) ≡ length bytes =
              ==→eq (length (take n bytes)) (length bytes) last in
            let over : length (drop n bytes) ≡ 0 = omega (
              arith,
              whole,
              ap length (take-append-drop n bytes),
              length-append (take n bytes) (drop n bytes),
            ) in
            let all : take n bytes ≡ bytes =
              sym (append-nil (take n bytes))
              ∙ ap (λ l. take n bytes ++ l) (sym (eq_nil_of_length (drop n bytes) over))
              ∙ take-append-drop n bytes in
            (s, rw (put_all, e, last) refl, w, c ∙ ap (λ l. buffer.contents b ++ l) all)
        | inr more ↦
            let short : n < length bytes = ground (arith, more, take-length n bytes) in
            let taken : length (take n bytes) ≡ n = length-take n bytes (omega (arith, short)) in
            let rest = length-drop n bytes in
            let (t, f, u, d) =
              put_all-append fuel (drop n bytes) s w (omega (arith, rest, short))
                (omega (arith, rest, positive, enough)) (omega (arith, rest, left, taken, fits)) in
            (
              t,
              put_all-next fuel bytes (take n bytes) idle b s e more
                  ∙ ap (λ k. put_all fuel (drop k bytes) s) taken
                  ∙ f,
              u,
              d
                  ∙ ap (λ l. l ++ drop n bytes) c
                  ∙ append_assoc (buffer.contents b) (take n bytes) (drop n bytes)
                  ∙ ap (λ l. buffer.contents b ++ l) (take-append-drop n bytes),
            )
      ]

  take_all-from :
      (fuel asked n : ℕ) (given : List ℕ) (b s : B)
      → buffer.fetch asked b ≡ some (given, s)
      → given ≡ take n (buffer.contents b)
      → buffer.contents s ≡ drop n (buffer.contents b)
      → (0 < length (buffer.contents b) → 0 < n)
      → buffer.Valid s
      → ((t : B) × (take_all fuel asked s ≡ some (buffer.contents s, t))
          × buffer.Valid t
          × (buffer.contents t ≡ []))
        ⊎ (given ≡ [])
      → (t : B) × (take_all (suc fuel) asked b ≡ some (buffer.contents b, t))
        × buffer.Valid t
        × (buffer.contents t ≡ [])
  unfolding take_all
  take_all-from fuel asked n [] b s e g c progress w rest =
      let none_there : length (buffer.contents b) ≡ 0 = ground (
        arith,
        ap length g,
        progress,
        length-take n (buffer.contents b),
        take-length n (buffer.contents b),
      ) in
      let empty = eq_nil_of_length (buffer.contents b) none_there in
      (
        s,
        rw (take_all, e, empty) refl,
        w,
        c ∙ drop-length n (buffer.contents b) (omega (arith, none_there)),
      )
  take_all-from fuel asked n (x ∷ given) b s e g c progress w (inr nothing) =
      absurd (omega (arith, ap length nothing))
  take_all-from fuel asked n (x ∷ given) b s e g c progress w (inl (t, f, u, d)) =
      let whole : (x ∷ given) ++ buffer.contents s ≡ buffer.contents b =
        ap₂ ◌++◌ g c ∙ take-append-drop n (buffer.contents b) in
      (t, rw (take_all, e, f) (ap (λ l. some (l, t)) whole), u, d)

  -- On fuel for one turn more than there are bytes, all of them are taken out, in order, and the
  -- buffer is empty.
  pub take_all-contents :
      (fuel asked : ℕ) (b : B)
      → buffer.Valid b
      → 0 < asked
      → length (buffer.contents b) < fuel
      → (t : B) × (take_all fuel asked b ≡ some (buffer.contents b, t))
        × buffer.Valid t
        × (buffer.contents t ≡ [])
  take_all-contents zero asked b v some_asked enough = absurd (omega (arith, enough))
  take_all-contents (suc fuel) asked b v some_asked enough =
      let (n, s, e, w, c, progress) = buffer.fetch_law asked b v in
      take_all-from fuel asked n (take n (buffer.contents b)) b s e refl c (progress some_asked) w
        (elim (Bool-cases (length (buffer.contents b) == 0)) [
          | inl none_left ↦ inr (
              ap (take n) (
                eq_nil_of_length (buffer.contents b)
                  (==→eq (length (buffer.contents b)) 0 none_left))
              ∙ take-length n [] (omega arith))
          | inr some_left ↦
              let there : 0 < length (buffer.contents b) = ground (arith, some_left) in
              let positive : 0 < n = progress some_asked there in
              inl (
                take_all-contents fuel asked s w some_asked (
                  omega (
                    arith,
                    enough,
                    there,
                    positive,
                    ap length c,
                    length-drop n (buffer.contents b),
                  )))
        ])
