-- ===== src/Task/Least.antt =====
-- The worker that `dispatcher_balance` chooses.
use utility_engine_old.Base.{ℕ, zero, suc, ◌+◌, ◌≤◌, ◌<◌, ◌≡◌, refl, ap, ◌∙◌, ◌⊎◌, inl, inr, some}
use utility_engine_old.Base.{List, [], ◌∷◌, arith, ltb, Bool-cases, ltb→lt, ltb→ge, length, get_or}
use utility_engine_old.Task.{least, get_worker}

-- No entry is below `low`.
abbrev Below : ℕ → List ℕ → Type 0
Below low rest = (j : ℕ) → j < length rest → low ≤ get_or rest j 0

Below-cons : (low t : ℕ) (rest : List ℕ) → low ≤ t → Below low rest → Below low (t ∷ rest)
Below-cons low t rest h all zero lt = h
Below-cons low t rest h all (suc j) lt = all j (omega (arith, lt))

-- What the loop has found: the worker it began with, or the one at index i + j.
Found : List ℕ → ℕ → ℕ → ℕ → ℕ → Type 0
Found rest i low n k =
    ((k ≡ n) × Below low rest)
    ⊎ ((j : ℕ) × (j < length rest)
        × (k ≡ i + j + 1)
        × (get_or rest j 0 < low)
        × Below (get_or rest j 0) rest)

least_lem : (rest : List ℕ) (i low n : ℕ) → Found rest i low n (least rest i low n)
unfolding Found least
least_lem [] i low n = inl (refl, λ j lt. absurd (omega (arith, lt)))
least_lem (t ∷ rest) i low n = elim (Bool-cases (ltb t low)) [
  | inl e ↦ rw e (elim (least_lem rest (i + 1) t (i + 1)) [
    | inl (k, h) ↦
        inr (0, omega arith, omega (arith, k), ltb→lt t low e, Below-cons t t rest (omega arith) h)
    | inr (j, lt, k, below, h) ↦ inr (
      suc j,
      omega (arith, lt),
      omega (arith, k),
      omega (arith, below, ltb→lt t low e),
      Below-cons (get_or rest j 0) t rest (omega (arith, below)) h,
    )
  ])
  | inr e ↦ rw e (elim (least_lem rest (i + 1) low n) [
    | inl (k, h) ↦ inl (k, Below-cons low t rest (ltb→ge t low e) h)
    | inr (j, lt, k, below, h) ↦ inr (
      suc j,
      omega (arith, lt),
      omega (arith, k),
      below,
      Below-cons (get_or rest j 0) t rest (omega (arith, below, ltb→ge t low e)) h,
    )
  ])
]

-- A number in range keeps its worker.
pub get_worker-kept :
    (sizes : List ℕ) (n : ℕ) → 0 < n → n ≤ length sizes → get_worker sizes n ≡ some n
unfolding get_worker Found
get_worker-kept [] n lo hi = absurd (omega (arith, lo, hi))
get_worker-kept (first ∷ rest) n lo hi = ground (arith, lo, hi)

-- An object without a worker, or with a number that is out of range, is given the number of a worker
-- in range, and no worker has fewer tasks.
pub get_worker-least :
    (first : ℕ) (rest : List ℕ) (n : ℕ)
    → (n ≡ 0) ⊎ (length (first ∷ rest) < n)
    → (k : ℕ) × (get_worker (first ∷ rest) n ≡ some (suc k))
      × (k < length (first ∷ rest))
      × ((j : ℕ)
          → j < length (first ∷ rest)
          → get_or (first ∷ rest) k 0 ≤ get_or (first ∷ rest) j 0)
unfolding get_worker Found
get_worker-least first rest n out =
    let chosen : get_worker (first ∷ rest) n ≡ some (least rest 1 first 1) = ground (arith, out) in
    elim (least_lem rest 1 first 1) [
      | inl (k, h) ↦
          (0, chosen ∙ ap some k, omega arith, Below-cons first first rest (omega arith) h)
      | inr (j, lt, k, below, h) ↦
          let at : least rest 1 first 1 ≡ suc (suc j) = omega (arith, k) in
          (
            suc j,
            chosen ∙ ap some at,
            omega (arith, lt),
            Below-cons (get_or rest j 0) first rest (omega (arith, below)) h,
          )
    ]
