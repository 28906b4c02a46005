-- ===== src/Allocator/Stack.antt =====
-- The cache as a stack of chunks.
use mathlib.Core.Path.{subst}
use utility_engine_old.Base.{ℕ, zero, suc, ◌+◌, ◌-◌, ◌≤◌, ◌<◌, ◌≡◌, refl, sym, ap, ap₂, ◌∙◌, inl}
use utility_engine_old.Base.{inr, true, false, List, [], ◌∷◌, arith, ltb, ◌==◌, if◌then◌else◌}
use utility_engine_old.Base.{Bool-cases, ltb→lt, eq→==, length}
use utility_engine_old.Allocator.{Call, Allocator, put, create, malloc, free, malloc_no_cache}
use utility_engine_old.Allocator.{free_no_cache, Request, serve, make, remove, init, ask, give_back}

-- The stack of at most `cache` chunks, which the allocator is to be: `malloc` takes the top chunk, or
-- a new one if there is none, and `free` puts the chunk on top, or deletes it if the stack is full.
abbrev pub pop : ℕ → ℕ → List ℕ × List Call → ℕ × (List ℕ × List Call)
pop fresh size ([], calls) = (fresh, ([], init fresh size ∷ make fresh ∷ calls))
pop fresh size (p ∷ stack, calls) = (p, (stack, init p size ∷ calls))

abbrev pub push : ℕ → ℕ → List ℕ × List Call → List ℕ × List Call
push cache p (stack, calls) =
    if ltb (length stack) cache then (p ∷ stack, calls) else (stack, remove p ∷ calls)

pub serve_stack : ℕ → List Request → List ℕ × List Call → List ℕ × (List ℕ × List Call)
serve_stack cache [] s = ([], s)
serve_stack cache (ask fresh size ∷ rest) s =
    let given = pop fresh size s in
    let later = serve_stack cache rest given.1 in (given.0 ∷ later.0, later.1)
serve_stack cache (give_back p ∷ rest) s = serve_stack cache rest (push cache p s)

-- The places of the array from i on.
abbrev pub cells : (ℕ → ℕ) → ℕ → ℕ → List ℕ
cells slots i zero = []
cells slots i (suc n) = slots i ∷ cells slots (i + 1) n

abbrev pub contents : ℕ → Allocator → List ℕ
contents cache s = cells s.slots s.head (cache - s.head)

abbrev pub view : ℕ → Allocator → List ℕ × List Call
view cache s = (contents cache s, s.calls)

-- No chunk given back is the null pointer.
abbrev pub Proper : List Request → Type 0
Proper [] = Unit {0}
Proper (ask fresh size ∷ rest) = Proper rest
Proper (give_back p ∷ rest) = (0 < p) × Proper rest

abbrev pub NoNull : List ℕ → Type 0
NoNull [] = Unit {0}
NoNull (p ∷ ps) = (0 < p) × NoNull ps

cells-put :
    (slots : ℕ → ℕ) (i p from n : ℕ) → i < from → cells (put slots i p) from n ≡ cells slots from n
cells-put slots i p from zero h = refl
cells-put slots i p from (suc n) h =
    ap₂ (λ x xs. x ∷ xs) (ground (arith, h)) (cells-put slots i p (from + 1) n (omega (arith, h)))

length-cells : (slots : ℕ → ℕ) (i n : ℕ) → length (cells slots i n) ≡ n
length-cells slots i zero = refl
length-cells slots i (suc n) = ap suc (length-cells slots (i + 1) n)

malloc-empty :
    (cache fresh size : ℕ) (s : Allocator)
    → s.head ≡ cache
    → malloc cache fresh size s
      ≡ (fresh, record s { calls = init fresh size ∷ make fresh ∷ s.calls })
unfolding malloc
malloc-empty cache fresh size s e = let same = eq→== _ _ e in rw (same) refl

malloc-cached :
    (cache fresh size : ℕ) (s : Allocator)
    → s.head < cache
    → 0 < s.slots s.head
    → malloc cache fresh size s ≡ (
      s.slots s.head,
      record s { head = s.head + 1; calls = init (s.slots s.head) size ∷ s.calls },
    )
unfolding malloc
malloc-cached cache fresh size s lt pos =
    let other : s.head == cache ≡ false = ground (arith, lt) in
    let real : s.slots s.head == 0 ≡ false = ground (arith, pos) in rw (other, real) refl

-- A cache of no chunks does what the allocator without a cache does.
no_cache :
    (fresh size p : ℕ) (s : Allocator)
    → s.head ≡ 0
    → (malloc 0 fresh size s ≡ (fresh, record s { calls = (malloc_no_cache fresh size s.calls).1 }))
      × (free p s ≡ record s { calls = free_no_cache p s.calls })
unfolding malloc_no_cache free free_no_cache
no_cache fresh size p s e =
    let none_left : ltb 0 s.head ≡ false = ground (arith, e) in
    (malloc-empty 0 fresh size s e, rw (none_left) refl)

-- The allocator s is the stack of n chunks.
abbrev Stands : ℕ → ℕ → List ℕ → Allocator → Type 0
Stands cache n stack s = (s.head + n ≡ cache) × (stack ≡ cells s.slots s.head n) × NoNull stack

abbrev After : ℕ → List ℕ × List Call → Allocator → Type 0
After cache (stack, calls) s = (m : ℕ) × Stands cache m stack s × (calls ≡ s.calls)

free_kept :
    (cache n p : ℕ) (stack : List ℕ) (s : Allocator)
    → 0 < p
    → 0 < s.head
    → Stands cache n stack s
    → After cache
        (p ∷ stack, s.calls)
        (record s { slots = put s.slots (s.head - 1) p; head = s.head - 1 })
free_kept cache n p stack s pos some_room (e, st, nn) =
    let top : put s.slots (s.head - 1) p (s.head - 1) ≡ p = ground arith in
    let next : s.head - 1 + 1 ≡ s.head = omega arith in
    let below =
      ap (λ i. cells (put s.slots (s.head - 1) p) i n) next
      ∙ cells-put s.slots (s.head - 1) p s.head n (omega arith) in
    (suc n, (omega arith, ap₂ (λ x xs. x ∷ xs) (sym top) (st ∙ sym below), (pos, nn)), refl)

free-Stands :
    (cache n p : ℕ) (stack : List ℕ) (s : Allocator)
    → 0 < p
    → Stands cache n stack s
    → After cache (push cache p (stack, s.calls)) (free p s)
unfolding free
free-Stands cache n p stack s pos (e, st, nn) =
    let long : length stack ≡ n = ap length st ∙ length-cells s.slots s.head n in
    let kept : Allocator = record s { slots = put s.slots (s.head - 1) p; head = s.head - 1 } in
    let lost : Allocator = record s { calls = remove p ∷ s.calls } in
    elim (Bool-cases (ltb 0 s.head)) [
      | inl t ↦
          let room : ltb (length stack) cache ≡ true = ground (arith, t, long, e) in
          subst
            (λ b.
              After cache (if b then (p ∷ stack, s.calls) else (stack, remove p ∷ s.calls))
                (free p s))
            (sym room)
            (subst (λ b. After cache (p ∷ stack, s.calls) (if b then kept else lost)) (sym t)
              (free_kept cache n p stack s pos (ltb→lt _ _ t) (e, st, nn)))
      | inr f ↦
          let full : ltb (length stack) cache ≡ false = ground (arith, f, long, e) in
          subst
            (λ b.
              After cache (if b then (p ∷ stack, s.calls) else (stack, remove p ∷ s.calls))
                (free p s))
            (sym full)
            (subst (λ b. After cache (stack, remove p ∷ s.calls) (if b then kept else lost)) (sym f)
              (n, (e, st, nn), refl))
    ]

-- The allocator and the stack have served the same.
abbrev pub Same : ℕ → List ℕ × Allocator → List ℕ × (List ℕ × List Call) → Type 0
Same cache (given, s) (given_by, stack) =
    (given ≡ given_by) × (view cache s ≡ stack) × (s.head ≤ cache)

ask-Same :
    (cache fresh size g : ℕ) (rest : List Request) (s t : Allocator)
    (r : List ℕ × (List ℕ × List Call))
    → malloc cache fresh size s ≡ (g, t)
    → Same cache (serve cache rest t) r
    → Same cache (serve cache (ask fresh size ∷ rest) s) (g ∷ r.0, r.1)
unfolding serve
ask-Same cache fresh size g rest s t r e (given, viewed, bounded) =
    subst
      (λ m. Same cache (m.0 ∷ (serve cache rest m.1).0, (serve cache rest m.1).1) (g ∷ r.0, r.1))
      (sym e) (ap (λ xs. g ∷ xs) given, viewed, bounded)

cons-parts : (p q : ℕ) (ps qs : List ℕ) → p ∷ ps ≡ q ∷ qs → (p ≡ q) × (ps ≡ qs)
cons-parts p q ps qs e = (
  ap (λ xs. elim xs [ [] ↦ p | x ∷ rest ↦ x ]) e,
  ap (λ xs. elim xs [ [] ↦ ps | x ∷ rest ↦ rest ]) e,
)

serve-Same :
    (cache : ℕ) (rest : List Request) (n : ℕ) (stack : List ℕ) (s : Allocator)
    → Proper rest
    → Stands cache n stack s
    → Same cache (serve cache rest s) (serve_stack cache rest (stack, s.calls))
unfolding serve serve_stack
serve-Same cache [] n stack s proper (e, st, nn) =
    let m : cache - s.head ≡ n = omega (arith, e) in
    (refl, ap₂ (λ x y. (x, y)) (ap (cells s.slots s.head) m ∙ sym st) refl, omega (arith, e))
serve-Same cache (ask fresh size ∷ rest) zero [] s proper (e, st, nn) =
    let empty = malloc-empty cache fresh size s (omega (arith, e)) in
    ask-Same cache fresh size fresh rest s _ _ empty
      (serve-Same cache rest zero [] _ proper (e, refl, tt))
serve-Same cache (ask fresh size ∷ rest) zero (q ∷ qs) s proper (e, st, nn) = absurd (cc)
serve-Same cache (ask fresh size ∷ rest) (suc n) [] s proper (e, st, nn) = absurd (cc)
serve-Same cache (ask fresh size ∷ rest) (suc n) (q ∷ qs) s proper (e, st, (pos, nn)) =
    let (top, below) = cons-parts q (s.slots s.head) qs (cells s.slots (s.head + 1) n) st in
    let real : 0 < s.slots s.head = omega (arith, pos, top) in
    let cached = malloc-cached cache fresh size s (omega (arith, e)) real in
    let t : Allocator = record s {
      head = s.head + 1;
      calls = init (s.slots s.head) size ∷ s.calls;
    } in
    let later = serve-Same cache rest n qs t proper (omega (arith, e), below, nn) in
    subst
      (λ g. Same cache (serve cache (ask fresh size ∷ rest) s) (
        g ∷ (serve_stack cache rest (qs, init g size ∷ s.calls)).0,
        (serve_stack cache rest (qs, init g size ∷ s.calls)).1,
      ))
      (sym top) (ask-Same cache fresh size (s.slots s.head) rest s t _ cached later)
serve-Same cache (give_back p ∷ rest) n stack s (pos, proper) h =
    let (m, stands, calls) = free-Stands cache n p stack s pos h in
    subst
      (λ c.
        Same cache (serve cache rest (free p s))
          (serve_stack cache rest ((push cache p (stack, s.calls)).0, c)))
      (sym calls)
      (serve-Same cache rest m (push cache p (stack, s.calls)).0 (free p s) proper stands)

-- A new allocator whose cache has any size, and any requests in which no null pointer is given back: it
-- gives out the chunks that a stack of at most that many chunks gives, makes, prepares and deletes
-- the same chunks in the same order, the part of the array from `m_head` on is that stack, and
-- `m_head` stays inside of the array.
pub serve-Refines :
    (cache : ℕ) (garbage : ℕ → ℕ) (rest : List Request)
    → Proper rest
    → Same cache (serve cache rest (create cache garbage)) (serve_stack cache rest ([], []))
unfolding create
serve-Refines cache garbage rest proper =
    serve-Same cache rest zero [] (create cache garbage) proper (omega arith, refl, tt)
