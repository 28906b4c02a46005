-- ===== src/Factory/Tests.antt =====
-- Runs of the pool, and its theorems at a pool of three slots.
use utility_engine_old.Base.{ℕ, ◌+◌, ◌^◌, ◌≤◌, ◌<◌}
use utility_engine_old.Base.{◌≡◌, refl, ◌≢◌}
use utility_engine_old.Base.{true, some}
use utility_engine_old.Base.{[], ◌∷◌, arith, ◌==◌, if◌then◌else◌}
use utility_engine_old.Factory.{Factory, clear, used_mark, malloc}
use utility_engine_old.Factory.{free, advance, used_begin, visit, head_zero}
use utility_engine_old.Factory.Chain.{used_count}
use utility_engine_old.Factory.Invariant.{IsPool, IsValid, clear-IsPool}
use utility_engine_old.Factory.Malloc.{malloc-some}
use utility_engine_old.Factory.Free.{malloc-free}
use utility_engine_old.Factory.Search.{head_zero_lem}

abbrev byte_mod : ℕ
byte_mod = 2 ^ 8

-- Slot 1 was given out and back; slot 0 is in use; slot 2 was never given out.
abbrev mixed : Factory
mixed = record {
  base = 100;
  offset = λ i. if i == 0 then 254 else if i == 1 then 2 else 0;
  next = 1;
  left = 2;
  size = 3;
}

mixed-IsPool : IsPool byte_mod mixed (1 ∷ []) 2
unfolding used_count
mixed-IsPool = record {
  fits = omega arith;
  placed = omega arith;
  within = omega arith;
  touched = λ i lt. ground arith;
  fresh = λ i lo lt. ground arith;
  chain = (refl, omega arith, omega arith, refl);
  distinct = (tt, tt);
  left_eq = refl;
  counted = refl;
}

mixed-IsValid : IsValid byte_mod mixed
mixed-IsValid = (1 ∷ [], 2, mixed-IsPool)

malloc-mixed : (malloc byte_mod mixed).0 ≡ some 101
unfolding malloc
malloc-mixed = refl

visit-mixed : visit byte_mod 4 mixed (used_begin byte_mod mixed) ≡ 0 ∷ []
unfolding visit used_begin advance
visit-mixed = refl

clear-IsPool_example : IsPool byte_mod (clear mixed) [] 0
clear-IsPool_example = clear-IsPool byte_mod mixed (omega arith) (omega arith)

malloc-some_example :
    (n : ℕ) × (f' : Factory) × (malloc byte_mod mixed ≡ (some (100 + n), f'))
    × (n < 3)
    × (mixed.offset n ≢ used_mark byte_mod)
    × (f'.offset n ≡ used_mark byte_mod)
    × ((i : ℕ) → i ≢ n → f'.offset i ≡ mixed.offset i)
    × (f'.left + 1 ≡ 2)
    × IsValid byte_mod f'
malloc-some_example = malloc-some byte_mod mixed mixed-IsValid (omega arith)

malloc-free_example :
    (f' f'' : Factory) × (free byte_mod 100 mixed ≡ some (true, f'))
    × (malloc byte_mod f' ≡ (some 100, f''))
    × (f''.next ≡ 1)
    × (f''.left ≡ 2)
    × ((i : ℕ) → f''.offset i ≡ mixed.offset i)
malloc-free_example = malloc-free byte_mod mixed 0 mixed-IsValid (omega arith) refl

head_zero_lem_example :
    (n : ℕ) × (head_zero byte_mod mixed ≡ some n)
    × (n ≤ 3)
    × ((i : ℕ) → i < n → mixed.offset i ≢ 0)
    × ((i : ℕ) → n ≤ i → i < 3 → mixed.offset i ≡ 0)
head_zero_lem_example = head_zero_lem byte_mod mixed mixed-IsValid (omega arith)
