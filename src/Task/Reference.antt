-- ===== src/Task/Reference.antt =====
-- The references of a task object.
use utility_engine_old.Base.{ℕ, suc, ◌+◌, ◌%◌, ◌^◌, ◌≡◌, refl, sym, true, false, some, arith}
use utility_engine_old.Task.{Object, is_negative, may_add, bump_ref, add_ref, sub_ref, wait_loop}
use utility_engine_old.Task.{wait_ref, reset_ref, pos, negsuc}

-- A reference given back after it was taken leaves the object as it was.
pub sub_ref-add_ref : (o : Object) → is_negative o.ref ≡ false → sub_ref (add_ref o).1 ≡ o
unfolding sub_ref add_ref may_add bump_ref
sub_ref-add_ref o h = ground (arith, h)

-- With no reference held `wait_ref` ends after two turns, with the key of the object moved on, and
-- `add_ref` is refused from then on until `reset_ref`.
pub wait_ref-closes :
    (o : Object)
    → o.ref ≡ pos 0
    → (c : Object) × (wait_ref 2 o ≡ some c)
      × (add_ref c ≡ (false, c))
      × ((add_ref (reset_ref c)).0 ≡ true)
      × (c.compkey ≡ (o.compkey + 1) % 2 ^ 32)
unfolding wait_ref wait_loop add_ref reset_ref may_add
wait_ref-closes o h =
    (record o { compkey = (o.compkey + 1) % 2 ^ 32; ref = negsuc 0 }, rw h refl, refl, refl, refl)

-- While references are held `wait_ref` does not wait: it returns after one turn, the references
-- are held still, and `add_ref` goes on to give out more.
pub wait_ref-held :
    (fuel n : ℕ) (o : Object)
    → o.ref ≡ pos (suc n)
    → (c : Object) × (wait_ref (suc fuel) o ≡ some c) × (c.ref ≡ o.ref) × ((add_ref c).0 ≡ true)
unfolding wait_ref wait_loop add_ref may_add
wait_ref-held fuel n o h =
    (record o { compkey = (o.compkey + 1) % 2 ^ 32; ref = pos (suc n) }, rw h refl, sym h, refl)
