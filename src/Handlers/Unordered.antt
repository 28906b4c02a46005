-- ===== src/Handlers/Unordered.antt =====
-- The table of handlers without the order of its pairs, which a hash table does not promise: two
-- tables are the same when they answer every key the same.
use utility_engine_old.Base.{ℕ}
use utility_engine_old.Base.{◌≡◌}
use utility_engine_old.Base.{true, false, not, ◌&&◌, Option, none, some, List}
use utility_engine_old.Base.{arith, ◌==◌, if◌then◌else◌}
use utility_engine_old.Handlers.Lookup.{distinct, get_handle-attach, distinct-attach}
use utility_engine_old.Handlers.Lookup.{get_handle-detach}
use utility_engine_old.Handlers.{get_handle, is_some, attach, detach}
use mathlib.Core.Quot.{Quot, Quot-set}
use native.Mathlib.Nat.{ℕ_set}
use mathlib.Core.HLevel.{→_prop}
use mathlib.Core.Option.{is_set}
use mathlib.Core.Quot

-- A table with one handler for a key at most.
abbrev pub Distinct : Type 0
Distinct = (table : List (ℕ × ℕ)) × (distinct table ≡ true)

abbrev pub SameAnswers : Distinct → Distinct → Type 0
SameAnswers t u = (key : ℕ) → get_handle t.0 key ≡ get_handle u.0 key

abbrev pub Unordered : Type 0
Unordered = Quot SameAnswers

abbrev pub attach_distinct : ℕ → ℕ → Distinct → Distinct
attach_distinct key h (table, d) = ((attach key h table).1, (distinct-attach key h table d).0)

abbrev pub detach_distinct : ℕ → Distinct → Distinct
detach_distinct key (table, d) = ((detach key table).1, (distinct-attach key 0 table d).1)

attach-SameAnswers :
    (key h : ℕ) (t u : Distinct)
    → SameAnswers t u
    → SameAnswers (attach_distinct key h t) (attach_distinct key h u)
attach-SameAnswers key h (t, d) (u, e) same other = ground (
  arith,
  (get_handle-attach key h other t).1,
  (get_handle-attach key h other u).1,
  same key,
  same other,
)

detach-SameAnswers :
    (key : ℕ) (t u : Distinct)
    → SameAnswers t u
    → SameAnswers (detach_distinct key t) (detach_distinct key u)
detach-SameAnswers key (t, d) (u, e) same other =
    ground
      (arith, (get_handle-detach key other t d).1, (get_handle-detach key other u e).1, same other)

unfoldable pub lookup : ℕ → Unordered → Option ℕ
lookup key = Quot.lift (is_set ℕ_set) (λ t. get_handle t.0 key) (λ t u same. same key)

pub insert : ℕ → ℕ → Unordered → Unordered
insert key h =
    Quot.lift Quot-set (λ t. Quot.mk (attach_distinct key h t))
      (λ t u same. Quot.sound (attach-SameAnswers key h t u same))

pub remove : ℕ → Unordered → Unordered
remove key =
    Quot.lift Quot-set (λ t. Quot.mk (detach_distinct key t))
      (λ t u same. Quot.sound (detach-SameAnswers key t u same))

attach-attach-SameAnswers :
    (a b h j : ℕ) (t : Distinct)
    → a == b ≡ false
    → SameAnswers
        (attach_distinct a h (attach_distinct b j t))
        (attach_distinct b j (attach_distinct a h t))
attach-attach-SameAnswers a b h j (t, d) ne other =
    let ab = (attach b j t).1 in
    let ba = (attach a h t).1 in
    ground (
      arith,
      ne,
      (get_handle-attach a h other ab).1,
      (get_handle-attach b j other ba).1,
      (get_handle-attach b j other t).1,
      (get_handle-attach a h other t).1,
      (get_handle-attach b j a t).1,
      (get_handle-attach a h b t).1,
    )

detach-attach-SameAnswers :
    (a b j : ℕ) (t : Distinct)
    → a == b ≡ false
    → SameAnswers
        (detach_distinct a (attach_distinct b j t))
        (attach_distinct b j (detach_distinct a t))
detach-attach-SameAnswers a b j (t, d) ne other = ground (
  arith,
  ne,
  (get_handle-detach a other (attach b j t).1 (distinct-attach b j t d).0).1,
  (get_handle-attach b j other (detach a t).1).1,
  (get_handle-attach b j other t).1,
  (get_handle-detach a other t d).1,
  (get_handle-detach a b t d).1,
)

detach-attach_undone :
    (a h : ℕ) (t : Distinct)
    → get_handle t.0 a ≡ none
    → SameAnswers (detach_distinct a (attach_distinct a h t)) t
detach-attach_undone a h (t, d) e other = ground (
  arith,
  e,
  (get_handle-detach a other (attach a h t).1 (distinct-attach a h t d).0).1,
  (get_handle-attach a h other t).1,
)

attach-answers_other :
    (a b j : ℕ) (t : Distinct)
    → a == b ≡ false
    → (get_handle (attach_distinct b j t).0 a ≡ get_handle t.0 a)
      × (get_handle (detach_distinct b t).0 a ≡ get_handle t.0 a)
attach-answers_other a b j (t, d) ne = (
  ground (arith, ne, (get_handle-attach b j a t).1),
  ground (arith, ne, (get_handle-detach b a t d).1),
)

attach-answers :
    (a h : ℕ) (t : Distinct)
    → get_handle t.0 a ≡ none
    → get_handle (attach_distinct a h t).0 a ≡ some h
attach-answers a h (t, d) e = ground (arith, e, (get_handle-attach a h a t).1)

insert-insert :
    (a b h j : ℕ)
    → a == b ≡ false
    → (m : Unordered) → insert a h (insert b j m) ≡ insert b j (insert a h m)
unfolding insert
insert-insert a b h j ne =
    Quot.ind (λ q. Quot-set _ _) (λ t. Quot.sound (attach-attach-SameAnswers a b h j t ne))

remove-insert_other :
    (a b j : ℕ)
    → a == b ≡ false
    → (m : Unordered) → remove a (insert b j m) ≡ insert b j (remove a m)
unfolding insert remove
remove-insert_other a b j ne =
    Quot.ind (λ q. Quot-set _ _) (λ t. Quot.sound (detach-attach-SameAnswers a b j t ne))

lookup-insert_other :
    (a b j : ℕ) → a == b ≡ false → (m : Unordered) → lookup a (insert b j m) ≡ lookup a m
unfolding insert lookup
lookup-insert_other a b j ne =
    Quot.ind (λ q. is_set ℕ_set _ _) (λ t. (attach-answers_other a b j t ne).0)

lookup-remove_other :
    (a b : ℕ) → a == b ≡ false → (m : Unordered) → lookup a (remove b m) ≡ lookup a m
unfolding remove lookup
lookup-remove_other a b ne =
    Quot.ind (λ q. is_set ℕ_set _ _) (λ t. (attach-answers_other a b 0 t ne).1)

-- In the table without its order, `attach`es of two keys may change places, a `detach` and an
-- `attach` of two keys may change places, and neither changes what the other key is answered.
pub insert-commutes :
    (a b h j : ℕ) (m : Unordered)
    → a == b ≡ false
    → (insert a h (insert b j m) ≡ insert b j (insert a h m))
      × (remove a (insert b j m) ≡ insert b j (remove a m))
      × (lookup a (insert b j m) ≡ lookup a m)
      × (lookup a (remove b m) ≡ lookup a m)
insert-commutes a b h j m ne = (
  insert-insert a b h j ne m,
  remove-insert_other a b j ne m,
  lookup-insert_other a b j ne m,
  lookup-remove_other a b ne m,
)

-- A key that has no handler is answered the one attached, and `detach` gives back the table as it was,
-- the order of its pairs left out.
pub remove-insert :
    (a h : ℕ) (m : Unordered)
    → lookup a m ≡ none
    → (lookup a (insert a h m) ≡ some h) × (remove a (insert a h m) ≡ m)
unfolding insert remove lookup
remove-insert a h =
    Quot.ind
      {β = λ m.
        lookup a m ≡ none → (lookup a (insert a h m) ≡ some h) × (remove a (insert a h m) ≡ m)}
      (λ q. →_prop (hlevel (Quot-set, is_set ℕ_set)))
      (λ t e. (attach-answers a h t e, Quot.sound (detach-attach_undone a h t e)))

insert-lookup :
    (a b j : ℕ) (m : Unordered)
    → lookup a (insert b j m)
      ≡ (if (b == a) && not (is_some (lookup b m)) then some j else lookup a m)
unfolding insert lookup
insert-lookup a b j = Quot.ind (λ q. is_set ℕ_set _ _) (λ t. (get_handle-attach b j a t.0).1)

remove-lookup :
    (a b : ℕ) (m : Unordered) → lookup a (remove b m) ≡ (if b == a then none else lookup a m)
unfolding remove lookup
remove-lookup a b = Quot.ind (λ q. is_set ℕ_set _ _) (λ t. (get_handle-detach b a t.0 t.1).1)

again-SameAnswers :
    (b h j : ℕ) (t : Distinct)
    → SameAnswers (attach_distinct b h (attach_distinct b j t)) (attach_distinct b j t)
again-SameAnswers b h j (t, d) other = ground (
  arith,
  (get_handle-attach b h other (attach b j t).1).1,
  (get_handle-attach b j other t).1,
  (get_handle-attach b j b t).1,
)

undone-SameAnswers :
    (b j : ℕ) (t : Distinct)
    → SameAnswers (detach_distinct b (attach_distinct b j t)) (detach_distinct b t)
undone-SameAnswers b j (t, d) other = ground (
  arith,
  (get_handle-detach b other (attach b j t).1 (distinct-attach b j t d).0).1,
  (get_handle-attach b j other t).1,
  (get_handle-detach b other t d).1,
)

insert_again : (b h j : ℕ) (m : Unordered) → insert b h (insert b j m) ≡ insert b j m
unfolding insert
insert_again b h j = Quot.ind (λ q. Quot-set _ _) (λ t. Quot.sound (again-SameAnswers b h j t))

remove_inserted : (b j : ℕ) (m : Unordered) → remove b (insert b j m) ≡ remove b m
unfolding insert remove
remove_inserted b j = Quot.ind (λ q. Quot-set _ _) (λ t. Quot.sound (undone-SameAnswers b j t))

-- The table of handlers without the order of its pairs: `attach` gives a key its handler exactly if it
-- has none, and `detach` takes it away, and both leave the other keys theirs; a second `attach` of
-- a key changes nothing; and a `detach` leaves the same table whether or not the key was attached
-- just before.
pub lookup-insert-remove :
    (a b h j : ℕ) (m : Unordered)
    → (lookup a (insert b j m)
        ≡ (if (b == a) && not (is_some (lookup b m)) then some j else lookup a m))
      × (lookup a (remove b m) ≡ (if b == a then none else lookup a m))
      × (insert b h (insert b j m) ≡ insert b j m)
      × (remove b (insert b j m) ≡ remove b m)
lookup-insert-remove a b h j m =
    (insert-lookup a b j m, remove-lookup a b m, insert_again b h j m, remove_inserted b j m)
