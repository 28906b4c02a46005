-- ===== src/Md5/Stream.antt =====
-- Feeding MD5 in pieces: whatever the pieces of a text are, `update` stands where one run over the
-- whole text would stand.
use mathlib.Core.List.{[], append_assoc, append-nil}
use utility_engine_old.Md5.{reset, update, Md5, store_at, magic, index, run_blocks}
use utility_engine_old.Base.{◌<◌, leb, true, false, ◌-◌, length-append, ap₂, sym, drop-append_le}
use utility_engine_old.Base.{take-append_ge, drop-append_ge, drop-length, take-append, length-take}
use utility_engine_old.Base.{ltb→lt, ltb→ge, ◌^◌, ◌%◌, ◌⊎◌, ℕ, zero, suc, ◌+◌, ◌*◌, ◌/◌, ◌≤◌, ◌≡◌}
use utility_engine_old.Base.{refl, ap, ◌∙◌, arith, inl, inr, List, ◌++◌, length, take, drop, ltb}
use utility_engine_old.Base.{Bool-cases, length-drop, drop-drop, take-append_le}
use utility_engine_old.Base.Bits.{bit_and-low}
use utility_engine_old.Md5.Transform.{Words, transform}

zero_mod : (n : ℕ) → 0 ≡ 0 % n
zero_mod n = grind arith

pub length-store_at :
    (at : ℕ) (bytes buffer : List ℕ)
    → at + length bytes ≤ length buffer
    → length (store_at at bytes buffer) ≡ length buffer
length-store_at at bytes buffer h = omega (
  arith,
  length-append (take at buffer) (bytes ++ drop (at + length bytes) buffer),
  length-append bytes (drop (at + length bytes) buffer),
  length-take at buffer (omega arith),
  length-drop (at + length bytes) buffer,
)

module _ (w : ℕ) where
  -- The first n blocks of a text, transformed one after the other.
  pub fold_blocks : ℕ → Words → List ℕ → Words
  fold_blocks zero v text = v
  fold_blocks (suc n) v text = fold_blocks n (transform w v (take 64 text)) (drop 64 text)

  fold_blocks-add :
      (n k : ℕ) (v : Words) (text : List ℕ)
      → fold_blocks (n + k) v text ≡ fold_blocks k (fold_blocks n v text) (drop (n * 64) text)
  unfolding fold_blocks
  fold_blocks-add zero k v text =
      let e : 0 + k ≡ k = omega arith in ap (λ j. fold_blocks j v text) e
  fold_blocks-add (suc n) k v text =
      ap (λ j. fold_blocks j v text) shift
      ∙ fold_blocks-add n k (transform w v (take 64 text)) (drop 64 text)
      ∙ ap (fold_blocks k (fold_blocks n (transform w v (take 64 text)) (drop 64 text)))
          (drop-drop (n * 64) 64 text ∙ ap (λ j. drop j text) blocks)
    where
      shift : suc n + k ≡ suc (n + k)
      shift = omega arith

      blocks : 64 + n * 64 ≡ suc n * 64
      blocks = omega arith

  fold_blocks-append :
      (n : ℕ) (v : Words) (text more : List ℕ)
      → n * 64 ≤ length text
      → fold_blocks n v (text ++ more) ≡ fold_blocks n v text
  unfolding fold_blocks
  fold_blocks-append zero v text more h = refl
  fold_blocks-append (suc n) v text more h =
      rw (take-append_le 64 text more (omega arith), drop-append_le 64 text more (omega arith))
        (fold_blocks-append n (transform w v (take 64 text)) (drop 64 text) more
          (omega (arith, length-drop 64 text)))

  -- The loop of `update`, with enough fuel, takes every whole block and leaves the rest.
  run_blocks-eq :
      (fuel : ℕ) (v : Words) (text : List ℕ)
      → length text ≤ fuel
      → run_blocks w fuel v text
        ≡ (fold_blocks (length text / 64) v text, drop (length text / 64 * 64) text)
  unfolding run_blocks fold_blocks
  run_blocks-eq zero v text h = let none_left : length text / 64 ≡ 0 = omega arith in rw none_left
  run_blocks-eq (suc fuel) v text h = elim (Bool-cases (ltb 63 (length text))) [
    | inl more ↦
        let after = drop 64 text in
        let one : length text / 64 ≡ suc (length after / 64) =
          omega (arith, length-drop 64 text, ltb→lt 63 (length text) more) in
        let behind : 64 + length after / 64 * 64 ≡ suc (length after / 64) * 64 = omega arith in
        rw (more, one)
          (run_blocks-eq fuel (transform w v (take 64 text)) after
              (omega (arith, length-drop 64 text))
            ∙ ap (λ l. (fold_blocks (length after / 64) (transform w v (take 64 text)) after, l))
                (drop-drop (length after / 64 * 64) 64 text ∙ ap (λ j. drop j text) behind))
    | inr done ↦
        let none_left : length text / 64 ≡ 0 = omega (arith, ltb→ge 63 (length text) done) in
        rw (done, none_left)
  ]

  -- What the object stands for: `msg` is all the bytes fed since the last `reset`.
  pub record Holds (m : Md5) (msg : List ℕ) : Type 0 where
    pub folded : m.state ≡ fold_blocks (length msg / 64) magic msg
    pub pending : take (length msg % 64) m.buffer ≡ drop (length msg / 64 * 64) msg
    pub counted : m.count_low ≡ length msg * 8 % 2 ^ w
    pub full : length m.buffer ≡ 64

  -- The pending bytes.
  abbrev pub tail : List ℕ → List ℕ
  tail msg = drop (length msg / 64 * 64) msg

  pub length-tail : (msg : List ℕ) → length (tail msg) ≡ length msg % 64
  length-tail msg = omega (arith, length-drop (length msg / 64 * 64) msg)

  tail-append : (msg more : List ℕ) → drop (length msg / 64 * 64) (msg ++ more) ≡ tail msg ++ more
  tail-append msg more = drop-append_le (length msg / 64 * 64) msg more (omega arith)

  -- The blocks of a longer text, from the state that the shorter one has reached.
  fold_blocks-message :
      (msg more : List ℕ) (v : Words)
      → fold_blocks (length (msg ++ more) / 64) v (msg ++ more)
        ≡ fold_blocks
            (length (tail msg ++ more) / 64)
            (fold_blocks (length msg / 64) v msg)
            (tail msg ++ more)
  fold_blocks-message msg more v =
      ap (λ j. fold_blocks j v (msg ++ more)) total
      ∙ fold_blocks-add (length msg / 64) (length (tail msg ++ more) / 64) v (msg ++ more)
      ∙ ap₂ (fold_blocks (length (tail msg ++ more) / 64))
          (fold_blocks-append (length msg / 64) v msg more (omega arith)) (tail-append msg more)
    where
      total : length (msg ++ more) / 64 ≡ length msg / 64 + length (tail msg ++ more) / 64
      total = omega (arith, length-append msg more, length-append (tail msg) more, length-tail msg)

  pub tail-message : (msg more : List ℕ) → tail (msg ++ more) ≡ tail (tail msg ++ more)
  tail-message msg more =
      ap (λ j. drop j (msg ++ more)) total
      ∙ sym (drop-drop (length (tail msg ++ more) / 64 * 64) (length msg / 64 * 64) (msg ++ more))
      ∙ ap (drop (length (tail msg ++ more) / 64 * 64)) (tail-append msg more)
    where
      total :
          length (msg ++ more) / 64 * 64
          ≡ length msg / 64 * 64 + length (tail msg ++ more) / 64 * 64
      total = omega (arith, length-append msg more, length-append (tail msg) more, length-tail msg)

  -- An `unsigned long` of Windows or of Linux.
  abbrev pub IsWidth : Type 0
  IsWidth = (w ≡ 32) ⊎ (w ≡ 64)

  count-index : IsWidth → (m : Md5) (n : ℕ) → m.count_low ≡ n * 8 % 2 ^ w → index w m ≡ n % 64
  count-index (inl e) m n h = bit_and-low 6 (m.count_low / 2 ^ 3) ∙ rw (h, e) (omega arith)
  count-index (inr e) m n h = bit_and-low 6 (m.count_low / 2 ^ 3) ∙ rw (h, e) (omega arith)

  count-add :
      IsWidth
      → (n k : ℕ) → (n * 8 % 2 ^ w + k % 2 ^ w * 2 ^ 3 % 2 ^ w) % 2 ^ w ≡ (n + k) * 8 % 2 ^ w
  count-add (inl e) n k = rw e (omega arith)
  count-add (inr e) n k = rw e (omega arith)

  module _ (wide : IsWidth) {m : Md5} {msg : List ℕ} (h : Holds m msg) (x : List ℕ) where
    pub at_tail : index w m ≡ length (tail msg)
    at_tail = count-index wide m (length msg) h.counted ∙ sym (length-tail msg)

    pub head : take (index w m) m.buffer ≡ tail msg
    head = ap (λ k. take k m.buffer) (at_tail ∙ length-tail msg) ∙ h.pending

    length-part : 64 ≤ length (tail msg ++ x) → length (take (64 - index w m) x) ≡ 64 - index w m
    length-part big =
        length-take (64 - index w m) x (omega (arith, length-append (tail msg) x, at_tail))

    -- The buffer once the block is full.
    filled-eq :
        64 ≤ length (tail msg ++ x)
        → store_at (index w m) (take (64 - index w m) x) m.buffer ≡ take 64 (tail msg ++ x)
    filled-eq big =
        ap₂ ◌++◌ head (
          ap (λ l. take (64 - index w m) x ++ l)
            (drop-length (index w m + length (take (64 - index w m) x)) m.buffer
              (omega (arith, length-part big, h.full, at_tail, length-tail msg)))
          ∙ append-nil (take (64 - index w m) x)
          ∙ ap (λ k. take (64 - k) x) at_tail)
        ∙ sym (take-append_ge 64 (tail msg) x (omega (arith, length-tail msg)))

    rest-eq : 64 ≤ length (tail msg ++ x) → drop (64 - index w m) x ≡ drop 64 (tail msg ++ x)
    rest-eq big =
        ap (λ k. drop (64 - k) x) at_tail
        ∙ sym (drop-append_ge 64 (tail msg) x (omega (arith, length-tail msg)))

    short-eq : take (length (tail msg ++ x)) (store_at (index w m) x m.buffer) ≡ tail msg ++ x
    short-eq =
        ap (λ l. take (length (tail msg ++ x)) (l ++ (x ++ drop (index w m + length x) m.buffer)))
          head
        ∙ ap (take (length (tail msg ++ x)))
            (sym (append_assoc (tail msg) x (drop (index w m + length x) m.buffer)))
        ∙ take-append (length (tail msg ++ x)) (tail msg ++ x)
            (drop (index w m + length x) m.buffer) refl

    -- The state that the blocks of the input lead to, and what is left of it.
    abbrev pub reached : Words × List ℕ
    reached =
        run_blocks w (length x)
          (transform w m.state (store_at (index w m) (take (64 - index w m) x) m.buffer))
          (drop (64 - index w m) x)

    pub reached-eq :
        64 ≤ length (tail msg ++ x)
        → reached ≡ (fold_blocks (length (msg ++ x) / 64) magic (msg ++ x), tail (msg ++ x))
    unfolding fold_blocks
    reached-eq big =
        let text = tail msg ++ x in
        let one : length text / 64 ≡ suc (length (drop 64 text) / 64) =
          omega (arith, length-drop 64 text) in
        let behind : 64 + length (drop 64 text) / 64 * 64 ≡ length text / 64 * 64 =
          omega (arith, length-drop 64 text) in
        run_blocks-eq (length x)
          (transform w m.state (store_at (index w m) (take (64 - index w m) x) m.buffer))
          (drop (64 - index w m) x) (omega (arith, length-drop (64 - index w m) x))
        ∙ ap₂
            (λ (block left : List ℕ). (
              fold_blocks (length left / 64) (transform w m.state block) left,
              drop (length left / 64 * 64) left,
            ))
            (filled-eq big) (rest-eq big)
        ∙ ap₂ (λ (v : Words) (l : List ℕ). (v, l))
            (sym (ap (λ k. fold_blocks k m.state text) one)
              ∙ ap (λ v. fold_blocks (length text / 64) v text) h.folded
              ∙ sym (fold_blocks-message msg x magic))
            (drop-drop (length (drop 64 text) / 64 * 64) 64 text
              ∙ ap (λ k. drop k text) behind
              ∙ sym (tail-message msg x))

    low : ℕ
    low = (m.count_low + length x % 2 ^ w * 2 ^ 3 % 2 ^ w) % 2 ^ w

    low-eq : low ≡ length (msg ++ x) * 8 % 2 ^ w
    unfolding low
    low-eq =
        ap (λ c. (c + length x % 2 ^ w * 2 ^ 3 % 2 ^ w) % 2 ^ w) h.counted
        ∙ count-add wide (length msg) (length x)
        ∙ ap (λ k. k * 8 % 2 ^ w) (sym (length-append msg x))

    update-low : (update w x m).count_low ≡ low
    unfolding update low
    update-low = ground arith

    pub update_whole :
        leb (64 - index w m) (length x) ≡ true
        → ((update w x m).state ≡ reached.0)
          × ((update w x m).buffer
              ≡ store_at 0 reached.1 (store_at (index w m) (take (64 - index w m) x) m.buffer))
    unfolding update
    update_whole e = (rw e, rw e)

    pub update_part :
        leb (64 - index w m) (length x) ≡ false
        → ((update w x m).state ≡ m.state)
          × ((update w x m).buffer ≡ store_at (index w m) x m.buffer)
    unfolding update
    update_part e = (rw e, rw e)

    whole-Holds : leb (64 - index w m) (length x) ≡ true → Holds (update w x m) (msg ++ x)
    whole-Holds e =
        let big : 64 ≤ length (tail msg ++ x) =
          ground (arith, at_tail, length-append (tail msg) x) in
        let filled_len : length (take 64 (tail msg ++ x)) ≡ 64 =
          length-take 64 (tail msg ++ x) big in
        let stored : (update w x m).buffer
            ≡ store_at 0 (tail (msg ++ x)) (take 64 (tail msg ++ x)) =
          (update_whole e).1 ∙ ap₂ (store_at 0) (ap (λ p. p.1) (reached-eq big)) (filled-eq big) in
        record {
          folded = (update_whole e).0 ∙ ap (λ p. p.0) (reached-eq big);
          pending =
              ap (take (length (msg ++ x) % 64)) stored
              ∙ take-append (length (msg ++ x) % 64) (tail (msg ++ x))
                  (drop (0 + length (tail (msg ++ x))) (take 64 (tail msg ++ x)))
                  (length-tail (msg ++ x));
          counted = update-low ∙ low-eq;
          full =
              ap length stored
              ∙ omega (
                arith,
                length-append (tail (msg ++ x))
                    (drop (0 + length (tail (msg ++ x))) (take 64 (tail msg ++ x))),
                length-drop (0 + length (tail (msg ++ x))) (take 64 (tail msg ++ x)),
                length-tail (msg ++ x),
                filled_len,
              );
        }

    part-Holds : leb (64 - index w m) (length x) ≡ false → Holds (update w x m) (msg ++ x)
    unfolding fold_blocks
    part-Holds e =
        let small : length (tail msg ++ x) < 64 =
          ground (arith, at_tail, length-append (tail msg) x, length-tail msg) in
        let none_left : length (tail msg ++ x) / 64 ≡ 0 = omega arith in
        let same : tail (msg ++ x) ≡ tail msg ++ x =
          tail-message msg x ∙ ap (λ k. drop (k * 64) (tail msg ++ x)) none_left in
        let len : length (msg ++ x) % 64 ≡ length (tail msg ++ x) =
          sym (length-tail (msg ++ x)) ∙ ap length same in
        record {
          folded =
              (update_part e).0
              ∙ h.folded
              ∙ sym (
                  fold_blocks-message msg x magic
                  ∙ ap
                      (λ k. fold_blocks k (fold_blocks (length msg / 64) magic msg) (tail msg ++ x))
                      none_left);
          pending = ap₂ take len (update_part e).1 ∙ short-eq ∙ sym same;
          counted = update-low ∙ low-eq;
          full =
              ap length (update_part e).1
              ∙ length-store_at (index w m) x m.buffer
                  (omega (arith, h.full, at_tail, length-append (tail msg) x))
              ∙ h.full;
        }

  -- `update` carries on the message: an object that stands for `msg` stands for `msg` and the
  -- input behind it, whatever the sizes are.
  pub update-Holds :
      IsWidth → (m : Md5) (msg x : List ℕ) → Holds m msg → Holds (update w x m) (msg ++ x)
  update-Holds wide m msg x h = elim (Bool-cases (leb (64 - index w m) (length x))) [
    | inl e ↦ whole-Holds wide h x e
    | inr e ↦ part-Holds wide h x e
  ]

  pub reset-Holds : (m : Md5) → length m.buffer ≡ 64 → Holds (reset m) []
  unfolding reset fold_blocks
  reset-Holds m h = record { folded = refl; pending = refl; counted = zero_mod (2 ^ w); full = h }

  -- Feeding a text in two pieces, of any sizes, reaches the same state, the same pending bytes and
  -- the same low count as feeding it in one.
  pub update-append_low :
      IsWidth
      → (m : Md5) (x y : List ℕ) → length m.buffer ≡ 64
      → let parts = update w y (update w x (reset m)) in
        let whole = update w (x ++ y) (reset m) in
        (parts.state ≡ whole.state)
        × (parts.count_low ≡ whole.count_low)
        × (take (index w parts) parts.buffer ≡ take (index w whole) whole.buffer)
  update-append_low wide m x y h =
      let start = reset-Holds m h in
      let one = update-Holds wide (reset m) [] (x ++ y) start in
      let two =
        update-Holds wide (update w x (reset m)) x y (update-Holds wide (reset m) [] x start) in
      (
        two.folded ∙ sym one.folded,
        two.counted ∙ sym one.counted,
        head wide two [] ∙ sym (head wide one []),
      )
