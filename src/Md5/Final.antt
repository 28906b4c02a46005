-- ===== src/Md5/Final.antt =====
-- The digest: `final`, `digest` and `c_str` of `md5`.
use utility_engine_old.Md5.{bin_to_hex, Md5, magic, padding, store_at, encode_words}
use utility_engine_old.Md5.{index, update, final, run_digest, c_str}
use utility_engine_old.Base.{ℕ, zero, suc, ◌+◌, ◌-◌, ◌*◌, ◌/◌, ◌%◌, ◌≤◌, ◌<◌}
use utility_engine_old.Base.{◌≡◌, refl, sym, ap, ap₂, ◌∙◌}
use utility_engine_old.Base.{inl, Bool, true, false, List}
use utility_engine_old.Base.{[], ◌∷◌, ◌++◌, arith, ltb, leb, if◌then◌else◌}
use utility_engine_old.Base.{length, take, drop}
use utility_engine_old.Base.{replicate, length-append, length-take}
use utility_engine_old.Base.{take-append}
use utility_engine_old.Base.{take-append_le, drop-append_ge}
use utility_engine_old.Base.{take-length, take-take}
use utility_engine_old.Base.{eq_nil_of_length}
use utility_engine_old.Md5.Stream.{tail-message, update_whole, update_part, reached-eq, Holds}
use utility_engine_old.Md5.Stream.{IsWidth, fold_blocks, update-Holds, tail, length-tail, at_tail}
use mathlib.Core.Path.{subst}
use utility_engine_old.Md5.Counts.{Counted, most, bit_length, encode-bit_length}
use utility_engine_old.Md5.Transform.{encode}

-- The bytes of the two counts that close the padded text.
abbrev pub length_bytes : Md5 → List ℕ
length_bytes m = encode (m.count_low ∷ m.count_high ∷ [])

-- 0x80 and zeros, up to 56 bytes of the last block.
abbrev pub pad_bytes : List ℕ → List ℕ
pad_bytes msg =
    take (if ltb (length msg % 64) 56 then 56 - length msg % 64 else 120 - length msg % 64) padding

length-length_bytes : (m : Md5) → length (length_bytes m) ≡ 8
unfolding encode
length-length_bytes m = refl

-- What is left of the padding when a block closes inside it: 56 zeros.
pad_rest : (i : ℕ) → i < 8 → drop (suc i) (take (suc i + 56) padding) ≡ replicate 56 0
pad_rest zero h = refl
pad_rest (suc zero) h = refl
pad_rest (suc (suc zero)) h = refl
pad_rest (suc (suc (suc zero))) h = refl
pad_rest (suc (suc (suc (suc zero)))) h = refl
pad_rest (suc (suc (suc (suc (suc zero))))) h = refl
pad_rest (suc (suc (suc (suc (suc (suc zero)))))) h = refl
pad_rest (suc (suc (suc (suc (suc (suc (suc zero))))))) h = refl
pad_rest (suc (suc (suc (suc (suc (suc (suc (suc i)))))))) h = absurd (omega arith)

pad_length :
    (msg : List ℕ)
    → length (pad_bytes msg)
      ≡ (if ltb (length msg % 64) 56 then 56 - length msg % 64 else 120 - length msg % 64)
pad_length msg =
    length-take (if ltb (length msg % 64) 56 then 56 - length msg % 64 else 120 - length msg % 64)
      padding (ground arith)

length-pad_bytes : (msg : List ℕ) → (length msg + length (pad_bytes msg)) % 64 ≡ 56
length-pad_bytes msg = ground (arith, pad_length msg)

module _ (w : ℕ) (wide : IsWidth w) {m : Md5} {msg : List ℕ} (h : Holds w m msg) where
  pad_eq :
      take (if ltb (index w m) 56 then 56 - index w m else 120 - index w m) padding ≡ pad_bytes msg
  pad_eq =
      ap (λ k. take (if ltb k 56 then 56 - k else 120 - k) padding)
        (at_tail w wide h [] ∙ length-tail w msg)

  abbrev padded : Md5
  padded = update w (length_bytes m) (update w (pad_bytes msg) m)

  padded-Holds : Holds w padded ((msg ++ pad_bytes msg) ++ length_bytes m)
  padded-Holds =
      update-Holds w wide (update w (pad_bytes msg) m) (msg ++ pad_bytes msg) (length_bytes m)
        (update-Holds w wide m msg (pad_bytes msg) h)

  final-digest : (final w m).digest ≡ encode_words padded.state
  unfolding final
  final-digest = rw pad_eq

  final-buffer : (final w m).buffer ≡ padded.buffer
  unfolding final
  final-buffer = rw pad_eq

  length-padded : length ((msg ++ pad_bytes msg) ++ length_bytes m) % 64 ≡ 0
  length-padded = omega (
    arith,
    length-append (msg ++ pad_bytes msg) (length_bytes m),
    length-append msg (pad_bytes msg),
    length-length_bytes m,
    length-pad_bytes msg,
  )

-- With the counts as they stand in the object behind the padding.
final-blocks :
    (w : ℕ)
    → IsWidth w
    → (m : Md5) (msg : List ℕ) → Holds w m msg
    → let text = (msg ++ pad_bytes msg) ++ length_bytes m in
      (length text % 64 ≡ 0)
      × ((final w m).digest ≡ encode_words (fold_blocks w (length text / 64) magic text))
final-blocks w wide m msg h =
    (length-padded w wide h, final-digest w wide h ∙ ap encode_words (padded-Holds w wide h).folded)

-- The digest of an object that stands for `msg`, with its number of bits in the two counts, is that of
-- the message padded as RFC 1321 says: 0x80, zeros up to 56 bytes of a block, and the number of
-- its bits in eight bytes, the lowest first. The padded message is whole blocks, and the digest is
-- the encoding of all of them transformed one after the other. The message has fewer than 2 ^ 32
-- bytes where an `unsigned long` has 32 bits, or fewer than 2 ^ 29 where it has 64.
pub final-padded :
    (w : ℕ)
    → IsWidth w
    → (m : Md5) (msg : List ℕ) → Holds w m msg
    → Counted m (length msg)
    → length msg < most w
    → let text = (msg ++ pad_bytes msg) ++ bit_length (length msg) in
      (length text % 64 ≡ 0)
      × ((final w m).digest ≡ encode_words (fold_blocks w (length text / 64) magic text))
final-padded w wide m msg h c lt =
    let rfc : length_bytes m ≡ bit_length (length msg) =
      encode-bit_length w wide m (length msg) h.counted c lt in
    subst
      (λ bytes.
        (length ((msg ++ pad_bytes msg) ++ bytes) % 64 ≡ 0)
        × ((final w m).digest
            ≡ encode_words (
                fold_blocks w (length ((msg ++ pad_bytes msg) ++ bytes) / 64) magic
                  ((msg ++ pad_bytes msg) ++ bytes))))
      rfc (final-blocks w wide m msg h)

take-store_at :
    (n at : ℕ) (bytes buffer : List ℕ)
    → n ≤ at
    → at ≤ length buffer
    → take n (store_at at bytes buffer) ≡ take n buffer
take-store_at n at bytes buffer h k =
    take-append_le n (take at buffer) (bytes ++ drop (at + length bytes) buffer)
      (omega (arith, length-take at buffer k))
    ∙ take-take n at buffer h

-- The last block of the padding leaves nothing behind it, so the buffer keeps the bytes below the
-- place where the length went.
module _ (w : ℕ) (wide : IsWidth w) {m : Md5} {msg : List ℕ} (h : Holds w m msg) where
  abbrev after_pad : Md5
  after_pad = update w (pad_bytes msg) m

  after_pad-Holds : Holds w after_pad (msg ++ pad_bytes msg)
  after_pad-Holds = update-Holds w wide m msg (pad_bytes msg) h

  index-after_pad : index w after_pad ≡ 56
  index-after_pad =
      at_tail w wide after_pad-Holds []
      ∙ length-tail w (msg ++ pad_bytes msg)
      ∙ omega (arith, length-append msg (pad_bytes msg), length-pad_bytes msg)

  padded-buffer :
      (padded w wide h).buffer
      ≡ store_at 0
          (tail w ((msg ++ pad_bytes msg) ++ length_bytes m))
          (store_at 56 (length_bytes m) after_pad.buffer)
  padded-buffer =
      (update_whole w wide after_pad-Holds (length_bytes m) closes).1
      ∙ ap₂ (store_at 0) (ap (λ p. p.1) (reached-eq w wide after_pad-Holds (length_bytes m) big)) (
          ap (λ k. store_at k (take (64 - k) (length_bytes m)) after_pad.buffer) index-after_pad
          ∙ ap (λ l. store_at 56 l after_pad.buffer)
              (take-length 8 (length_bytes m) (omega (arith, length-length_bytes m))))
    where
      closes : leb (64 - index w after_pad) (length (length_bytes m)) ≡ true
      closes = ground (arith, index-after_pad, length-length_bytes m)

      big : 64 ≤ length (tail w (msg ++ pad_bytes msg) ++ length_bytes m)
      big = omega (
        arith,
        length-append (tail w (msg ++ pad_bytes msg)) (length_bytes m),
        length-length_bytes m,
        at_tail w wide after_pad-Holds [],
        index-after_pad,
      )

  low-kept : (n : ℕ) → n ≤ 56 → take n (final w m).buffer ≡ take n after_pad.buffer
  low-kept n le =
      ap (take n) (
        final-buffer w wide h
        ∙ padded-buffer
        ∙ ap (λ l. store_at 0 l (store_at 56 (length_bytes m) after_pad.buffer)) none_left)
      ∙ take-store_at n 56 (length_bytes m) after_pad.buffer le
          (omega (arith, after_pad-Holds.full))
    where
      none_left : tail w ((msg ++ pad_bytes msg) ++ length_bytes m) ≡ []
      none_left =
          eq_nil_of_length (tail w ((msg ++ pad_bytes msg) ++ length_bytes m))
            (length-tail w ((msg ++ pad_bytes msg) ++ length_bytes m) ∙ length-padded w wide h)

  -- A message that leaves room for the padding in its last block stays in the buffer.
  after_pad-short :
      length msg % 64 < 56
      → take (length msg % 64) after_pad.buffer ≡ take (length msg % 64) m.buffer
  after_pad-short lt =
      ap (take (length msg % 64)) (update_part w wide h (pad_bytes msg) open_block).1
      ∙ take-store_at (length msg % 64) (index w m) (pad_bytes msg) m.buffer
          (omega (arith, at_tail w wide h [], length-tail w msg))
          (omega (arith, h.full, at_tail w wide h [], length-tail w msg))
    where
      open_block : leb (64 - index w m) (length (pad_bytes msg)) ≡ false
      open_block = ground (arith, pad_length msg, at_tail w wide h [], length-tail w msg)

  tail-after_pad : 56 ≤ length msg % 64 → tail w (msg ++ pad_bytes msg) ≡ replicate 56 0
  tail-after_pad le =
      let j = 63 - length msg % 64 in
      let one : length (tail w msg ++ pad_bytes msg) / 64 * 64 ≡ 64 =
        ground
          (arith, pad_length msg, length-tail w msg, length-append (tail w msg) (pad_bytes msg)) in
      let rest : 64 - length (tail w msg) ≡ suc j = omega (arith, length-tail w msg) in
      let pads : (if ltb (length msg % 64) 56 then 56 - length msg % 64 else 120 - length msg % 64)
          ≡ suc j + 56 =
        ground arith in
      tail-message w msg (pad_bytes msg)
      ∙ ap (λ k. drop k (tail w msg ++ pad_bytes msg)) one
      ∙ drop-append_ge 64 (tail w msg) (pad_bytes msg) (omega (arith, length-tail w msg))
      ∙ ap₂ (λ k l. drop k (take l padding)) rest pads
      ∙ pad_rest j (omega arith)

  after_pad-long : 56 ≤ length msg % 64 → take 56 after_pad.buffer ≡ replicate 56 0
  after_pad-long le =
      ap (take 56) (
        (update_whole w wide h (pad_bytes msg) closes).1
        ∙ ap (λ l. store_at 0 l filled)
            (ap (λ p. p.1) (reached-eq w wide h (pad_bytes msg) big) ∙ tail-after_pad le))
      ∙ take-append 56 (replicate 56 0) (drop 56 filled) refl
    where
      filled : List ℕ
      filled = store_at (index w m) (take (64 - index w m) (pad_bytes msg)) m.buffer

      closes : leb (64 - index w m) (length (pad_bytes msg)) ≡ true
      closes = ground (arith, pad_length msg, at_tail w wide h [], length-tail w msg)

      big : 64 ≤ length (tail w msg ++ pad_bytes msg)
      big =
          ground
            (arith, pad_length msg, length-tail w msg, length-append (tail w msg) (pad_bytes msg))

-- On Windows `final` puts the state and both counts back.
final_restores :
    (m : Md5)
    → ((final 32 m).state ≡ m.state)
      × ((final 32 m).count_low ≡ m.count_low)
      × ((final 32 m).count_high ≡ m.count_high)
unfolding final
final_restores m = (refl, refl, refl)

final-Holds :
    (m : Md5) (msg : List ℕ) → Holds 32 m msg → length msg % 64 < 56 → Holds 32 (final 32 m) msg
final-Holds m msg h lt = record {
  folded = (final_restores m).0 ∙ h.folded;
  pending =
      low-kept 32 (inl refl) h (length msg % 64) (omega arith)
      ∙ after_pad-short 32 (inl refl) h lt
      ∙ h.pending;
  counted = (final_restores m).1 ∙ h.counted;
  full = ap length (final-buffer 32 (inl refl) h) ∙ (padded-Holds 32 (inl refl) h).full;
}

finish-Holds :
    (m : Md5) (msg : List ℕ) (b : Bool) → Holds 32 m msg → Holds 32 (record m { finished = b }) msg
finish-Holds m msg b h = record {
  folded = h.folded;
  pending = h.pending;
  counted = h.counted;
  full = h.full;
}

-- The digest of an object that stands for `msg`, with its counts.
digest_of : Md5 → List ℕ → List ℕ
digest_of m msg =
    let text = (msg ++ pad_bytes msg) ++ length_bytes m in
    encode_words (fold_blocks 32 (length text / 64) magic text)

run_digest-eq : (m : Md5) → run_digest 32 m ≡ final 32 (record m { finished = true })
unfolding run_digest
run_digest-eq m = refl

final-digest_of : (m : Md5) (msg : List ℕ) → Holds 32 m msg → (final 32 m).digest ≡ digest_of m msg
unfolding digest_of
final-digest_of m msg h = (final-blocks 32 (inl refl) m msg h).1

digest_of_bytes :
    (m n : Md5) (msg : List ℕ) → length_bytes m ≡ length_bytes n → digest_of m msg ≡ digest_of n msg
unfolding digest_of
digest_of_bytes m n msg e =
    ap
      (λ (l : List ℕ). encode_words (
        fold_blocks 32 (length ((msg ++ pad_bytes msg) ++ l) / 64) magic
          ((msg ++ pad_bytes msg) ++ l)))
      e

c_str-text :
    (m : Md5) (msg : List ℕ)
    → Holds 32 m msg
    → m.finished ≡ false
    → (c_str 32 m).0 ≡ bin_to_hex false (digest_of m msg)
unfolding c_str
c_str-text m msg h e = simp e (
    ap (λ (n : Md5). bin_to_hex false n.digest) (run_digest-eq m)
    ∙ ap (bin_to_hex false) (
        final-digest_of (record m { finished = true }) msg (finish-Holds m msg true h)
        ∙ digest_of_bytes (record m { finished = true }) m msg refl))

-- `final` leaves the object unfinished.
final-finished : (m : Md5) → (final 32 m).finished ≡ false
unfolding final update
final-finished m = ground arith

c_str-state :
    (m : Md5)
    → m.finished ≡ false
    → (c_str 32 m).1 ≡ record (final 32 (record m { finished = true })) {
      result = bin_to_hex false (final 32 (record m { finished = true })).digest;
    }
unfolding c_str run_digest
c_str-state m e = rw e

c_str-Holds :
    (m : Md5) (msg : List ℕ)
    → Holds 32 m msg
    → m.finished ≡ false
    → length msg % 64 < 56
    → Holds 32 (c_str 32 m).1 msg
      × ((c_str 32 m).1.finished ≡ false)
      × (length_bytes (c_str 32 m).1 ≡ length_bytes m)
c_str-Holds m msg h e lt =
    let n = record m { finished = true } in
    let g = final-Holds n msg (finish-Holds m msg true h) lt in
    rw (c_str-state m e) (
      record { folded = g.folded; pending = g.pending; counted = g.counted; full = g.full },
      final-finished n,
      ap₂ (λ (low high : ℕ). encode (low ∷ high ∷ [])) (final_restores n).1 (final_restores n).2,
    )

-- With room for the padding in its last block (fewer than 56 pending bytes), an object on Windows
-- can be asked for its text again: the text is the same, and the object still stands for its
-- message, so that more can be fed.
pub c_str_again :
    (m : Md5) (msg : List ℕ)
    → Holds 32 m msg
    → m.finished ≡ false
    → length msg % 64 < 56
    → ((c_str 32 (c_str 32 m).1).0 ≡ (c_str 32 m).0) × Holds 32 (c_str 32 m).1 msg
c_str_again m msg h e lt =
    let (g, f, l) = c_str-Holds m msg h e lt in
    (
      c_str-text (c_str 32 m).1 msg g f
          ∙ ap (bin_to_hex false) (digest_of_bytes (c_str 32 m).1 m msg l)
          ∙ sym (c_str-text m msg h e),
      g,
    )

-- With 56 or more pending bytes asking for the text destroys them: the first 56 of the buffer are
-- the zeros of the padding, while state and count still say that the message's bytes are there.
pub c_str_loses :
    (m : Md5) (msg : List ℕ)
    → Holds 32 m msg
    → m.finished ≡ false
    → 56 ≤ length msg % 64
    → (take 56 (c_str 32 m).1.buffer ≡ replicate 56 0)
      × ((c_str 32 m).1.state ≡ m.state)
      × ((c_str 32 m).1.count_low ≡ m.count_low)
c_str_loses m msg h e le =
    let n = record m { finished = true } in
    let g = finish-Holds m msg true h in
    rw (c_str-state m e) (
      low-kept 32 (inl refl) g 56 (omega arith) ∙ after_pad-long 32 (inl refl) g le,
      (final_restores n).0,
      (final_restores n).1,
    )
