-- ===== src/Md5/Tests.antt =====
-- Digests of known texts, and the theorems on MD5 at concrete messages.
use utility_engine_old.Base.{ℕ, ◌/◌, ◌%◌}
use utility_engine_old.Base.{◌≡◌, refl}
use utility_engine_old.Base.{inl, inr, false, List}
use utility_engine_old.Base.{[], ◌∷◌, ◌++◌, arith, ◌==◌}
use utility_engine_old.Base.{length, get_or}
use utility_engine_old.Base.{replicate}
use utility_engine_old.Md5.{Md5, magic, reset, encode_words, run_blocks}
use utility_engine_old.Md5.{update, final, run_digest, c_str, md5_of}
use utility_engine_old.Md5.Transform.{transform, encode}
use utility_engine_old.Md5.Stream.{Holds, fold_blocks, reset-Holds, update-Holds}
use utility_engine_old.Md5.Counts.{Counted, bit_length}
use utility_engine_old.Md5.Final.{pad_bytes, final-padded}
use utility_engine_old.Hex.{bin_to_hex}

-- An object before its constructor.
abbrev fresh : Md5
fresh = record {
  state = magic;
  count_low = 0;
  count_high = 0;
  buffer = replicate 64 0;
  digest = replicate 16 0;
  result = replicate 33 0;
  finished = false;
}

abbrev abc : List ℕ
abc = b'a' ∷ b'b' ∷ b'c' ∷ []

-- MD5("abc") is 900150983cd24fb0d6963f7d28e17f72.
abbrev abc_digest : List ℕ
abc_digest =
    0x90 ∷ 0x01 ∷ 0x50 ∷ 0x98 ∷ 0x3c ∷ 0xd2 ∷ 0x4f ∷ 0xb0 ∷ 0xd6 ∷ 0x96 ∷ 0x3f ∷ 0x7d ∷ 0x28 ∷ 0xe1
    ∷ 0x7f ∷ 0x72 ∷ []

abc_on_windows : (c_str 32 (md5_of 32 fresh abc)).1.digest ≡ abc_digest
unfolding c_str md5_of run_digest final update run_blocks transform reset encode
abc_on_windows = refl

-- The digest of the same text where `unsigned long` has 64 bits is another: the rotation by
-- 32 - n bits is one of 32-bit words.
abc_on_linux : (get_or (c_str 64 (md5_of 64 fresh abc)).1.digest 0 0 == 0x90) ≡ false
unfolding c_str md5_of run_digest final update run_blocks transform reset encode
abc_on_linux = refl

-- Sixty bytes: the text is another when it is asked for again.
sixty_twice :
    let once = c_str 32 (md5_of 32 fresh (replicate 60 1)) in
    (get_or (c_str 32 once.1).0 0 0 == get_or once.0 0 0) ≡ false
unfolding c_str md5_of run_digest final update run_blocks transform bin_to_hex reset encode
sixty_twice = refl

Holds-abc : Holds 32 (update 32 abc (reset fresh)) abc
Holds-abc = update-Holds 32 (inl refl) (reset fresh) [] abc (reset-Holds 32 fresh refl)

sixty : List ℕ
sixty = replicate 60 1

Holds-sixty : Holds 32 (update 32 sixty (reset fresh)) sixty
Holds-sixty = update-Holds 32 (inl refl) (reset fresh) [] sixty (reset-Holds 32 fresh refl)

update-Holds_example : Holds 64 (update 64 abc (reset fresh)) abc
update-Holds_example = update-Holds 64 (inr refl) (reset fresh) [] abc (reset-Holds 64 fresh refl)

Counted-abc : Counted (update 32 abc (reset fresh)) 3
unfolding update reset run_blocks
Counted-abc = refl

final-padded_example :
    let m = update 32 abc (reset fresh) in
    let text = (abc ++ pad_bytes abc) ++ bit_length 3 in
    (length text % 64 ≡ 0)
    × ((final 32 m).digest ≡ encode_words (fold_blocks 32 (length text / 64) magic text))
final-padded_example =
    final-padded 32 (inl refl) (update 32 abc (reset fresh)) abc Holds-abc Counted-abc (omega arith)
