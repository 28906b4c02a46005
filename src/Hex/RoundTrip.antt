-- ===== src/Hex/RoundTrip.antt =====
-- Reading back what `bin2hex` writes.
use utility_engine_old.Base.{suc, ◌+◌, take, take-append, replicate, ap, ◌-◌, ℕ, ◌*◌, ◌<◌, ◌≡◌}
use utility_engine_old.Base.{refl, arith, Bool, true, false, some, List, [], ◌∷◌, ◌++◌, ◌==◌, ap₂}
use utility_engine_old.Base.{==→eq, length, bit_and, ◌/◌}
use utility_engine_old.Base.Bits.{for_all_below, of_for_all_below}
use mathlib.Core.List.{append-nil}
use utility_engine_old.Hex.{hex_digit, hex_pairs, bin_to_hex, hex_byte, hex_to_bin, bin2hex}
use utility_engine_old.Hex.{hex2bin}

abbrev pub AllBytes : List ℕ → Type 0
AllBytes [] = Unit {0}
AllBytes (x ∷ xs) = (x < 256) × AllBytes xs

byte_table :
    (upper : Bool)
    → for_all_below 256
        (λ x. hex_byte (hex_digit upper (x / 16)) (hex_digit upper (bit_and x 0x0F)) == x)
      ≡ true
byte_table true = refl
byte_table false = refl

hex_byte-hex_digit :
    (upper : Bool) (x : ℕ)
    → x < 256
    → hex_byte (hex_digit upper (x / 16)) (hex_digit upper (bit_and x 0x0F)) ≡ x
hex_byte-hex_digit upper x h =
    ==→eq (hex_byte (hex_digit upper (x / 16)) (hex_digit upper (bit_and x 0x0F))) x (
      of_for_all_below 256
        (λ x. hex_byte (hex_digit upper (x / 16)) (hex_digit upper (bit_and x 0x0F)) == x) x
        (byte_table upper) h)

hex_to_bin-hex_pairs :
    (upper : Bool) (bytes : List ℕ) → AllBytes bytes → hex_to_bin (hex_pairs upper bytes) ≡ bytes
unfolding hex_to_bin hex_pairs
hex_to_bin-hex_pairs upper [] h = refl
hex_to_bin-hex_pairs upper (x ∷ xs) (h, t) =
    ap₂ ◌∷◌ (hex_byte-hex_digit upper x h) (hex_to_bin-hex_pairs upper xs t)

length-hex_pairs :
    (upper : Bool) (bytes : List ℕ) → length (hex_pairs upper bytes) ≡ length bytes * 2
unfolding hex_pairs
length-hex_pairs upper [] = refl
length-hex_pairs upper (x ∷ xs) = omega (arith, length-hex_pairs upper xs)

take-bin_to_hex :
    (upper : Bool) (bytes : List ℕ)
    → take (length bytes * 2) (bin_to_hex upper bytes) ≡ hex_pairs upper bytes
unfolding bin_to_hex
take-bin_to_hex upper bytes =
    take-append (length bytes * 2) (hex_pairs upper bytes) (0 ∷ []) (length-hex_pairs upper bytes)

no_padding : (bytes : List ℕ) → bytes ++ replicate (length bytes - length bytes) 0 ≡ bytes
no_padding bytes = rw none_left (append-nil bytes)
  where
    none_left : length bytes - length bytes ≡ 0
    none_left = omega arith

behind_header :
    (n : ℕ) (text : List ℕ) → take (n + 2) (b'0' ∷ b'x' ∷ text) ≡ b'0' ∷ b'x' ∷ take n text
behind_header n text = ap (λ k. take k (b'0' ∷ b'x' ∷ text)) two
  where
    two : n + 2 ≡ suc (suc n)
    two = omega arith

-- `hex2bin` of the text of `bin2hex`, with or without the header and in either case, gives back
-- every byte of the value.
pub hex2bin-bin2hex :
    (header upper : Bool) (bytes : List ℕ)
    → AllBytes bytes
    → hex2bin (length bytes) header (bin2hex header upper bytes) ≡ some bytes
unfolding hex2bin bin2hex
hex2bin-bin2hex true upper bytes h =
    rw (behind_header (length bytes * 2) (bin_to_hex upper bytes), hex2bin)
      (rw (take-bin_to_hex upper bytes)
        (rw (hex_to_bin-hex_pairs upper bytes h) (rw (no_padding bytes) (ground arith))))
hex2bin-bin2hex false upper bytes h =
    rw (take-bin_to_hex upper bytes, hex_to_bin-hex_pairs upper bytes h, no_padding bytes)
