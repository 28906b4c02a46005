-- ===== src/Hex/Tests.antt =====
-- Runs of the hexadecimal conversions, and their round trip at one value.
use utility_engine_old.Base.{◌≡◌, refl, true, false, some, none, [], ◌∷◌, arith}
use utility_engine_old.Hex.{bin2hex, hex2bin}
use utility_engine_old.Hex.RoundTrip.{hex2bin-bin2hex}

upper_with_header :
    bin2hex true true (0xDE ∷ 0x0F ∷ []) ≡ b'0' ∷ b'x' ∷ b'D' ∷ b'E' ∷ b'0' ∷ b'F' ∷ 0 ∷ []
unfolding bin2hex
upper_with_header = refl

-- A text shorter than the header makes `len - 2` wrap round.
short_header : hex2bin 2 true (b'0' ∷ []) ≡ none
unfolding hex2bin
short_header = refl

-- A short text fills the low bytes only.
half_text : hex2bin 3 false (b'1' ∷ b'f' ∷ b'2' ∷ []) ≡ some (0x1F ∷ 0x20 ∷ 0 ∷ [])
unfolding hex2bin
half_text = refl

hex2bin-bin2hex_example :
    hex2bin 2 true (bin2hex true false (0xDE ∷ 0x0F ∷ [])) ≡ some (0xDE ∷ 0x0F ∷ [])
hex2bin-bin2hex_example = hex2bin-bin2hex true false (0xDE ∷ 0x0F ∷ []) (omega arith)
