-- ===== src/Hex.antt =====
-- Hexadecimal text: UtilityEngine/include/com_hex_caster.hpp. A text is the list of its codes with
-- the closing 0 written out; a value of type T is the list of its sizeof(T) bytes.
pub mod RoundTrip
mod Tests
use utility_engine_old.Base.{◌&&◌, ℕ, ◌+◌, ◌-◌, ◌*◌, ◌/◌, ◌%◌, Bool, true, false, Option, none}
use utility_engine_old.Base.{some, List, [], ◌∷◌, ◌++◌, ltb, ◌==◌, if◌then◌else◌, bit_and, bit_or}
use utility_engine_old.Base.{length, take, drop, get_or, replicate}

-- `bin_to_hex_define<upper>::HEX`
abbrev pub hex_digit : Bool → ℕ → ℕ
hex_digit upper n =
    if ltb n 10 then b'0' + n else if upper then b'A' + (n - 10) else b'a' + (n - 10)

-- The loop of `bin_to_hex`.
pub hex_pairs : Bool → List ℕ → List ℕ
hex_pairs upper [] = []
hex_pairs upper (x ∷ xs) =
    hex_digit upper (x / 16) ∷ hex_digit upper (bit_and x 0x0F) ∷ hex_pairs upper xs

-- `bin_to_hex<upper>`, also for no byte
unfoldable pub bin_to_hex : Bool → List ℕ → List ℕ
unfolding hex_pairs
bin_to_hex upper bytes = hex_pairs upper bytes ++ 0 ∷ []

-- `UTILITY_COM_HEX_TRANS`
abbrev pub hex_trans : ℕ → ℕ
hex_trans h = if bit_and h 0x40 == 0 then bit_and h 0x0F else 0x09 + bit_and h 0x0F

-- One turn of `hex_to_bin`, stored into a `char`.
abbrev pub hex_byte : ℕ → ℕ → ℕ
hex_byte h l = bit_or (hex_trans h * 16) (hex_trans l) % 256

-- `hex_to_bin` on a text of `len` codes; a last odd code is paired with the closing 0.
pub hex_to_bin : List ℕ → List ℕ
hex_to_bin [] = []
hex_to_bin (h ∷ []) = hex_byte h 0 ∷ []
hex_to_bin (h ∷ l ∷ rest) = hex_byte h l ∷ hex_to_bin rest

-- `bin_to_hex_buffer<size, hex_header>::m_len`
abbrev pub buffer_len : ℕ → Bool → ℕ
buffer_len size header = if header then size * 2 + 2 else size * 2

abbrev pub header_text : Bool → List ℕ
header_text header = if header then b'0' ∷ b'x' ∷ [] else []

-- `bin2hex<hex_header, upper>(data).str()`
pub bin2hex : Bool → Bool → List ℕ → List ℕ
unfolding bin_to_hex
bin2hex header upper bytes = header_text header ++ bin_to_hex upper bytes

-- `hex2bin<hex_header>(data, hex, len)` for data of `size` bytes, where `hex` holds `len` codes.
-- `none` is the run of `hex_to_bin` past every buffer that `len - 2` wrapping round starts.
pub hex2bin : ℕ → Bool → List ℕ → Option (List ℕ)
unfolding hex_to_bin
hex2bin size header hex =
    let cut = take (buffer_len size header) hex in
    let text = if header then drop 2 cut else cut in
    let bytes = hex_to_bin text in
    if header && ltb (length cut) 2 then none else some (bytes ++ replicate (size - length bytes) 0)
