-- ===== src/Parser/Tests.antt =====
-- Runs of the three framings, and their theorems at short messages.
use utility_engine_old.Base.{ℕ, ◌≡◌, refl, some, List, [], ◌∷◌, ◌++◌, arith}
use utility_engine_old.Parser.{zero_comfirm, shift, forward, scan, delimiter_comfirm, accept}
use utility_engine_old.Parser.{reject}
use utility_engine_old.Parser.Zero.{framed, kind, more, zero_comfirm-framed}
use utility_engine_old.Parser.Length.{message_of, received, received-concat}
use utility_engine_old.Parser.Delimiter.{delimiter_comfirm-stuck}

abbrev newline : List ℕ
newline = 13 ∷ 10 ∷ []

-- A delimiter behind one byte is found.
one_byte_line :
    delimiter_comfirm 100 newline 9 ((b'a' ∷ 13 ∷ 10 ∷ []) ∷ []) 0 0 ≡ some (accept 3, 2, 3)
unfolding delimiter_comfirm scan forward shift
one_byte_line = refl

-- Cut into single bytes, the size is counted wrong: 4 for 3 bytes.
one_byte_pieces :
    delimiter_comfirm 100 newline 9 ((b'a' ∷ []) ∷ (13 ∷ []) ∷ (10 ∷ []) ∷ []) 0 0
    ≡ some (accept 4, 2, 4)
unfolding delimiter_comfirm scan forward shift
one_byte_pieces = refl

delimiter_comfirm-stuck_example :
    delimiter_comfirm 20 newline 21 ((b'a' ∷ b'b' ∷ 13 ∷ 10 ∷ []) ∷ []) 0 0
    ≡ some (reject 21, 0, 21)
delimiter_comfirm-stuck_example =
    delimiter_comfirm-stuck 20 newline (b'a' ∷ b'b' ∷ 13 ∷ 10 ∷ []) [] (omega arith) (omega arith)
      (omega arith) refl refl

zero_comfirm-framed_example :
    (kind (zero_comfirm 10 ((b'a' ∷ b'b' ∷ []) ∷ (b'c' ∷ []) ∷ []) 1).0
      ≡ framed 10 (b'a' ∷ b'b' ∷ b'c' ∷ []) 1)
    × (framed 10 (b'a' ∷ b'b' ∷ b'c' ∷ []) 1 ≡ more
        → (zero_comfirm 10 ((b'a' ∷ b'b' ∷ []) ∷ (b'c' ∷ []) ∷ []) 1).1 ≡ 4)
zero_comfirm-framed_example =
    zero_comfirm-framed 10 ((b'a' ∷ b'b' ∷ []) ∷ (b'c' ∷ []) ∷ []) 1 (omega arith) (omega arith)

received-concat_example :
    received 10 3 (message_of (b'h' ∷ b'i' ∷ []) ++ message_of [] ++ 9 ∷ 0 ∷ [])
    ≡ message_of (b'h' ∷ b'i' ∷ []) ∷ message_of [] ∷ []
received-concat_example =
    received-concat 10 ((b'h' ∷ b'i' ∷ []) ∷ [] ∷ []) (9 ∷ 0 ∷ []) (omega arith) refl (omega arith)
