-- ===== src/Md5/Transform.antt =====
-- The basic transformation of MD5: the macros and `md5::transform`, `encode` and `decode` of
-- UtilityEngine/src/com_md5.cpp, over an `unsigned long` of w bits (32 on Windows, 64 on Linux).
use utility_engine_old.Base.{ℕ, ◌+◌, ◌-◌, ◌*◌, ◌/◌, ◌%◌, ◌^◌, List, [], ◌∷◌, bit_and, bit_or}
use utility_engine_old.Base.{bit_xor, get_or}

-- `_state`: the four words A, B, C, D.
pub record Words : Type 0 where
  pub a : ℕ
  pub b : ℕ
  pub c : ℕ
  pub d : ℕ

-- One use of the macro TRANSFORM: the word of the block, the rotation, the constant.
pub data Turn : Type 0 where
  turn : ℕ → ℕ → ℕ → Turn

abbrev pub round_one : List Turn
round_one =
    turn 0 7 0xd76aa478
    ∷ turn 1 12 0xe8c7b756
    ∷ turn 2 17 0x242070db
    ∷ turn 3 22 0xc1bdceee
    ∷ turn 4 7 0xf57c0faf
    ∷ turn 5 12 0x4787c62a
    ∷ turn 6 17 0xa8304613
    ∷ turn 7 22 0xfd469501
    ∷ turn 8 7 0x698098d8
    ∷ turn 9 12 0x8b44f7af
    ∷ turn 10 17 0xffff5bb1
    ∷ turn 11 22 0x895cd7be
    ∷ turn 12 7 0x6b901122
    ∷ turn 13 12 0xfd987193
    ∷ turn 14 17 0xa679438e
    ∷ turn 15 22 0x49b40821
    ∷ []

abbrev pub round_two : List Turn
round_two =
    turn 1 5 0xf61e2562
    ∷ turn 6 9 0xc040b340
    ∷ turn 11 14 0x265e5a51
    ∷ turn 0 20 0xe9b6c7aa
    ∷ turn 5 5 0xd62f105d
    ∷ turn 10 9 0x2441453
    ∷ turn 15 14 0xd8a1e681
    ∷ turn 4 20 0xe7d3fbc8
    ∷ turn 9 5 0x21e1cde6
    ∷ turn 14 9 0xc33707d6
    ∷ turn 3 14 0xf4d50d87
    ∷ turn 8 20 0x455a14ed
    ∷ turn 13 5 0xa9e3e905
    ∷ turn 2 9 0xfcefa3f8
    ∷ turn 7 14 0x676f02d9
    ∷ turn 12 20 0x8d2a4c8a
    ∷ []

abbrev pub round_three : List Turn
round_three =
    turn 5 4 0xfffa3942
    ∷ turn 8 11 0x8771f681
    ∷ turn 11 16 0x6d9d6122
    ∷ turn 14 23 0xfde5380c
    ∷ turn 1 4 0xa4beea44
    ∷ turn 4 11 0x4bdecfa9
    ∷ turn 7 16 0xf6bb4b60
    ∷ turn 10 23 0xbebfbc70
    ∷ turn 13 4 0x289b7ec6
    ∷ turn 0 11 0xeaa127fa
    ∷ turn 3 16 0xd4ef3085
    ∷ turn 6 23 0x4881d05
    ∷ turn 9 4 0xd9d4d039
    ∷ turn 12 11 0xe6db99e5
    ∷ turn 15 16 0x1fa27cf8
    ∷ turn 2 23 0xc4ac5665
    ∷ []

abbrev pub round_four : List Turn
round_four =
    turn 0 6 0xf4292244
    ∷ turn 7 10 0x432aff97
    ∷ turn 14 15 0xab9423a7
    ∷ turn 5 21 0xfc93a039
    ∷ turn 12 6 0x655b59c3
    ∷ turn 3 10 0x8f0ccc92
    ∷ turn 10 15 0xffeff47d
    ∷ turn 1 21 0x85845dd1
    ∷ turn 8 6 0x6fa87e4f
    ∷ turn 15 10 0xfe2ce6e0
    ∷ turn 6 15 0xa3014314
    ∷ turn 13 21 0x4e0811a1
    ∷ turn 4 6 0xf7537e82
    ∷ turn 11 10 0xbd3af235
    ∷ turn 2 15 0x2ad7d2bb
    ∷ turn 9 21 0xeb86d391
    ∷ []

-- `decode`: words from bytes, low byte first; a last word with bytes missing reads 0 for them.
unfoldable pub decode : List ℕ → List ℕ
decode (p ∷ q ∷ r ∷ s ∷ rest) =
    bit_or (bit_or (bit_or p (q * 2 ^ 8)) (r * 2 ^ 16)) (s * 2 ^ 24) ∷ decode rest
decode _ = []

-- The four bytes of one word in `encode`.
abbrev pub low_byte : ℕ → ℕ → ℕ
low_byte x k = bit_and (x / 2 ^ k) 0xff

-- `encode`: four bytes of each word.
unfoldable pub encode : List ℕ → List ℕ
encode [] = []
encode (x ∷ xs) = bit_and x 0xff ∷ low_byte x 8 ∷ low_byte x 16 ∷ low_byte x 24 ∷ encode xs

module _ (w : ℕ) where
  -- ~x on w bits
  abbrev pub bit_not : ℕ → ℕ
  bit_not x = 2 ^ w - 1 - x

  abbrev pub f_mix : ℕ → ℕ → ℕ → ℕ
  f_mix x y z = bit_or (bit_and x y) (bit_and (bit_not x) z)

  abbrev pub g_mix : ℕ → ℕ → ℕ → ℕ
  g_mix x y z = bit_or (bit_and x z) (bit_and y (bit_not z))

  abbrev pub h_mix : ℕ → ℕ → ℕ → ℕ
  h_mix x y z = bit_xor (bit_xor x y) z

  abbrev pub i_mix : ℕ → ℕ → ℕ → ℕ
  i_mix x y z = bit_xor y (bit_or x (bit_not z))

  -- ROTATE_LEFT, with its 32 whatever the width
  pub rotate_left : ℕ → ℕ → ℕ
  rotate_left x n = bit_or (x * 2 ^ n % 2 ^ w) (x / 2 ^ (32 - n))

  -- TRANSFORM(N, a, b, c, d, x, s, ac), whose result goes to a.
  pub transform_word : (ℕ → ℕ → ℕ → ℕ) → Words → ℕ → ℕ → ℕ → ℕ
  unfolding rotate_left
  transform_word mix v x s ac =
      (rotate_left ((v.a + mix v.b v.c v.d + x + ac) % 2 ^ w) s + v.b) % 2 ^ w

  -- A round: the next turn has the names of the words moved on by one, (d, a, b, c) for (a, b, c, d).
  pub run_round : (ℕ → ℕ → ℕ → ℕ) → List ℕ → List Turn → Words → Words
  unfolding transform_word
  run_round mix x [] v = v
  run_round mix x (turn k s ac ∷ turns) v =
      run_round mix x turns
        (record { a = v.d; b = transform_word mix v (get_or x k 0) s ac; c = v.b; d = v.c })

  -- `transform`
  unfoldable pub transform : Words → List ℕ → Words
  unfolding decode run_round
  transform v block =
      let x = decode block in
      let v1 = run_round f_mix x round_one v in
      let v2 = run_round g_mix x round_two v1 in
      let v3 = run_round h_mix x round_three v2 in
      let v4 = run_round i_mix x round_four v3 in
      record {
        a = (v.a + v4.a) % 2 ^ w;
        b = (v.b + v4.b) % 2 ^ w;
        c = (v.c + v4.c) % 2 ^ w;
        d = (v.d + v4.d) % 2 ^ w;
      }
