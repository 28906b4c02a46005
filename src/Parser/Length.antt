-- ===== src/Parser/Length.antt =====
-- The frames that begin with their length.
use utility_engine_old.Base.{ℕ, zero, suc, ◌+◌, ◌-◌, ◌/◌, ◌%◌, ◌^◌, ◌≤◌, ◌<◌}
use utility_engine_old.Base.{◌≡◌, ap, ap₂, ◌∙◌, ◌⊎◌}
use utility_engine_old.Base.{Bool, true, ◌&&◌, none, some, List}
use utility_engine_old.Base.{[], ◌∷◌, ◌++◌, map, arith, ltb, leb, if◌then◌else◌}
use utility_engine_old.Base.{length, take, drop}
use utility_engine_old.Base.{length-append}
use utility_engine_old.Base.{take-append, drop-append}
use utility_engine_old.Parser.{uint32, len_comfirm}
use utility_engine_old.Parser.{accept, wait, reject}
use mathlib.Core.List.{append_assoc}
use utility_engine_old.Parser.Zero.{concat}

-- A number as four bytes, the lowest first.
abbrev pub bytes_of : ℕ → List ℕ
bytes_of n = n % 256 ∷ n / 2 ^ 8 % 256 ∷ n / 2 ^ 16 % 256 ∷ n / 2 ^ 24 % 256 ∷ []

-- A message as its sender makes it: the length of the whole, then the payload.
abbrev pub message_of : List ℕ → List ℕ
message_of payload = bytes_of (4 + length payload) ++ payload

uint32-bytes_of : (n : ℕ) (rest : List ℕ) → n < 2 ^ 32 → uint32 (bytes_of n ++ rest) ≡ n
uint32-bytes_of n rest h = omega (arith, h)

-- With the header in one piece, a message that is there as a whole is accepted with its length; a
-- beginning of it that has the header, but not all of the rest, is waited for and its length kept;
-- fewer than four bytes are waited for and nothing is kept.
pub len_comfirm-message_of :
    (m k : ℕ) (payload rest : List ℕ)
    → m < 2 ^ 32
    → 4 + length payload ≤ m
    → len_comfirm m k (take 4 (message_of payload ++ rest) ∷ []) 0
      ≡ some (
          if ltb k 4
          then (wait, 0)
          else if ltb k (4 + length payload)
          then (wait, 4 + length payload)
          else (accept (4 + length payload), 4 + length payload))
unfolding len_comfirm
len_comfirm-message_of m k payload rest small le =
    ground (arith, small, le, uint32-bytes_of (4 + length payload) [])

-- A length below four or above MAX_MSG_LEN is an error, told by the largest size there is.
pub len_comfirm-bad :
    (m k n : ℕ) (rest : List ℕ)
    → n < 2 ^ 32
    → 4 ≤ k
    → 0 < n
    → (n < 4) ⊎ (m < n)
    → len_comfirm m k (bytes_of n ∷ []) 0 ≡ some (reject (2 ^ 64 - 1), n)
unfolding len_comfirm
len_comfirm-bad m k n rest small enough pos_n bad =
    ground (arith, small, enough, bad, uint32-bytes_of n [])

-- The messages taken out of the bytes received, as `handle_wrap` and `post_request` call each other
-- while the handler takes every message: `comfirm`, the handler, `commit`, over a buffer whose `next`
-- gives the four bytes of a header as one piece. On fuel for the messages.
pub received : ℕ → ℕ → List ℕ → List (List ℕ)
received m zero bytes = []
received m (suc fuel) bytes = elim (len_comfirm m (length bytes) (take 4 bytes ∷ []) 0) [
  | none ↦ []
  | some (accept n, s) ↦ take n bytes ∷ received m fuel (drop n bytes)
  | some (wait, s) ↦ []
  | some (reject n, s) ↦ []
]

abbrev pub all_within : ℕ → List (List ℕ) → Bool
all_within m [] = true
all_within m (p ∷ ps) = leb (4 + length p) m && all_within m ps

received-step :
    (m fuel : ℕ) (payload rest : List ℕ)
    → m < 2 ^ 32
    → 4 + length payload ≤ m
    → received m (suc fuel) (message_of payload ++ rest) ≡ message_of payload ∷ received m fuel rest
unfolding received
received-step m fuel payload rest small le =
    let n : ℕ = 4 + length payload in
    let k : ℕ = length (message_of payload ++ rest) in
    let said = len_comfirm-message_of m k payload rest small le in
    let there : n ≤ k = omega (arith, length-append (message_of payload) rest) in
    let ok : len_comfirm m k (take 4 (message_of payload ++ rest) ∷ []) 0 ≡ some (accept n, n) =
      ground (arith, said, there) in
    rw (ok, received)
      (ap₂ (λ a b. a ∷ received m fuel b) (take-append n (message_of payload) rest (omega arith))
        (drop-append n (message_of payload) rest (omega arith)))

-- Over a buffer that gives the four bytes of a header as one piece, as rotative_buffer does, the
-- messages sent one after the other, none longer than MAX_MSG_LEN, come out one by one, in order and
-- whole, also when the beginning of another message, too short for its header, stands behind them.
pub received-concat :
    (m : ℕ) (payloads : List (List ℕ)) (rest : List ℕ)
    → m < 2 ^ 32
    → all_within m payloads ≡ true
    → length rest < 4
    → received m (suc (length payloads)) (concat (map message_of payloads) ++ rest)
      ≡ map message_of payloads
unfolding received len_comfirm
received-concat m [] rest small h r = ground (arith, r)
received-concat m (p ∷ ps) rest small h r =
    rw (append_assoc (message_of p) (concat (map message_of ps)) rest) (
      received-step m (suc (length ps)) p (concat (map message_of ps) ++ rest) small
        (ground (arith, h))
      ∙ ap (λ l. message_of p ∷ l) (received-concat m ps rest small (ground (arith, h)) r))
