-- ===== src/Rotative/Cursor.antt =====
-- The message cursor over `rotative_buffer`: `next`, `reset` and the read limit.
use utility_engine_old.Base.{lt→ltb, if◌then◌else◌, none, ap, sym, ◌∙◌, take, drop, peek}
use utility_engine_old.Base.{tabulate_cong, take-tabulate, drop-tabulate_of_eq, refl, ◌≤◌, ◌==◌}
use utility_engine_old.Base.{◌⊎◌, ℕ, ◌+◌, ◌-◌, ◌<◌, ◌≡◌, some, arith}
use utility_engine_old.Rotative.{readable_size, Rotative, read, max_packet_len, next}
use utility_engine_old.Rotative.Invariant.{moved-IsValid, filled, IsValid}
use utility_engine_old.Rotative.Read.{read-grant, read-byte, read-reader, contents-read}
use utility_engine_old.Rotative.Read.{read-IsValid}
use utility_engine_old.Rotative.Contents.{contents, at}

-- How much is handed out: what is asked for, or all that is left for 0.
abbrev pub portion : ℕ → Rotative → ℕ
portion asked r = if asked == 0 then r.limit - r.pos else asked

pub next-limited :
    (asked : ℕ) (r : Rotative)
    → 0 < r.limit
    → r.pos < r.limit
    → asked ≤ r.limit - r.pos
    → next asked r ≡ (
      some ((read r.limit r).0 + r.pos),
      portion asked r,
      record (read r.limit r).2 { pos = r.pos + portion asked r },
    )
unfolding next
next-limited asked r h p a = rw (lt→ltb 0 r.limit h, next) (ground arith)

-- Inside a message with a limit of at most a packet, all of it readable, `next` hands out the bytes
-- asked for from the cursor on, all the rest of the message for 0. It moves the cursor behind
-- them, takes no byte off the buffer and keeps the invariant.
pub next-portion :
    (asked : ℕ) {r : Rotative}
    → IsValid r
    → r.limit ≤ max_packet_len
    → r.limit ≤ filled r
    → r.pos < r.limit
    → asked ≤ r.limit - r.pos
    → (p : ℕ) × (s : Rotative) × (next asked r ≡ (some p, portion asked r, s))
      × (peek s.buffer p (portion asked r) ≡ take (portion asked r) (drop r.pos (contents r)))
      × (s.pos ≡ r.pos + portion asked r)
      × (contents s ≡ contents r)
      × IsValid s
next-portion asked {r} v small there p a = (
  (read r.limit r).0 + r.pos,
  record (read r.limit r).2 { pos = r.pos + portion asked r },
  next-limited asked r (omega arith) p a,
  tabulate_cong (portion asked r) (λ k. (read r.limit r).2.buffer ((read r.limit r).0 + r.pos + k))
        (λ k. r.buffer (at r (r.pos + k))) (λ k lt. byte k lt)
      ∙ sym (
          ap (take (portion asked r)) (
            drop-tabulate_of_eq r.pos (filled r) (filled r - r.pos) (λ k. r.buffer (at r k))
              (omega arith))
          ∙ take-tabulate (portion asked r) (filled r - r.pos) (λ k. r.buffer (at r (r.pos + k)))
              (ground arith)),
  refl,
  contents-read r.limit v,
  moved-IsValid (r.pos + portion asked r) (read-IsValid r.limit v),
)
  where
    byte :
        (k : ℕ)
        → k < portion asked r
        → (read r.limit r).2.buffer ((read r.limit r).0 + r.pos + k) ≡ r.buffer (at r (r.pos + k))
    byte k lt =
        rw (read-reader r.limit r)
          (rw (← shift) (read-byte r.limit (r.pos + k) v (ground (arith, read-grant r.limit v))))
      where
        shift : r.reader + (r.pos + k) ≡ r.reader + r.pos + k
        shift = omega arith

-- At the end of the message, and where more is asked for than is left, `next` hands out nothing,
-- answers 0 or what is left, and changes nothing.
pub next-none :
    (asked : ℕ) (r : Rotative)
    → 0 < r.limit
    → r.limit - r.pos < asked ⊎ r.limit ≤ r.pos
    → next asked r ≡ (none, r.limit - r.pos, r)
unfolding next
next-none asked r h p = ground arith

-- A message whose limit is not set yet and whose readable bytes wrap further than a packet past
-- the end is handed out in one piece that runs behind the array of size + 4096 + 1 bytes.
pub next-overrun :
    {r : Rotative}
    → IsValid r
    → r.limit ≡ 0
    → r.pos ≡ 0
    → r.writer < r.reader
    → max_packet_len + 1 < r.writer
    → ((next 0 r).0 ≡ some r.reader) × (r.size + max_packet_len + 1 < r.reader + (next 0 r).1)
unfolding next read readable_size
next-overrun v h1 h2 h3 h4 = (ground arith, ground arith)
