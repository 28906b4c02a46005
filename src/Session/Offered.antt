-- ===== src/Session/Offered.antt =====
-- What `send` leaves of the bytes that are offered to the system.
use mathlib.Core.Path.{subst}
use utility_engine_old.Rotative.Read.{commit_read-drop, grant-le, read-reader, read-filled}
use utility_engine_old.Rotative.Read.{read-take}
use utility_engine_old.Base.{eq_nil_of_length, ℕ, ◌+◌, ◌≤◌, ◌<◌, ◌≡◌, refl, sym, ap, ap₂, ◌∙◌, inl}
use utility_engine_old.Base.{inr, Bool, true, false, some, List, [], ◌∷◌, ◌++◌, arith, ltb, ◌==◌}
use utility_engine_old.Base.{if◌then◌else◌, Bool-cases, ==→eq, length, take, drop, length-append}
use utility_engine_old.Base.{take-append_le, peek}
use utility_engine_old.Session.Sending.{send_loop-append}
use utility_engine_old.Rotative.Front.{Front, peek-Front, read-reader_kept}
use utility_engine_old.Rotative.Contents.{contents, length-contents}
use utility_engine_old.Rotative.Invariant.{filled, IsValid}
use utility_engine_old.Rotative.{max_packet_len, Rotative, read, writable_size}
use utility_engine_old.Session.{Session, is_connected, process_send, send, post_send}

-- The bytes offered are the next ones of the buffer, at its reader, and `read` has granted them.
pub record AtFront (s : Session) : Type 0 where
  pub valid : IsValid s.send_buffer
  pub some_bytes : 0 < s.send_len
  pub granted : s.send_len ≤ s.send_buffer.last_read
  pub there : s.send_len ≤ filled s.send_buffer
  pub at_reader : s.send_buf ≡ s.send_buffer.reader
  pub next_ones :
      peek s.send_buffer.buffer s.send_buf s.send_len ≡ take s.send_len (contents s.send_buffer)

-- Nothing is offered, as nothing is there.
pub record Empty (s : Session) : Type 0 where
  pub valid : IsValid s.send_buffer
  pub idle : s.send_buffer.last_read ≡ 0
  pub nothing : contents s.send_buffer ≡ []

-- The session with the next bytes of the buffer b offered.
abbrev pub offering : Session → Rotative → Session
offering s b = record s {
  send_buffer = (read max_packet_len b).2;
  send_buf = (read max_packet_len b).0;
  send_len = (read max_packet_len b).1;
}

pub offering-AtFront :
    (s : Session) (b : Rotative)
    → IsValid b
    → 0 < (read max_packet_len b).1
    → AtFront (offering s b)
offering-AtFront s b v some_bytes =
    let (e, l, p, c, w) = read-take max_packet_len v in
    record {
      valid = w;
      some_bytes = some_bytes;
      granted = omega (arith, e, l);
      there = omega (arith, e, read-filled max_packet_len b, grant-le max_packet_len v);
      at_reader = read-reader max_packet_len b ∙ sym (read-reader_kept max_packet_len b);
      next_ones = p ∙ ap₂ take (sym e) (sym c);
    }

pub read-some : (b : Rotative) → IsValid b → 0 < length (contents b) → 0 < (read max_packet_len b).1
read-some b v there =
    let (e, l, p, c, w) = read-take max_packet_len v in
    ground (arith, e, there, length-contents b, v.reader_in, v.final_eq)

no_bytes : (b : Rotative) → IsValid b → (read max_packet_len b).1 ≡ 0 → length (contents b) ≡ 0
no_bytes b v z =
    let (e, l, p, c, w) = read-take max_packet_len v in
    ground (arith, e, z, length-contents b, v.reader_in, v.final_eq)

pub read-none : (b : Rotative) → IsValid b → (read max_packet_len b).1 ≡ 0 → contents b ≡ []
read-none b v z = eq_nil_of_length (contents b) (no_bytes b v z)

-- More bytes behind those that are offered.
pub AtFront-more :
    (s : Session) (b : Rotative) (packet : List ℕ)
    → AtFront s
    → IsValid b
    → Front s.send_buffer b
    → contents b ≡ contents s.send_buffer ++ packet
    → AtFront (record s { send_buffer = b })
AtFront-more s b packet a w front c =
    let n = s.send_len in
    record {
      valid = w;
      some_bytes = a.some_bytes;
      granted = omega (arith, a.granted, front.read_eq);
      there = omega (arith, a.there, front.grows);
      at_reader = a.at_reader ∙ sym front.reader_eq;
      next_ones =
          ap (λ p. peek b.buffer p n) a.at_reader
          ∙ peek-Front s.send_buffer b n front a.there
          ∙ ap (λ p. peek s.send_buffer.buffer p n) (sym a.at_reader)
          ∙ a.next_ones
          ∙ sym (
              take-append_le n (contents s.send_buffer) packet
                (omega (arith, a.there, length-contents s.send_buffer)))
          ∙ ap (take n) (sym c);
    }

-- What a packet that fits does: of a session that offers nothing it offers the first bytes and
-- posts them; of one that offers some it changes neither these nor what is noted of them.
pub send-AtFront :
    (packet : List ℕ) (s : Session)
    → is_connected s ≡ true
    → IsValid s.send_buffer
    → 0 < length packet
    → length packet ≤ writable_size s.send_buffer
    → (t : Session) × (send (length packet) packet s ≡ some (true, t))
      × (is_connected t ≡ true)
      × IsValid t.send_buffer
      × (contents t.send_buffer ≡ contents s.send_buffer ++ packet)
      × (s.send_buffer.last_read ≡ 0 → AtFront t × (length t.calls ≡ length s.calls + 1))
      × (0 < s.send_buffer.last_read
          → (t.calls ≡ s.calls)
            × (AtFront s → AtFront t)
            × (t.send_buffer.last_read ≡ s.send_buffer.last_read))
unfolding send
send-AtFront packet s up v some_bytes fits =
    let (idle, b, e, w, c, front, flag) =
      send_loop-append (length packet) packet v some_bytes (omega arith) fits in
    let room : ltb (writable_size s.send_buffer) (length packet) ≡ false = ground (arith, fits) in
    elim (Bool-cases (s.send_buffer.last_read == 0)) [
      | inl first ↦
          let (g, l, p, same, x) = read-take max_packet_len w in
          let filled_up : 0 < length (contents b) =
            omega (arith, ap length c, length-append (contents s.send_buffer) packet, some_bytes) in
          let told =
            s.calls ++ post_send (read max_packet_len b).0 (read max_packet_len b).1 ∷ [] in
          let t = offering (record s { calls = told }) b in
          (
            t,
            rw (send, up, room, e, flag ∙ first) refl,
            up,
            x,
            same ∙ c,
            λ idle_eq. (
              offering-AtFront (record s { calls = told }) b w (read-some b w filled_up),
              length-append s.calls _,
            ),
            λ busy. absurd (ground (arith, busy, first)),
          )
      | inr later ↦ (
        record s { send_buffer = b },
        rw (send, up, room, e, flag ∙ later) refl,
        up,
        w,
        c,
        λ idle_eq. absurd (ground (arith, idle_eq, later)),
        λ busy. (refl, λ a. AtFront-more s b packet a w front c, front.read_eq),
      )
    ]

-- What is offered depends on the buffer and on the pointer and length handed out.
pub AtFront-same :
    {s t : Session}
    → AtFront s
    → t.send_buffer ≡ s.send_buffer
    → t.send_buf ≡ s.send_buf
    → t.send_len ≡ s.send_len
    → AtFront t
AtFront-same {s} {t} a b p n = record {
  valid = subst IsValid (sym b) a.valid;
  some_bytes = omega (arith, n, a.some_bytes);
  granted = omega (arith, n, ap (λ r. r.last_read) b, a.granted);
  there = subst (λ r. t.send_len ≤ filled r) (sym b) (omega (arith, n, a.there));
  at_reader = p ∙ a.at_reader ∙ ap (λ r. r.reader) (sym b);
  next_ones =
      ap (λ r. peek r.buffer t.send_buf t.send_len) b
      ∙ ap₂ (λ q k. peek s.send_buffer.buffer q k) p n
      ∙ a.next_ones
      ∙ ap₂ (λ k r. take k (contents r)) (sym n) (sym b);
}

-- The system took n of the bytes offered: `process_send` drops them and offers the next, or nothing
-- is left.
pub process_send-AtFront :
    (n : ℕ) (s : Session)
    → AtFront s
    → is_connected s ≡ true
    → n ≤ s.send_len
    → (b : Bool) × (t : Session) × (process_send n s ≡ some (b, t))
      × (contents t.send_buffer ≡ drop n (contents s.send_buffer))
      × (if b then AtFront t else Empty t)
unfolding process_send
process_send-AtFront n s a up le =
    let (b, e, v, c, l) =
      commit_read-drop n a.valid (omega (arith, le, a.granted)) (omega (arith, le, a.there)) in
    let r = read-take max_packet_len v in
    elim (Bool-cases ((read max_packet_len b).1 == 0)) [
      | inl nothing ↦
          let none_read : (read max_packet_len b).1 ≡ 0 =
            ==→eq (read max_packet_len b).1 0 nothing in
          (
            false,
            record s { send_buffer = (read max_packet_len b).2 },
            rw (process_send, up, e, nothing) refl,
            r.3 ∙ c,
            record {
              valid = r.4;
              idle = omega (arith, r.0, r.1, none_read);
              nothing = r.3 ∙ read-none b v none_read;
            },
          )
      | inr some_more ↦ (
        true,
        offering s b,
        rw (process_send, up, e, some_more) refl,
        r.3 ∙ c,
        offering-AtFront s b v (ground (arith, some_more)),
      )
    ]
