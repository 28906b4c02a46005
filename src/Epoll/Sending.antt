-- ===== src/Epoll/Sending.antt =====
-- The bytes of a session on their way to the system.
use utility_engine_old.Base.{eq_nil_of_length, take-take, ℕ, zero, suc, ◌≤◌, ◌<◌, min, ◌≡◌, refl}
use utility_engine_old.Base.{sym, ap, ap₂, ◌∙◌, inl, inr, Bool, true, false, some, List, [], ◌∷◌}
use utility_engine_old.Base.{◌++◌, arith, ◌==◌, if◌then◌else◌, Bool-cases, ==→eq, length, take}
use utility_engine_old.Base.{drop, take-append-drop}
use utility_engine_old.Rotative.{max_packet_len, Rotative, read}
use utility_engine_old.Session.{Reason, Session, is_connected, close, process_send}
use utility_engine_old.Session.{connect_peer_close}
use utility_engine_old.Epoll.{Outcome, Written, offered, write_loop, ok, throws, count, interrupted}
use utility_engine_old.Epoll.{again, bad_descriptor, conn_reset, failed}
use utility_engine_old.Rotative.Invariant.{IsValid}
use utility_engine_old.Rotative.Contents.{contents, length-contents}
use utility_engine_old.Rotative.Read.{read-take, commit_read-drop, grant, grant-le}
use mathlib.Core.List.{append_assoc}

-- The bytes offered to the system are the next ones of the buffer, and `read` has granted them.
pub record Offering (s : Session) : Type 0 where
  pub valid : IsValid s.send_buffer
  pub some_bytes : 0 < s.send_len
  pub granted : s.send_len ≤ s.send_buffer.last_read
  pub there : s.send_len ≤ length (contents s.send_buffer)
  pub next_ones : offered s ≡ take s.send_len (contents s.send_buffer)

-- The session with the next bytes of the buffer b offered.
abbrev offering : Session → Rotative → Session
offering s b = record s {
  send_buffer = (read max_packet_len b).2;
  send_buf = (read max_packet_len b).0;
  send_len = (read max_packet_len b).1;
}

offering-Offering :
    (s : Session) (b : Rotative)
    → IsValid b
    → 0 < (read max_packet_len b).1
    → Offering (offering s b)
offering-Offering s b v some_bytes =
    let (e, l, p, c, w) = read-take max_packet_len v in
    record {
      valid = w;
      some_bytes = some_bytes;
      granted = omega (arith, e, l);
      there = omega (arith, e, ap length c, length-contents b, grant-le max_packet_len v);
      next_ones = p ∙ ap₂ take (sym e) (sym c);
    }

-- Nothing is granted only if nothing is there.
grant-none : (b : Rotative) → IsValid b → (read max_packet_len b).1 ≡ 0 → contents b ≡ []
grant-none b v z =
    let (e, l, p, c, w) = read-take max_packet_len v in
    let nothing : grant max_packet_len b ≡ 0 = omega (arith, e, z) in
    eq_nil_of_length (contents b)
      (ground (arith, nothing, length-contents b, v.reader_in, v.final_eq))

-- With `n` of the offered bytes taken by the system, `process_send` drops them and offers the next;
-- it says false only if none is left.
pub process_send-drop :
    (n : ℕ) (s : Session)
    → Offering s
    → is_connected s ≡ true
    → n ≤ s.send_len
    → (b : Bool) × (t : Session) × (process_send n s ≡ some (b, t))
      × (contents t.send_buffer ≡ drop n (contents s.send_buffer))
      × (is_connected t ≡ true)
      × (if b then Offering t else (contents t.send_buffer ≡ []))
unfolding process_send
process_send-drop n s o up le =
    let (b, e, v, c, l) =
      commit_read-drop n o.valid (omega (arith, le, o.granted))
        (omega (arith, le, o.there, length-contents s.send_buffer)) in
    let same = (read-take max_packet_len v).3 in
    let dropped : contents (read max_packet_len b).2 ≡ drop n (contents s.send_buffer) = same ∙ c in
    elim (Bool-cases ((read max_packet_len b).1 == 0)) [
      | inl nothing ↦ (
        false,
        record s { send_buffer = (read max_packet_len b).2 },
        rw (process_send, up, e, nothing) refl,
        dropped,
        up,
        same ∙ grant-none b v (==→eq (read max_packet_len b).1 0 nothing),
      )
      | inr some_more ↦ (
        true,
        offering s b,
        rw (process_send, up, e, some_more) refl,
        dropped,
        up,
        offering-Offering s b v (ground (arith, some_more)),
      )
    ]

-- What one turn of the loop gives to the system.
write_loop-end :
    (n : ℕ) (answers : List Written) (s t : Session)
    → Offering s
    → 0 < n
    → process_send (min n s.send_len) s ≡ some (false, t)
    → write_loop (count n ∷ answers) s ≡ some (ok false, take (min n s.send_len) (offered s), t)
unfolding write_loop
write_loop-end n answers s t o some_n e =
    let some_taken : (min n s.send_len == 0) ≡ false = ground (arith, some_n, o.some_bytes) in
    rw (write_loop, some_taken, e) refl

write_loop-next :
    (n : ℕ) (answers : List Written) (s t u : Session) (r : Outcome Bool) (sent : List ℕ)
    → Offering s
    → 0 < n
    → process_send (min n s.send_len) s ≡ some (true, t)
    → write_loop answers t ≡ some (r, sent, u)
    → write_loop (count n ∷ answers) s ≡ some (r, take (min n s.send_len) (offered s) ++ sent, u)
unfolding write_loop
write_loop-next n answers s t u r sent o some_n e f =
    let some_taken : (min n s.send_len == 0) ≡ false = ground (arith, some_n, o.some_bytes) in
    rw (write_loop, some_taken, e, f) refl

take-offered :
    (n : ℕ) (s : Session)
    → Offering s
    → n ≤ s.send_len
    → take n (offered s) ≡ take n (contents s.send_buffer)
take-offered n s o le = ap (take n) o.next_ones ∙ take-take n s.send_len (contents s.send_buffer) le

close-send_buffer : (why : Reason) (s : Session) → (close why s).send_buffer ≡ s.send_buffer
unfolding close
close-send_buffer why s = ground arith

-- However the system takes the bytes of a session, in whatever portions and with whatever
-- interruptions, errors among them, until it says that it takes no more now: the loop ends, and
-- what the system took, followed by what is still to be sent, is what was to be sent at first.
pub write_loop-sent :
    (answers : List Written) (s : Session)
    → Offering s
    → is_connected s ≡ true
    → (r : Outcome Bool) × (sent : List ℕ) × (t : Session) × (write_loop (answers ++ again ∷ []) s
        ≡ some (r, sent, t))
      × (sent ++ contents t.send_buffer ≡ contents s.send_buffer)
unfolding write_loop
write_loop-sent [] s o up = (ok true, [], s, refl, refl)
write_loop-sent (interrupted ∷ answers) s o up = write_loop-sent answers s o up
write_loop-sent (again ∷ answers) s o up = (ok true, [], s, refl, refl)
write_loop-sent (bad_descriptor ∷ answers) s o up = (ok false, [], s, refl, refl)
write_loop-sent (conn_reset ∷ answers) s o up = (
  ok false,
  [],
  close connect_peer_close s,
  refl,
  ap contents (close-send_buffer connect_peer_close s),
)
write_loop-sent (failed ∷ answers) s o up = (throws, [], s, refl, refl)
write_loop-sent (count zero ∷ answers) s o up = (throws, [], s, ground arith, refl)
write_loop-sent (count (suc n) ∷ answers) s o up =
    let taken : ℕ = min (suc n) s.send_len in
    let (b, t, e, d, up', more) = process_send-drop taken s o up (omega arith) in
    let given = take-offered taken s o (omega arith) in
    from b t e d up' more given (write_loop-sent answers)
  where
    from :
        (b : Bool) (t : Session)
        → process_send (min (suc n) s.send_len) s ≡ some (b, t)
        → contents t.send_buffer ≡ drop (min (suc n) s.send_len) (contents s.send_buffer)
        → is_connected t ≡ true
        → (if b then Offering t else (contents t.send_buffer ≡ []))
        → take (min (suc n) s.send_len) (offered s)
          ≡ take (min (suc n) s.send_len) (contents s.send_buffer)
        → ((t : Session)
            → Offering t
            → is_connected t ≡ true
            → (r : Outcome Bool) × (sent : List ℕ) × (u : Session) × (write_loop
                  (answers ++ again ∷ [])
                  t
                ≡ some (r, sent, u))
              × (sent ++ contents u.send_buffer ≡ contents t.send_buffer))
        → (r : Outcome Bool) × (sent : List ℕ) × (u : Session) × (write_loop
              (count (suc n) ∷ answers ++ again ∷ [])
              s
            ≡ some (r, sent, u))
          × (sent ++ contents u.send_buffer ≡ contents s.send_buffer)
    from false t e d up' more given ih = (
      ok false,
      take (min (suc n) s.send_len) (offered s),
      t,
      write_loop-end (suc n) (answers ++ again ∷ []) s t o (omega arith) e,
      ap₂ ◌++◌ given d ∙ take-append-drop (min (suc n) s.send_len) (contents s.send_buffer),
    )
    from true t e d up' more given ih =
        let (r, sent, u, f, c) = ih t more up' in
        let now = take (min (suc n) s.send_len) (offered s) in
        (
          r,
          now ++ sent,
          u,
          write_loop-next (suc n) (answers ++ again ∷ []) s t u r sent o (omega arith) e f,
          append_assoc now sent (contents u.send_buffer)
              ∙ ap₂ ◌++◌ given (c ∙ d)
              ∙ take-append-drop (min (suc n) s.send_len) (contents s.send_buffer),
        )
