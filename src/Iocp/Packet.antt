-- ===== src/Iocp/Packet.antt =====
-- A packet that a user of the session sends.
use utility_engine_old.Session.Offered.{AtFront, send-AtFront}
use mathlib.Core.Path.{subst}
use mathlib.Core.List.{append_assoc, append-nil}
use utility_engine_old.Base.{ℕ, ◌+◌, ◌≤◌, ◌<◌, ◌≡◌, refl, sym, ap, ap₂, ◌∙◌, inl, inr, Bool, true}
use utility_engine_old.Base.{false, some, List, [], ◌++◌, arith, ltb, if◌then◌else◌, Bool-cases}
use utility_engine_old.Base.{ltb→ge, length}
use utility_engine_old.Epoll.{Phase}
use utility_engine_old.Iocp.{Phase, Posted, Line, post_send_event, send_packet}
use utility_engine_old.Rotative.Contents.{contents}
use utility_engine_old.Rotative.{writable_size}
use utility_engine_old.Session.{Session, is_connected, close, send, send_buffer_overflow}
use utility_engine_old.Iocp.Steady.{Steady, Kept, same, closed-Kept, post_send_event-Kept, busy}
use utility_engine_old.Iocp.Steady.{Steady-Kept, close-down}

-- The packet is accepted, by a session that offers nothing yet.
send_packet-first :
    (packet : List ℕ) (answer : Posted) (phase : Phase) (l : Line) (accepted : List ℕ) (s : Session)
    → send (length packet) packet l.session ≡ some (true, s)
    → length s.calls ≡ length l.session.calls + 1
    → AtFront s
    → contents s.send_buffer ≡ packet
    → l.sends ≡ 0
    → accepted ≡ l.sent
    → (t : Line) × (send_packet packet answer phase l ≡ some (true, t))
      × Steady t (accepted ++ packet)
unfolding send_packet
send_packet-first packet answer phase l accepted s e grew a c z same_bytes =
    let d = record l { session = s } in
    let told : ltb (length l.session.calls) (length s.calls) ≡ true = ground (arith, grew) in
    let (k, few) = post_send_event-Kept answer phase d in
    let t = (post_send_event answer phase d).1 in
    (
      t,
      rw (send_packet, e, told) refl,
      busy d t (accepted ++ packet) k (omega (arith, few, z)) a (ap₂ ◌++◌ same_bytes (sym c)),
    )

-- The packet is accepted, behind the bytes that are offered.
send_packet-next :
    (packet : List ℕ) (answer : Posted) (phase : Phase) (l : Line) (accepted : List ℕ) (s : Session)
    → send (length packet) packet l.session ≡ some (true, s)
    → s.calls ≡ l.session.calls
    → AtFront s
    → contents s.send_buffer ≡ contents l.session.send_buffer ++ packet
    → l.sends ≤ 1
    → accepted ≡ l.sent ++ contents l.session.send_buffer
    → (t : Line) × (send_packet packet answer phase l ≡ some (true, t))
      × Steady t (accepted ++ packet)
unfolding send_packet
send_packet-next packet answer phase l accepted s e quiet a c few same_bytes =
    let d = record l { session = s } in
    let silent : ltb (length l.session.calls) (length s.calls) ≡ false =
      ground (arith, ap length quiet) in
    (
      d,
      rw (send_packet, e, silent) refl,
      record {
        mode = inr (
            inl (
              few,
              a,
              ap (λ xs. xs ++ packet) same_bytes
                  ∙ append_assoc l.sent (contents l.session.send_buffer) packet
                  ∙ ap (λ xs. l.sent ++ xs) (sym c),
            ));
      },
    )

-- The packet is not accepted.
send_packet-refused :
    (packet : List ℕ) (answer : Posted) (phase : Phase) (l : Line) (accepted : List ℕ) (s : Session)
    → send (length packet) packet l.session ≡ some (false, s)
    → Kept l (record l { session = s })
    → is_connected s ≡ false
    → Steady l accepted
    → (t : Line) × (send_packet packet answer phase l ≡ some (false, t)) × Steady t (accepted ++ [])
unfolding send_packet
send_packet-refused packet answer phase l accepted s e k off st =
    let t = record l { session = s } in
    (
      t,
      rw (send_packet, e) refl,
      subst (Steady t) (sym (append-nil accepted)) (Steady-Kept l t accepted k refl (λ h. off) st),
    )

-- A packet is sent: it is accepted as a whole, or not at all.
pub send_packet-Steady :
    (packet : List ℕ) (answer : Posted) (phase : Phase) (l : Line) (accepted : List ℕ)
    → 0 < length packet
    → Steady l accepted
    → (b : Bool) × (t : Line) × (send_packet packet answer phase l ≡ some (b, t))
      × Steady t (accepted ++ (if b then packet else []))
unfolding send
send_packet-Steady packet answer phase l accepted some_bytes st =
    elim (Bool-cases (is_connected l.session)) [
      | inr off ↦
          let e : send (length packet) packet l.session ≡ some (false, l.session) =
            simp (send, off) in
          let (t, g, x) =
            send_packet-refused packet answer phase l accepted l.session e (same l l.sends) off
              st in
          (false, t, g, x)
      | inl up ↦ elim (Bool-cases (ltb (writable_size l.session.send_buffer) (length packet))) [
        | inl over ↦
            let s = close send_buffer_overflow l.session in
            let e : send (length packet) packet l.session ≡ some (false, s) =
              simp (send, up, over) in
            let (t, g, x) =
              send_packet-refused packet answer phase l accepted s e
                (closed-Kept send_buffer_overflow l) (close-down send_buffer_overflow l.session)
                st in
            (false, t, g, x)
        | inr fits ↦ elim st.mode [
          | inl (z, empty, same_bytes) ↦
              let (s, e, u, v, c, first, later) =
                send-AtFront packet l.session up empty.valid some_bytes (ltb→ge _ _ fits) in
              let (a, grew) = first empty.idle in
              let (t, g, x) =
                send_packet-first packet answer phase l accepted s e grew a
                  (c ∙ ap (λ xs. xs ++ packet) empty.nothing) z same_bytes in
              (true, t, g, x)
          | inr (inl (few, a, same_bytes)) ↦
              let (s, e, u, v, c, first, later) =
                send-AtFront packet l.session up a.valid some_bytes (ltb→ge _ _ fits) in
              let (quiet, on, read_eq) = later (omega (arith, a.some_bytes, a.granted)) in
              let (t, g, x) =
                send_packet-next packet answer phase l accepted s e quiet (on a) c few same_bytes in
              (true, t, g, x)
          | inr (inr (z, off, left)) ↦ absurd (ground (arith, up, off))
        ]
      ]
    ]
