-- ===== src/Iocp/Ended.antt =====
-- A send operation that ends.
use utility_engine_old.Session.Offered.{process_send-AtFront, AtFront, Empty}
use mathlib.Core.List.{append_assoc, append-nil}
use utility_engine_old.Base.{take-take, ℕ, zero, suc, ◌-◌, ◌≤◌, ◌<◌, ◌≡◌, refl, sym, ap, ◌∙◌, inl}
use utility_engine_old.Base.{inr, Bool, true, false, some, List, ◌++◌, arith, ◌==◌, if◌then◌else◌}
use utility_engine_old.Base.{Bool-cases, take, drop, take-append-drop}
use utility_engine_old.Epoll.{Phase, Outcome, ok, offered}
use utility_engine_old.Iocp.{Phase, Posted, Line, post_send_event, on_send}
use utility_engine_old.Rotative.Contents.{contents}
use utility_engine_old.Session.{Session, is_connected, close, process_send, connect_peer_close}
use utility_engine_old.Iocp.Steady.{Steady, closed-Kept, post_send_event-Kept, busy}

-- The operation ends, and n bytes of those offered were sent.
abbrev pub after : ℕ → Line → Line
after n l = record l { sends = l.sends - 1; sent = l.sent ++ take n (offered l.session) }

-- The bytes sent, and those behind them.
pub after-bytes :
    (n : ℕ) (l : Line) (accepted : List ℕ)
    → AtFront l.session
    → n ≤ l.session.send_len
    → accepted ≡ l.sent ++ contents l.session.send_buffer
    → accepted ≡ (after n l).sent ++ drop n (contents l.session.send_buffer)
after-bytes n l accepted a le same_bytes =
    let c = contents l.session.send_buffer in
    same_bytes
    ∙ ap (λ xs. l.sent ++ xs) (sym (take-append-drop n c))
    ∙ sym (append_assoc l.sent (take n c) (drop n c))
    ∙ ap (λ xs. (l.sent ++ xs) ++ drop n c)
        (sym (ap (take n) a.next_ones ∙ take-take n l.session.send_len c le))

-- The peer is gone: the operation ends with no byte.
on_send-none :
    (answer : Posted) (phase : Phase) (l : Line) (accepted : List ℕ)
    → AtFront l.session
    → l.sends ≤ 1
    → accepted ≡ l.sent ++ contents l.session.send_buffer
    → (o : Outcome Line) × (t : Line) × (on_send 0 answer phase l ≡ some (o, t)) × Steady t accepted
unfolding on_send
on_send-none answer phase l accepted a few same_bytes =
    let d = after 0 l in
    let t = record d { session = close connect_peer_close l.session } in
    (
      ok t,
      t,
      refl,
      busy d t accepted (closed-Kept connect_peer_close d) (omega (arith, few)) a
          (after-bytes 0 l accepted a (omega arith) same_bytes),
    )

-- Some bytes were sent, and the session is up.
on_send-up :
    (n : ℕ) (answer : Posted) (phase : Phase) (l : Line) (accepted : List ℕ)
    → AtFront l.session
    → is_connected l.session ≡ true
    → (n == 0) ≡ false
    → n ≤ l.session.send_len
    → l.sends ≤ 1
    → accepted ≡ l.sent ++ contents l.session.send_buffer
    → (o : Outcome Line) × (t : Line) × (on_send n answer phase l ≡ some (o, t)) × Steady t accepted
unfolding on_send
on_send-up n answer phase l accepted a up some_n le few same_bytes =
    let (b, s, e, c, next_state) = process_send-AtFront n l.session a up le in
    let d = record (after n l) { session = s } in
    let bytes : accepted ≡ d.sent ++ contents s.send_buffer =
      after-bytes n l accepted a le same_bytes ∙ ap (λ xs. d.sent ++ xs) (sym c) in
    from b s e next_state bytes
  where
    from :
        (b : Bool) (s : Session)
        → process_send n l.session ≡ some (b, s)
        → (if b then AtFront s else Empty s)
        → accepted ≡ (after n l).sent ++ contents s.send_buffer
        → (o : Outcome Line) × (t : Line) × (on_send n answer phase l ≡ some (o, t))
          × Steady t accepted
    from true s e more bytes =
        let d = record (after n l) { session = s } in
        let (k, at_most) = post_send_event-Kept answer phase d in
        (
          (post_send_event answer phase d).0,
          (post_send_event answer phase d).1,
          rw (on_send, some_n, e) refl,
          busy d (post_send_event answer phase d).1 accepted k (omega (arith, at_most, few)) more
              bytes,
        )
    from false s e empty bytes =
        let d = record (after n l) { session = s } in
        (
          ok d,
          d,
          rw (on_send, some_n, e) refl,
          record {
            mode = inl (
              omega (arith, few),
              empty,
              bytes ∙ ap (λ xs. d.sent ++ xs) empty.nothing ∙ append-nil d.sent,
            );
          },
        )

-- Some bytes were sent, of a session that was closed since.
on_send-down :
    (n : ℕ) (answer : Posted) (phase : Phase) (l : Line) (accepted : List ℕ)
    → AtFront l.session
    → is_connected l.session ≡ false
    → (n == 0) ≡ false
    → n ≤ l.session.send_len
    → l.sends ≤ 1
    → accepted ≡ l.sent ++ contents l.session.send_buffer
    → (o : Outcome Line) × (t : Line) × (on_send n answer phase l ≡ some (o, t)) × Steady t accepted
unfolding on_send process_send
on_send-down n answer phase l accepted a off some_n le few same_bytes =
    let d = after n l in
    let e : process_send n l.session ≡ some (false, l.session) = simp (process_send, off) in
    (
      ok d,
      d,
      rw (on_send, some_n, e) refl,
      record {
        mode = inr (
            inr (
              omega (arith, few),
              off,
              (drop n (contents l.session.send_buffer), after-bytes n l accepted a le same_bytes),
            ));
      },
    )

-- An operation ends, with so many bytes sent.
pub on_send-Steady :
    (n : ℕ) (answer : Posted) (phase : Phase) (l : Line) (accepted : List ℕ)
    → Steady l accepted
    → 0 < l.sends
    → n ≤ l.session.send_len
    → (o : Outcome Line) × (t : Line) × (on_send n answer phase l ≡ some (o, t)) × Steady t accepted
on_send-Steady zero answer phase l accepted s some_op le = elim s.mode [
  | inl (z, empty, e) ↦ absurd (omega (arith, z, some_op))
  | inr (inl (few, a, e)) ↦ on_send-none answer phase l accepted a few e
  | inr (inr (z, off, left)) ↦ absurd (omega (arith, z, some_op))
]
on_send-Steady (suc n) answer phase l accepted s some_op le = elim s.mode [
  | inl (z, empty, e) ↦ absurd (omega (arith, z, some_op))
  | inr (inl (few, a, e)) ↦ elim (Bool-cases (is_connected l.session)) [
    | inl up ↦ on_send-up (suc n) answer phase l accepted a up (ground arith) le few e
    | inr off ↦ on_send-down (suc n) answer phase l accepted a off (ground arith) le few e
  ]
  | inr (inr (z, off, left)) ↦ absurd (omega (arith, z, some_op))
]
