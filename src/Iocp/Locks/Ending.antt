-- ===== src/Iocp/Locks/Ending.antt =====
-- An operation that ends, and any sequence of the calls.
use utility_engine_old.Base.{ℕ, ◌+◌, ◌-◌, ◌<◌, ◌≡◌, refl, sym, ap, ◌∙◌, inl}
use utility_engine_old.Base.{inr, min, false, some, List}
use utility_engine_old.Base.{[], ◌++◌, arith, ◌==◌, ==→eq, Bool-cases}
use utility_engine_old.Base.{take, drop}
use utility_engine_old.Rotative.{max_packet_len, read}
use utility_engine_old.Rotative.Invariant.{IsValid}
use utility_engine_old.Rotative.Contents.{contents}
use utility_engine_old.Rotative.Read.{read-take, commit_read-drop}
use utility_engine_old.Session.{is_connected, close, connect_peer_close}
use utility_engine_old.Session.Offered.{AtFront}
use utility_engine_old.Session.Offered.{read-none}
use utility_engine_old.Epoll.{Phase, offered}
use utility_engine_old.Iocp.{Posted, Line, post_send_event}
use utility_engine_old.Iocp.Steady.{Kept, closed-Kept}
use utility_engine_old.Iocp.Ended.{after-bytes}
use utility_engine_old.Iocp.Locks.{Race, over, offered_next}
use utility_engine_old.Iocp.Locks.{op_end, end_read}
use mathlib.Core.Path.{subst}
use mathlib.Core.List.{append-nil}
use utility_engine_old.Iocp.Locks.Single.{buffer, Busy, Single}
use utility_engine_old.Iocp.Locks.Single.{Kept-Single}
use utility_engine_old.Iocp.Locks.Sender.{read_on}

-- The operation that is under way ends.
op_ends :
    (n : ℕ) (r : Race) (accepted : List ℕ)
    → Busy r accepted
    → 0 < r.line.sends
    → (t : Race) × (op_end n r ≡ some t) × Single t accepted
unfolding op_end
op_ends n r accepted m some_op =
    let l = r.line in
    let a = m.ahead some_op in
    let k = min n l.session.send_len in
    let posted : (l.sends == 0) ≡ false = ground (arith, some_op) in
    let e = after-bytes k l accepted a (omega arith) m.all_there in
    let ended_line : Line = record l {
      sends = l.sends - 1;
      sent = l.sent ++ take k (offered l.session);
    } in
    elim (Bool-cases (k == 0)) [
      | inl z ↦
          let none_sent : l.sent ++ take k (offered l.session) ≡ l.sent =
            ap (λ j. l.sent ++ take j (offered l.session)) (==→eq k 0 z) ∙ append-nil l.sent in
          let c = closed-Kept connect_peer_close l in
          let t : Line = record ended_line { session = close connect_peer_close l.session } in
          let kept : Kept l t = record {
            buffer_eq = c.buffer_eq;
            buf_eq = c.buf_eq;
            len_eq = c.len_eq;
            sent_eq = none_sent;
          } in
          (
            record r { line = t },
            simp (op_end, posted, z),
            Kept-Single r t accepted kept (omega arith)
                (record { valid = a.valid; mode = inr (inr (inl m)) }),
          )
      | inr z ↦ elim (Bool-cases (is_connected l.session)) [
        | inr off ↦ (
          record r { line = ended_line },
          simp (op_end, posted, z, off),
          record {
            valid = a.valid;
            mode = inr (
                inr (
                  inr (record {
                    no_op = omega (arith, m.one);
                    no_end = omega (arith, m.one, some_op);
                    not_asked = m.not_asked;
                    busy = m.busy;
                    first_ones = (drop k (contents (buffer r)), e);
                  })));
          },
        )
        | inl up ↦
            let (b, f, v, c, read_eq) =
              commit_read-drop k a.valid (omega (arith, a.granted)) (omega (arith, a.there)) in
            let none_left : l.sends - 1 ≡ 0 = omega (arith, m.one) in
            let no_more : 0 < l.sends - 1 → AtFront (over b ended_line).session =
              λ h. absurd (omega (arith, h, none_left)) in
            (
              record r { line = over b ended_line; between = r.between + 1 },
              rw (op_end, posted, z, up, f) refl,
              record {
                valid = v;
                mode = inr (
                    inr (
                      inl (record {
                        one = omega (arith, m.one, some_op);
                        not_asked = m.not_asked;
                        busy = omega (arith, read_eq, m.busy);
                        ahead = no_more;
                        all_there = e ∙ ap (λ x. ended_line.sent ++ x) (sym c);
                      })));
              },
            )
      ]
    ]

no_op-kept :
    (n : ℕ) (r : Race) (accepted : List ℕ)
    → r.line.sends ≡ 0
    → Single r accepted
    → (t : Race) × (op_end n r ≡ some t) × Single t accepted
unfolding op_end
no_op-kept n r accepted z s = (r, simp (op_end, z), s)

pub op_end-Single :
    (n : ℕ) (r : Race) (accepted : List ℕ)
    → Single r accepted
    → (t : Race) × (op_end n r ≡ some t) × Single t accepted
op_end-Single n r accepted s = elim s.mode [
  | inl m ↦ no_op-kept n r accepted m.no_op s
  | inr (inl m) ↦ no_op-kept n r accepted m.no_op s
  | inr (inr (inl m)) ↦ elim (Bool-cases (r.line.sends == 0)) [
    | inl z ↦ no_op-kept n r accepted (==→eq _ _ z) s
    | inr some_op ↦ op_ends n r accepted m (ground (arith, some_op))
  ]
  | inr (inr (inr m)) ↦ no_op-kept n r accepted m.no_op s
]

-- The end of an operation reads on.
read_next :
    (answer : Posted) (phase : Phase) (r : Race) (accepted : List ℕ)
    → IsValid (buffer r)
    → Busy r accepted
    → (r.between == 0) ≡ false
    → Single (end_read answer phase r) accepted
unfolding end_read
read_next answer phase r accepted v m ends =
    let b = buffer r in
    let (g, l, p, c, w) = read-take max_packet_len v in
    let z : r.line.sends ≡ 0 = ground (arith, m.one, ends) in
    let last : r.between - 1 ≡ 0 = omega (arith, m.one) in
    let all : accepted ≡ r.line.sent ++ contents (read max_packet_len b).2 =
      m.all_there ∙ ap (λ x. r.line.sent ++ x) (sym c) in
    let bare : Race = record r {
      line = over (read max_packet_len b).2 r.line;
      between = r.between - 1;
    } in
    elim (Bool-cases ((read max_packet_len b).1 == 0)) [
      | inl empty ↦
          let now : end_read answer phase r ≡ bare = simp (end_read, ends, empty) in
          let nothing : contents (buffer bare) ≡ [] = c ∙ read-none b v (==→eq _ _ empty) in
          subst (λ x. Single x accepted) (sym now)
            (record {
              valid = w;
              mode = inl (record {
                no_op = z;
                no_end = last;
                not_asked = m.not_asked;
                idle = l ∙ sym g ∙ ==→eq _ _ empty;
                nothing = λ _. nothing;
                all_there = all;
              });
            })
      | inr more ↦
          let h : 0 < (read max_packet_len b).1 = ground (arith, more) in
          elim (Bool-cases (is_connected r.line.session)) [
            | inl up ↦
                let t : Race = record {
                  line = (post_send_event answer phase (offered_next r.line)).1;
                  between = r.between - 1;
                  asked = false;
                  at_end = r.at_end;
                } in
                let now : end_read answer phase r ≡ t =
                  simp (end_read, ends, more, up, m.not_asked) in
                subst (λ x. Single x accepted) (sym now)
                  (read_on answer phase r (r.between - 1) accepted v h z last m.all_there).0
            | inr off ↦
                let now : end_read answer phase r ≡ bare = simp (end_read, ends, more, off) in
                let no_more : 0 < r.line.sends → AtFront bare.line.session =
                  λ some_op. absurd (omega (arith, some_op, z)) in
                subst (λ x. Single x accepted) (sym now)
                  (record {
                    valid = w;
                    mode = inr (
                        inr (
                          inl (record {
                            one = omega (arith, z, last);
                            not_asked = m.not_asked;
                            busy = omega (arith, l, g, h);
                            ahead = no_more;
                            all_there = all;
                          })));
                  })
          ]
    ]

no_end-kept :
    (answer : Posted) (phase : Phase) (r : Race) (accepted : List ℕ)
    → r.between ≡ 0
    → Single r accepted
    → Single (end_read answer phase r) accepted
unfolding end_read
no_end-kept answer phase r accepted z s =
    let now : end_read answer phase r ≡ r = simp (end_read, z) in
    subst (λ x. Single x accepted) (sym now) s

pub end_read-Single :
    (answer : Posted) (phase : Phase) (r : Race) (accepted : List ℕ)
    → Single r accepted
    → Single (end_read answer phase r) accepted
end_read-Single answer phase r accepted s = elim s.mode [
  | inl m ↦ no_end-kept answer phase r accepted m.no_end s
  | inr (inl m) ↦ no_end-kept answer phase r accepted m.no_end s
  | inr (inr (inl m)) ↦ elim (Bool-cases (r.between == 0)) [
    | inl z ↦ no_end-kept answer phase r accepted (==→eq _ _ z) s
    | inr ends ↦ read_next answer phase r accepted s.valid m ends
  ]
  | inr (inr (inr m)) ↦ no_end-kept answer phase r accepted m.no_end s
]
