-- ===== src/Iocp/Locks/Sender.antt =====
-- The calls of the sender and of an operation that ends.
use utility_engine_old.Base.{ℕ, ◌≤◌, ◌<◌, ◌≡◌, refl, sym, ap, ◌∙◌, inl}
use utility_engine_old.Base.{inr, Bool, true, false, ◌&&◌, ◌||◌, Option, some, List}
use utility_engine_old.Base.{[], ◌++◌, arith, ltb, ◌==◌, Bool-cases, length}
use utility_engine_old.Base.{length-append}
use utility_engine_old.Rotative.{max_packet_len, Rotative, read}
use utility_engine_old.Rotative.Invariant.{IsValid}
use utility_engine_old.Rotative.Contents.{contents, length-contents}
use utility_engine_old.Rotative.Write.{commit_write-append}
use utility_engine_old.Rotative.Read.{read-take, read-progress}
use utility_engine_old.Rotative.Front.{Front, commit_write-Front}
use utility_engine_old.Session.{is_connected}
use utility_engine_old.Session.Offered.{AtFront, AtFront-more}
use utility_engine_old.Session.Offered.{offering-AtFront}
use utility_engine_old.Epoll.{Phase}
use utility_engine_old.Iocp.{Posted, post_send_event}
use utility_engine_old.Iocp.Steady.{same, post_send_event-Kept}
use utility_engine_old.Iocp.Locks.{Race, over, offered_next, sender_commit}
use utility_engine_old.Iocp.Locks.{sender_read}
use mathlib.Core.Path.{subst}
use mathlib.Core.List.{append_assoc, append-nil}
use utility_engine_old.Iocp.Locks.Single.{buffer, Single, kept-Busy}

-- What an event leaves.
abbrev pub Went : Option (List ℕ × Race) → List ℕ → Type 0
Went result accepted =
    (came : List ℕ) × (t : Race) × (result ≡ some (came, t)) × Single t (accepted ++ came)

-- Bytes are committed: the answer is true only while nobody is to read.
committed :
    (bytes : List ℕ) (last : Bool) (r : Race) (accepted : List ℕ)
    → 0 < length bytes
    → Single r accepted
    → r.asked ≡ false
    → (b : Rotative) → IsValid b
    → Front (buffer r) b
    → contents b ≡ contents (buffer r) ++ bytes
    → Single
        (record r {
          line = over b r.line;
          asked = last && ((buffer r).last_read == 0);
          at_end = last;
        })
        (accepted ++ bytes)
committed bytes last r accepted some_bytes s free b v f c =
    let all : accepted ≡ r.line.sent ++ contents (buffer r)
        → accepted ++ bytes ≡ r.line.sent ++ contents b =
      λ e.
        ap (λ x. x ++ bytes) e
        ∙ append_assoc r.line.sent (contents (buffer r)) bytes
        ∙ ap (λ x. r.line.sent ++ x) (sym c) in
    record {
      valid = v;
      mode = elim s.mode [
        | inl m ↦
            let idle : ((buffer r).last_read == 0) ≡ true = ground (arith, m.idle) in
            let long : 0 < length (contents b) =
              omega (arith, ap length c, length-append (contents (buffer r)) bytes, some_bytes) in
            elim (Bool-cases last) [
              | inl t ↦ inr (
                  inl (record {
                    no_op = m.no_op;
                    no_end = m.no_end;
                    is_asked = simp (t, idle);
                    idle = f.read_eq ∙ m.idle;
                    some_bytes = long;
                    all_there = all m.all_there;
                  }))
              | inr t ↦
                  let never : last ≡ true → contents b ≡ [] = λ w. absurd (cc) in
                  inl (record {
                    no_op = m.no_op;
                    no_end = m.no_end;
                    not_asked = simp t;
                    idle = f.read_eq ∙ m.idle;
                    nothing = never;
                    all_there = all m.all_there;
                  })
            ]
        | inr (inl m) ↦ absurd (ground (arith, m.is_asked, free))
        | inr (inr (inl m)) ↦ inr (
            inr (
              inl (record {
                one = m.one;
                not_asked = quiet m.busy last;
                busy = omega (arith, f.read_eq, m.busy);
                ahead = λ h. AtFront-more r.line.session b bytes (m.ahead h) v f c;
                all_there = all m.all_there;
              })))
        | inr (inr (inr m)) ↦ inr (
            inr (
              inr (record {
                no_op = m.no_op;
                no_end = m.no_end;
                not_asked = quiet m.busy last;
                busy = omega (arith, f.read_eq, m.busy);
                first_ones = (
                  m.first_ones.0 ++ bytes,
                  ap (λ x. x ++ bytes) m.first_ones.1
                      ∙ append_assoc r.line.sent m.first_ones.0 bytes,
                );
              })))
      ];
    }
  where
    quiet : 0 < (buffer r).last_read → (l : Bool) → (l && ((buffer r).last_read == 0)) ≡ false
    quiet h true = ground (arith, h)
    quiet h false = refl

pub sender_commit-Single :
    (bytes : List ℕ) (last : Bool) (r : Race) (accepted : List ℕ)
    → 0 < length bytes
    → Single r accepted
    → Went (sender_commit bytes last r) accepted
unfolding sender_commit
sender_commit-Single bytes last r accepted some_bytes s =
    elim (Bool-cases (r.asked || ltb (buffer r).last_malloc (length bytes))) [
      | inl t ↦ ([], r, simp (sender_commit, t), subst (Single r) (sym (append-nil accepted)) s)
      | inr t ↦
          let fits : length bytes ≤ (buffer r).last_malloc = ground (arith, t) in
          let free : r.asked ≡ false = ground (arith, t) in
          let (b, e, v, c, pos_eq) = commit_write-append bytes s.valid fits in
          let (f, flag) = commit_write-Front bytes (buffer r) b _ s.valid fits e in
          (
            bytes,
            record r {
              line = over b r.line;
              asked = last && ((buffer r).last_read == 0);
              at_end = last;
            },
            rw (sender_commit, t, e) refl,
            committed bytes last r accepted some_bytes s free b v f c,
          )
    ]

-- What is read is offered, and posted by a session that is connected.
pub read_on :
    (answer : Posted) (phase : Phase) (r : Race) (k : ℕ) (accepted : List ℕ)
    → IsValid (buffer r)
    → 0 < (read max_packet_len (buffer r)).1
    → r.line.sends ≡ 0
    → k ≡ 0
    → accepted ≡ r.line.sent ++ contents (buffer r)
    → let l = offered_next r.line in
      Single
        (record r { line = (post_send_event answer phase l).1; between = k; asked = false })
        accepted
      × Single (record r { line = l; between = k; asked = false }) accepted
read_on answer phase r k accepted v h z none_between e =
    let l = offered_next r.line in
    let a : AtFront l.session = offering-AtFront r.line.session (buffer r) v h in
    let c : contents l.session.send_buffer ≡ contents (buffer r) = (read-take max_packet_len v).3 in
    let all : accepted ≡ l.sent ++ contents l.session.send_buffer =
      e ∙ ap (λ x. r.line.sent ++ x) (sym c) in
    let (kept, few) = post_send_event-Kept answer phase l in
    (
      kept-Busy l (post_send_event answer phase l).1 k r.at_end accepted kept a
          (omega (arith, few, z, none_between)) all,
      kept-Busy l l k r.at_end accepted (same l l.sends) a (omega (arith, z, none_between)) all,
    )

pub sender_read-Single :
    (answer : Posted) (phase : Phase) (r : Race) (accepted : List ℕ)
    → Single r accepted
    → Single (sender_read answer phase r) accepted
unfolding sender_read
sender_read-Single answer phase r accepted s = elim s.mode [
  | inl m ↦ subst (λ x. Single x accepted) (sym (simp (sender_read, m.not_asked))) s
  | inr (inl m) ↦
      let h =
        read-progress max_packet_len s.valid
          (omega (arith, m.some_bytes, length-contents (buffer r))) in
      let (posted, bare) =
        read_on answer phase r r.between accepted s.valid h m.no_op m.no_end m.all_there in
      elim (Bool-cases (is_connected r.line.session)) [
        | inl up ↦ subst (λ x. Single x accepted) (sym (simp (sender_read, m.is_asked, up))) posted
        | inr off ↦ subst (λ x. Single x accepted) (sym (simp (sender_read, m.is_asked, off))) bare
      ]
  | inr (inr (inl m)) ↦ subst (λ x. Single x accepted) (sym (simp (sender_read, m.not_asked))) s
  | inr (inr (inr m)) ↦ subst (λ x. Single x accepted) (sym (simp (sender_read, m.not_asked))) s
]
