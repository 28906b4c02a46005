-- ===== src/Iocp/Locks/Single.antt =====
-- At most one send operation, whatever comes between two locks of the buffer.
use utility_engine_old.Base.{ℕ, ◌+◌, ◌≤◌, ◌<◌, ◌≡◌, refl, sym, ap, ◌∙◌, ◌⊎◌, inl}
use utility_engine_old.Base.{inr, Bool, true, false, List}
use utility_engine_old.Base.{[], ◌++◌, arith, Bool-cases, length}
use utility_engine_old.Rotative.{Rotative, write}
use utility_engine_old.Rotative.Invariant.{IsValid}
use utility_engine_old.Rotative.Contents.{contents}
use utility_engine_old.Rotative.Write.{write-writable_size, contents-write}
use utility_engine_old.Rotative.Front.{write-Front}
use utility_engine_old.Session.Offered.{AtFront, AtFront-same, AtFront-more}
use utility_engine_old.Iocp.{Line}
use utility_engine_old.Iocp.Steady.{Kept}
use utility_engine_old.Iocp.Locks.{Race, over, sender_write}
use mathlib.Core.Path.{subst}
use mathlib.Core.List.{append-nil}

abbrev pub buffer : Race → Rotative
buffer r = r.line.session.send_buffer

-- Nobody sends; between two packets nothing is left to send.
pub record Resting (r : Race) (accepted : List ℕ) : Type 0 where
  pub no_op : r.line.sends ≡ 0
  pub no_end : r.between ≡ 0
  pub not_asked : r.asked ≡ false
  pub idle : (buffer r).last_read ≡ 0
  pub nothing : r.at_end ≡ true → contents (buffer r) ≡ []
  pub all_there : accepted ≡ r.line.sent ++ contents (buffer r)

-- The sender is about to read and post.
pub record Asked (r : Race) (accepted : List ℕ) : Type 0 where
  pub no_op : r.line.sends ≡ 0
  pub no_end : r.between ≡ 0
  pub is_asked : r.asked ≡ true
  pub idle : (buffer r).last_read ≡ 0
  pub some_bytes : 0 < length (contents (buffer r))
  pub all_there : accepted ≡ r.line.sent ++ contents (buffer r)

-- An operation is under way with the next bytes, or its end is about to read, or, after an error,
-- neither; and the buffer notes that bytes were read of it.
pub record Busy (r : Race) (accepted : List ℕ) : Type 0 where
  pub one : r.line.sends + r.between ≤ 1
  pub not_asked : r.asked ≡ false
  pub busy : 0 < (buffer r).last_read
  pub ahead : 0 < r.line.sends → AtFront r.line.session
  pub all_there : accepted ≡ r.line.sent ++ contents (buffer r)

-- The session was closed while its last operation was under way.
pub record Cut (r : Race) (accepted : List ℕ) : Type 0 where
  pub no_op : r.line.sends ≡ 0
  pub no_end : r.between ≡ 0
  pub not_asked : r.asked ≡ false
  pub busy : 0 < (buffer r).last_read
  pub first_ones : (rest : List ℕ) × (accepted ≡ r.line.sent ++ rest)

pub record Single (r : Race) (accepted : List ℕ) : Type 0 where
  pub valid : IsValid (buffer r)
  pub mode : Resting r accepted ⊎ Asked r accepted ⊎ Busy r accepted ⊎ Cut r accepted

pub kept-Busy :
    (l t : Line) (k : ℕ) (w : Bool) (accepted : List ℕ)
    → Kept l t
    → AtFront l.session
    → t.sends + k ≤ 1
    → accepted ≡ l.sent ++ contents l.session.send_buffer
    → Single (record { line = t; between = k; asked = false; at_end = w }) accepted
kept-Busy l t k w accepted kept a few e =
    let b : AtFront t.session = AtFront-same a kept.buffer_eq kept.buf_eq kept.len_eq in
    record {
      valid = b.valid;
      mode = inr (
          inr (
            inl (record {
              one = few;
              not_asked = refl;
              busy = omega (arith, b.some_bytes, b.granted);
              ahead = λ _. b;
              all_there =
                  e
                  ∙ ap (λ x. x ++ contents l.session.send_buffer) (sym kept.sent_eq)
                  ∙ ap (λ x. t.sent ++ contents x) (sym kept.buffer_eq);
            })));
    }

-- A line that offers the same, with no operation more.
pub Kept-Single :
    (r : Race) (t : Line) (accepted : List ℕ)
    → Kept r.line t
    → t.sends ≤ r.line.sends
    → Single r accepted
    → Single (record r { line = t }) accepted
Kept-Single r t accepted k less s =
    let read_eq : t.session.send_buffer.last_read ≡ (buffer r).last_read =
      ap (λ x. x.last_read) k.buffer_eq in
    let same_bytes : r.line.sent ++ contents (buffer r) ≡ t.sent ++ contents t.session.send_buffer =
      ap (λ x. x ++ contents (buffer r)) (sym k.sent_eq)
      ∙ ap (λ x. t.sent ++ contents x) (sym k.buffer_eq) in
    record {
      valid = subst IsValid (sym k.buffer_eq) s.valid;
      mode = elim s.mode [
        | inl m ↦ inl (record {
          no_op = omega (arith, less, m.no_op);
          no_end = m.no_end;
          not_asked = m.not_asked;
          idle = read_eq ∙ m.idle;
          nothing = λ w. ap contents k.buffer_eq ∙ m.nothing w;
          all_there = m.all_there ∙ same_bytes;
        })
        | inr (inl m) ↦ inr (
            inl (record {
              no_op = omega (arith, less, m.no_op);
              no_end = m.no_end;
              is_asked = m.is_asked;
              idle = read_eq ∙ m.idle;
              some_bytes = omega (arith, ap (λ x. length (contents x)) k.buffer_eq, m.some_bytes);
              all_there = m.all_there ∙ same_bytes;
            }))
        | inr (inr (inl m)) ↦ inr (
            inr (
              inl (record {
                one = omega (arith, m.one, less);
                not_asked = m.not_asked;
                busy = omega (arith, read_eq, m.busy);
                ahead = λ h.
                    AtFront-same (m.ahead (omega (arith, h, less))) k.buffer_eq k.buf_eq k.len_eq;
                all_there = m.all_there ∙ same_bytes;
              })))
        | inr (inr (inr m)) ↦ inr (
            inr (
              inr (record {
                no_op = omega (arith, less, m.no_op);
                no_end = m.no_end;
                not_asked = m.not_asked;
                busy = omega (arith, read_eq, m.busy);
                first_ones = (
                  m.first_ones.0,
                  m.first_ones.1 ∙ ap (λ x. x ++ m.first_ones.0) (sym k.sent_eq),
                );
              })))
      ];
    }

pub sender_write-Single :
    (n : ℕ) (r : Race) (accepted : List ℕ) → Single r accepted → Single (sender_write n r) accepted
unfolding sender_write
sender_write-Single n r accepted s = elim (Bool-cases r.asked) [
  | inl asked ↦ subst (λ x. Single x accepted) (sym (simp (sender_write, asked))) s
  | inr free ↦
      let b = buffer r in
      let v = (write-writable_size n s.valid).4 in
      let c : contents (write n b).2 ≡ contents b = contents-write n b in
      let f = write-Front n b in
      let never : false ≡ true → contents (write n b).2 ≡ [] = λ w. absurd (cc) in
      let now : sender_write n r ≡ record r { line = over (write n b).2 r.line; at_end = false } =
        simp (sender_write, free) in
      subst (λ x. Single x accepted) (sym now)
        (record {
          valid = v;
          mode = elim s.mode [
            | inl m ↦ inl (record {
              no_op = m.no_op;
              no_end = m.no_end;
              not_asked = m.not_asked;
              idle = f.read_eq ∙ m.idle;
              nothing = never;
              all_there = m.all_there ∙ ap (λ x. r.line.sent ++ x) (sym c);
            })
            | inr (inl m) ↦ absurd (ground (arith, m.is_asked, free))
            | inr (inr (inl m)) ↦ inr (
                inr (
                  inl (record {
                    one = m.one;
                    not_asked = m.not_asked;
                    busy = omega (arith, f.read_eq, m.busy);
                    ahead = λ h.
                        AtFront-more r.line.session (write n b).2 [] (m.ahead h) v f
                          (c ∙ sym (append-nil (contents b)));
                    all_there = m.all_there ∙ ap (λ x. r.line.sent ++ x) (sym c);
                  })))
            | inr (inr (inr m)) ↦ inr (
                inr (
                  inr (record {
                    no_op = m.no_op;
                    no_end = m.no_end;
                    not_asked = m.not_asked;
                    busy = omega (arith, f.read_eq, m.busy);
                    first_ones = m.first_ones;
                  })))
          ];
        })
]
