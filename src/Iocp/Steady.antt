-- ===== src/Iocp/Steady.antt =====
-- The states of the sending side between two events.
use utility_engine_old.Session.Offered.{AtFront-same, AtFront, Empty}
use mathlib.Core.Path.{subst}
use utility_engine_old.Base.{ℕ, ◌+◌, ◌≤◌, ◌≡◌, refl, sym, ap, ap₂, ◌∙◌, ◌⊎◌, inl, inr, false, List}
use utility_engine_old.Base.{◌++◌, arith}
use utility_engine_old.Epoll.{Phase, phase_none, starting, running, stopping}
use utility_engine_old.Iocp.{Phase, Posted, Line, post_send_event, under_way, peer_gone, not_socket}
use utility_engine_old.Iocp.{post_refused}
use utility_engine_old.Rotative.Contents.{contents}
use utility_engine_old.Rotative.Invariant.{IsValid}
use utility_engine_old.Session.{Reason, Session, is_connected, close, connect_peer_close}

-- Nothing is to be sent; or the next bytes are offered, and there is one operation for them or, after
-- an error, none; or the session was closed while its last operation was under way. In each case the
-- bytes sent are the first of those accepted.
pub record Steady (l : Line) (accepted : List ℕ) : Type 0 where
  pub mode :
      ((l.sends ≡ 0) × Empty l.session × (accepted ≡ l.sent))
      ⊎ ((l.sends ≤ 1) × AtFront l.session × (accepted ≡ l.sent ++ contents l.session.send_buffer))
      ⊎ ((l.sends ≡ 0)
          × (is_connected l.session ≡ false)
          × ((rest : List ℕ) × (accepted ≡ l.sent ++ rest)))

close-kept :
    (why : Reason) (s : Session)
    → ((close why s).send_buffer ≡ s.send_buffer)
      × ((close why s).send_buf ≡ s.send_buf)
      × ((close why s).send_len ≡ s.send_len)
unfolding close
close-kept why s = (ground arith, ground arith, ground arith)

-- The line t offers what l offers.
pub record Kept (l t : Line) : Type 0 where
  pub buffer_eq : t.session.send_buffer ≡ l.session.send_buffer
  pub buf_eq : t.session.send_buf ≡ l.session.send_buf
  pub len_eq : t.session.send_len ≡ l.session.send_len
  pub sent_eq : t.sent ≡ l.sent

pub ended : {l t : Line} {k : ℕ} → Kept l t → Kept l (record t { sends = k })
ended k = record {
  buffer_eq = k.buffer_eq;
  buf_eq = k.buf_eq;
  len_eq = k.len_eq;
  sent_eq = k.sent_eq;
}

pub closed-Kept : (why : Reason) (l : Line) → Kept l (record l { session = close why l.session })
closed-Kept why l =
    let k = close-kept why l.session in
    record { buffer_eq = k.0; buf_eq = k.1; len_eq = k.2; sent_eq = refl }

pub same : (l : Line) (k : ℕ) → Kept l (record l { sends = k })
same l k = record { buffer_eq = refl; buf_eq = refl; len_eq = refl; sent_eq = refl }

pub post_send_event-Kept :
    (answer : Posted) (phase : Phase) (l : Line)
    → Kept l (post_send_event answer phase l).1
      × ((post_send_event answer phase l).1.sends ≤ l.sends + 1)
unfolding post_send_event
post_send_event-Kept answer phase_none l = (same l l.sends, omega arith)
post_send_event-Kept answer starting l = (same l l.sends, omega arith)
post_send_event-Kept answer stopping l = (same l l.sends, omega arith)
post_send_event-Kept under_way running l = (same l (l.sends + 1), omega arith)
post_send_event-Kept peer_gone running l = (closed-Kept connect_peer_close l, omega arith)
post_send_event-Kept not_socket running l = (same l l.sends, omega arith)
post_send_event-Kept post_refused running l = (same l l.sends, omega arith)

-- What is offered and has at most one operation.
pub busy :
    (l t : Line) (accepted : List ℕ)
    → Kept l t
    → t.sends ≤ 1
    → AtFront l.session
    → accepted ≡ l.sent ++ contents l.session.send_buffer
    → Steady t accepted
busy l t accepted k few a e = record {
  mode = inr (
      inl (
        few,
        AtFront-same a k.buffer_eq k.buf_eq k.len_eq,
        e ∙ ap₂ (λ xs r. xs ++ contents r) (sym k.sent_eq) (sym k.buffer_eq),
      ));
}

-- A change that neither posts an operation nor connects the session.
pub Steady-Kept :
    (l t : Line) (accepted : List ℕ)
    → Kept l t
    → t.sends ≡ l.sends
    → (is_connected l.session ≡ false → is_connected t.session ≡ false)
    → Steady l accepted
    → Steady t accepted
Steady-Kept l t accepted k n down s = elim s.mode [
  | inl (z, empty, e) ↦ record {
    mode = inl (
      n ∙ z,
      record {
        valid = subst IsValid (sym k.buffer_eq) empty.valid;
        idle = ap (λ r. r.last_read) k.buffer_eq ∙ empty.idle;
        nothing = ap contents k.buffer_eq ∙ empty.nothing;
      },
      e ∙ sym k.sent_eq,
    );
  }
  | inr (inl (few, a, e)) ↦ busy l t accepted k (omega (arith, n, few)) a e
  | inr (inr (z, off, (rest, e))) ↦ record {
    mode = inr (inr (n ∙ z, down off, (rest, e ∙ ap (λ xs. xs ++ rest) (sym k.sent_eq))));
  }
]

pub close-down : (why : Reason) (s : Session) → is_connected (close why s) ≡ false
unfolding close
close-down why s = ground arith
