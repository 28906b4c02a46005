-- ===== src/Session/Closing.antt =====
-- A session is closed once, and does nothing after.
use utility_engine_old.Base.{ℕ, suc, ◌+◌, ◌%◌, ◌^◌, ◌≡◌, refl, Bool, true, false, Option, none}
use utility_engine_old.Base.{some, List, [], ◌∷◌, ◌++◌, arith}
use utility_engine_old.Session.{Reason, Call, Session, is_connected, close, handle_error}
use utility_engine_old.Session.{process_send, process_recv, send, untrack, close_socket, post_close}
use utility_engine_old.Session.{post_recv, post_send}

-- What the system, the parent and the user do with a session between two connections.
pub data Op : Type 0 where
  on_close : Reason → Op
  on_error on_sent on_received : ℕ → Op
  on_send : ℕ → List ℕ → Op

abbrev pub snd_of : Option (Bool × Session) → Option Session
snd_of none = none
snd_of (some (b, s)) = some s

unfoldable pub after : (Session → Session) → Op → Session → Option Session
unfolding close handle_error process_send process_recv send
after parent (on_close why) s = some (close why s)
after parent (on_error key) s = some (handle_error key s)
after parent (on_sent n) s = snd_of (process_send n s)
after parent (on_received n) s = snd_of (process_recv parent n s)
after parent (on_send fuel packet) s = snd_of (send fuel packet s)

unfoldable pub run : (Session → Session) → List Op → Session → Option Session
unfolding after
run parent [] s = some s
run parent (o ∷ ops) s = elim (after parent o s) [ none ↦ none | some t ↦ run parent ops t ]

abbrev pub closings : List Call → ℕ
closings [] = 0
closings (untrack ∷ cs) = closings cs
closings (close_socket ∷ cs) = closings cs
closings (post_close why ∷ cs) = suc (closings cs)
closings (post_recv key ∷ cs) = closings cs
closings (post_send p n ∷ cs) = closings cs

closings-append : (cs ds : List Call) → closings (cs ++ ds) ≡ closings cs + closings ds
closings-append [] ds = omega arith
closings-append (untrack ∷ cs) ds = closings-append cs ds
closings-append (close_socket ∷ cs) ds = closings-append cs ds
closings-append (post_close why ∷ cs) ds = omega (arith, closings-append cs ds)
closings-append (post_recv key ∷ cs) ds = closings-append cs ds
closings-append (post_send p n ∷ cs) ds = closings-append cs ds

after-frozen :
    (parent : Session → Session) (o : Op) (s : Session)
    → is_connected s ≡ false
    → after parent o s ≡ some s
unfolding after close handle_error process_send process_recv send
after-frozen parent (on_close why) s down = ground (arith, down)
after-frozen parent (on_error key) s down = ground (arith, down)
after-frozen parent (on_sent n) s down = ground (arith, down)
after-frozen parent (on_received n) s down = ground (arith, down)
after-frozen parent (on_send fuel packet) s down = ground (arith, down)

-- Once a session is not connected, nothing that is done with it changes it: it makes no further
-- call of the I/O service, the socket or the parent.
pub run-frozen :
    (parent : Session → Session) (ops : List Op) (s : Session)
    → is_connected s ≡ false
    → run parent ops s ≡ some s
unfolding run
run-frozen parent [] s down = refl
run-frozen parent (o ∷ ops) s down =
    rw (run, after-frozen parent o s down) (run-frozen parent ops s down)

close-down : (why : Reason) (s : Session) → is_connected (close why s) ≡ false
unfolding close
close-down why s = ground arith

close-told :
    (why : Reason) (s : Session)
    → is_connected s ≡ true
    → closings (close why s).calls ≡ suc (closings s.calls)
unfolding close
close-told why s up =
    ground (arith, up, closings-append s.calls (untrack ∷ close_socket ∷ post_close why ∷ []))

close-key :
    (why : Reason) (s : Session)
    → is_connected s ≡ true
    → (close why s).compkey ≡ (s.compkey + 1) % 2 ^ 32
unfolding close
close-key why s up = ground (arith, up)

-- Closing a connected session moves its key on, and tells the parent of it once: as long as the
-- session is not connected or cleared again, closing it, reporting errors, receiving and sending,
-- in any order, neither abort nor tell the parent a second time.
pub run-close :
    (parent : Session → Session) (why : Reason) (ops : List Op) (s : Session)
    → is_connected s ≡ true
    → (t : Session) × (run parent (on_close why ∷ ops) s ≡ some t)
      × (closings t.calls ≡ suc (closings s.calls))
      × (t.compkey ≡ (s.compkey + 1) % 2 ^ 32)
      × (is_connected t ≡ false)
unfolding run after
run-close parent why ops s up = (
  close why s,
  run-frozen parent ops (close why s) (close-down why s),
  close-told why s up,
  close-key why s up,
  close-down why s,
)
