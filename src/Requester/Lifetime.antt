-- ===== src/Requester/Lifetime.antt =====
-- The life of a client over any sequence of calls.
use utility_engine_old.Requester.{net_free, on_stop, on_start, net_init, track_session, State}
use utility_engine_old.Requester.{Answer, Call, Requester, connection, connect, start, stop}
use utility_engine_old.Requester.{on_close_session, Event, run, state_none, state_starting}
use utility_engine_old.Requester.{state_connecting, state_connected, state_timeout, state_stopping}
use utility_engine_old.Requester.{connects, times_out, fails, breaks, close_session, starts, stops}
use utility_engine_old.Requester.{session_closes}
use utility_engine_old.Base.{ℕ, zero, suc, ◌+◌, ◌≤◌}
use utility_engine_old.Base.{◌≡◌, refl, ap, ◌∙◌, ◌⊎◌}
use utility_engine_old.Base.{inl, inr, List}
use utility_engine_old.Base.{[], ◌∷◌, ◌++◌, arith}
use utility_engine_old.Base.{take}

-- How often a call was made: 1 for each time it stands in the list.
abbrev is_call : Call → Call → ℕ
is_call net_init net_init = 1
is_call net_free net_free = 1
is_call track_session track_session = 1
is_call close_session close_session = 1
is_call c d = 0

abbrev pub times : Call → List Call → ℕ
times c [] = 0
times c (d ∷ ds) = is_call c d + times c ds

times-append : (c : Call) (xs ys : List Call) → times c (xs ++ ys) ≡ times c xs + times c ys
times-append c [] ys = omega arith
times-append c (x ∷ xs) ys = omega (arith, times-append c xs ys)

times-append_twice :
    (c : Call) (xs ys zs : List Call)
    → times c ((xs ++ ys) ++ zs) ≡ times c xs + times c ys + times c zs
times-append_twice c xs ys zs = omega (arith, times-append c (xs ++ ys) zs, times-append c xs ys)

-- The calls of `start`, and those of a connection.
abbrev begun : List Call
begun = net_init ∷ on_start ∷ []

abbrev connected : List Call
connected = connection

-- The session that a connection that threw may have left tracked.
abbrev pub stuck : State → ℕ
stuck state_connecting = 1
stuck state_connected = 0
stuck state_none = 0
stuck state_starting = 0
stuck state_timeout = 0
stuck state_stopping = 0

-- At most one session of a part of the calls is tracked, and none is closed.
part-tracked :
    (n : ℕ)
    → (times track_session (take n connection) ≤ 1) × (times close_session (take n connection) ≡ 0)
part-tracked zero = (omega arith, refl)
part-tracked (suc zero) = (omega arith, refl)
part-tracked (suc (suc zero)) = (omega arith, refl)
part-tracked (suc (suc (suc zero))) = (omega arith, refl)
part-tracked (suc (suc (suc (suc zero)))) = (omega arith, refl)
part-tracked (suc (suc (suc (suc (suc n))))) = (omega arith, refl)

-- The tracked session that there is.
abbrev pub up : State → ℕ
up state_connected = 1
up state_none = 0
up state_starting = 0
up state_connecting = 0
up state_timeout = 0
up state_stopping = 0

-- The states between two calls: down, connected, or stuck in a connection that threw.
abbrev pub Between : State → Type 0
Between t = (t ≡ state_none) ⊎ (t ≡ state_connected) ⊎ (t ≡ state_connecting)

-- Between two calls; and every session that is tracked is closed by `stop`, but that of the
-- connection there is, and one that a connection that threw may have left.
pub record Settled (r : Requester) : Type 0 where
  pub between : Between r.state
  pub left_open : ℕ
  pub open_eq : times track_session r.calls ≡ times close_session r.calls + up r.state + left_open
  pub left_few : left_open ≤ stuck r.state

start-at :
    (answer : Answer) (t : State) (cs : List Call) (n : ℕ)
    → Between t
    → (l : ℕ) → times track_session cs ≡ times close_session cs + up t + l
    → l ≤ stuck t
    → Settled (start answer (record { state = t; calls = cs; promised = n })).1
unfolding start connect
start-at connects state_none cs n b l e few = record {
  left_open = 0;
  left_few = omega arith;
  between = inr (inl refl);
  open_eq = omega (
    arith,
    e,
    few,
    times-append_twice track_session cs begun connected,
    times-append_twice close_session cs begun connected,
  );
}
start-at times_out state_none cs n b l e few = record {
  left_open = 0;
  left_few = omega arith;
  between = inl refl;
  open_eq =
      omega
        (arith, e, few, times-append track_session cs begun, times-append close_session cs begun);
}
start-at fails state_none cs n b l e few = record {
  left_open = 0;
  left_few = omega arith;
  between = inr (inr refl);
  open_eq =
      omega
        (arith, e, few, times-append track_session cs begun, times-append close_session cs begun);
}
start-at (breaks k) state_none cs n b l e few = record {
  between = inr (inr refl);
  left_open = times track_session (take k connection);
  left_few = (part-tracked k).0;
  open_eq = omega (
    arith,
    e,
    few,
    times-append_twice track_session cs begun (take k connection),
    times-append_twice close_session cs begun (take k connection),
    (part-tracked k).1,
  );
}
start-at answer state_connected cs n b l e few = record {
  between = b;
  left_open = l;
  open_eq = e;
  left_few = few;
}
start-at answer state_connecting cs n b l e few = record {
  between = b;
  left_open = l;
  open_eq = e;
  left_few = few;
}
start-at answer state_starting cs n b l e few = record {
  between = b;
  left_open = l;
  open_eq = e;
  left_few = few;
}
start-at answer state_timeout cs n b l e few = record {
  between = b;
  left_open = l;
  open_eq = e;
  left_few = few;
}
start-at answer state_stopping cs n b l e few = record {
  between = b;
  left_open = l;
  open_eq = e;
  left_few = few;
}

stop-at :
    (t : State) (cs : List Call) (n : ℕ)
    → Between t
    → (l : ℕ) → times track_session cs ≡ times close_session cs + up t + l
    → l ≤ stuck t
    → Settled (stop (record { state = t; calls = cs; promised = n }))
unfolding stop
stop-at state_connected cs n b l e few = record {
  left_open = 0;
  left_few = omega arith;
  between = inl refl;
  open_eq = omega (
    arith,
    e,
    few,
    times-append track_session cs (close_session ∷ on_stop ∷ net_free ∷ []),
    times-append close_session cs (close_session ∷ on_stop ∷ net_free ∷ []),
  );
}
stop-at state_none cs n b l e few = record {
  between = b;
  left_open = l;
  open_eq = e;
  left_few = few;
}
stop-at state_connecting cs n b l e few = record {
  between = b;
  left_open = l;
  open_eq = e;
  left_few = few;
}
stop-at state_starting cs n b l e few = record {
  between = b;
  left_open = l;
  open_eq = e;
  left_few = few;
}
stop-at state_timeout cs n b l e few = record {
  between = b;
  left_open = l;
  open_eq = e;
  left_few = few;
}
stop-at state_stopping cs n b l e few = record {
  between = b;
  left_open = l;
  open_eq = e;
  left_few = few;
}

-- Whatever is called in which order, the client is afterwards down, connected, or stuck in a
-- connection that threw, and as many sessions are tracked as closed by `stop`, but for the one of the
-- connection there is, and for at most one that the connection that threw had tracked already,
-- which nothing closes.
pub run-Settled : (es : List Event) (r : Requester) → Settled r → Settled (run es r)
unfolding run on_close_session
run-Settled [] r s = s
run-Settled (starts answer ∷ es) r s =
    run-Settled es (start answer r).1
      (start-at answer r.state r.calls r.promised s.between s.left_open s.open_eq s.left_few)
run-Settled (stops ∷ es) r s =
    run-Settled es (stop r)
      (stop-at r.state r.calls r.promised s.between s.left_open s.open_eq s.left_few)
run-Settled (session_closes ∷ es) r s = run-Settled es (on_close_session r) (record {
  between = s.between;
  left_open = s.left_open;
  open_eq = s.open_eq;
  left_few = s.left_few;
})

-- After a connection that threw, no call brings the client up or down again, and none is passed on.
pub run-connecting :
    (es : List Event) (r : Requester)
    → r.state ≡ state_connecting
    → ((run es r).state ≡ state_connecting) × ((run es r).calls ≡ r.calls)
unfolding run start stop on_close_session
run-connecting [] r stuck = (stuck, refl)
run-connecting (starts answer ∷ es) r stuck =
    let same : (start answer r).1 ≡ r = simp (start, stuck) in
    let (a, b) = run-connecting es (start answer r).1 (ap (λ x. x.state) same ∙ stuck) in
    (a, b ∙ ap (λ x. x.calls) same)
run-connecting (stops ∷ es) r stuck =
    let same : stop r ≡ r = simp (stop, stuck) in
    let (a, b) = run-connecting es (stop r) (ap (λ x. x.state) same ∙ stuck) in
    (a, b ∙ ap (λ x. x.calls) same)
run-connecting (session_closes ∷ es) r stuck = run-connecting es (on_close_session r) stuck
