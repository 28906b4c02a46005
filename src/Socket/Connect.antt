-- ===== src/Socket/Connect.antt =====
-- How `connect` ends.
use mathlib.Core.Path.{subst}
use utility_engine_old.Base.{ℕ, ◌+◌, ◌≡◌, refl, sym, ap, ◌∙◌, inl, inr, Bool, true, false, not}
use utility_engine_old.Base.{Option, none, some, List, [], ◌∷◌, arith, ltb, if◌then◌else◌}
use utility_engine_old.Base.{Bool-cases}
use utility_engine_old.Socket.{Socket, close, create_socket, set_blocking, Connected, Selected}
use utility_engine_old.Socket.{give_up, select_loop, finish_connect, Answers, connect, at_once}
use utility_engine_old.Socket.{timed_out, going_on, refused, select_interrupted, select_failed}
use utility_engine_old.Socket.{select_timeout, select_ready}
use utility_engine_old.Epoll.{Outcome, ok, throws}

abbrev pub held : Socket → ℕ
held s = elim s.fd [ none ↦ 0 | some f ↦ 1 ]

-- Every descriptor that the system gave out was given back, but the one held.
abbrev pub Balanced : Socket → Type 0
Balanced s = s.opened ≡ s.closed + held s

-- How a call that began without a descriptor ends: with one only if it says that it is connected.
abbrev pub Ended : Outcome Bool → Socket → Type 0
Ended throws t = Balanced t × (t.fd ≡ none)
Ended (ok false) t = Balanced t × (t.fd ≡ none)
Ended (ok true) t = Balanced t × ((f : ℕ) × (t.fd ≡ some f))

-- At least one answer of `select` is not an interruption.
abbrev pub Answered : List Selected → Type 0
Answered [] = ⊥
Answered (select_interrupted ∷ answers) = Answered answers
Answered (select_failed ∷ answers) = Unit {0}
Answered (select_timeout ∷ answers) = Unit {0}
Answered (select_ready good ∷ answers) = Unit {0}

close-at :
    (s : Socket) (f : Option ℕ) → s.fd ≡ f → Balanced s → Balanced (close s) × ((close s).fd ≡ none)
unfolding close
close-at s none e b = (simp (close, e) b, simp (close, e))
close-at s (some f) e b =
    let t = record s { fd = none; closed = s.closed + 1 } in
    let there : held s ≡ 1 = ap (λ x. elim x [ none ↦ 0 | some g ↦ 1 ]) e in
    let gone : close s ≡ t = simp (close, e) in
    subst (λ x. Balanced x × (x.fd ≡ none)) (sym gone) (omega (arith, b, there), refl)

pub close-Balanced : (s : Socket) → Balanced s → Balanced (close s) × ((close s).fd ≡ none)
close-Balanced s b = close-at s s.fd refl b

close-port : (s : Socket) → (close s).port ≡ s.port
unfolding close
close-port s = ground arith

-- A descriptor whose mode is set: the mode apart, nothing changes.
set_blocking-moded :
    (done mode : Bool) (s : Socket) (f : ℕ)
    → s.fd ≡ some f
    → set_blocking done mode s ≡ (done, if done then record s { blocking = mode } else s)
unfolding set_blocking
set_blocking-moded true mode s f e = simp (set_blocking, e)
set_blocking-moded false mode s f e = simp (set_blocking, e)

throws-ok : {b : Bool} → throws ≡ ok b → ⊥
throws-ok e = cc

false-true : ok false ≡ ok true → ⊥
false-true e = cc

-- What is known of the end of a part of `connect` on the socket s.
abbrev pub Finished : Socket → Option (Outcome Bool × Socket) → Bool → Type 0
Finished s result mode =
    (o : Outcome Bool) × (t : Socket) × (result ≡ some (o, t))
    × Ended o t
    × (t.port ≡ s.port)
    × (o ≡ ok true → t.blocking ≡ mode)

given_up : (s : Socket) (mode : Bool) → Balanced s → Finished s (some (give_up s)) mode
given_up s mode b =
    (throws, close s, refl, close-Balanced s b, close-port s, λ e. absurd (throws-ok e))

closed_false : (s : Socket) (mode : Bool) → Balanced s → Finished s (some (ok false, close s)) mode
closed_false s mode b =
    (ok false, close s, refl, close-Balanced s b, close-port s, λ e. absurd (false-true e))

select_loop-Finished :
    (answers : List Selected) (back : Bool) (s : Socket) (f : ℕ)
    → Answered answers
    → s.fd ≡ some f
    → Balanced s
    → Finished s (select_loop answers back s) true
unfolding select_loop
select_loop-Finished [] back s f a e b = absurd a
select_loop-Finished (select_interrupted ∷ answers) back s f a e b =
    select_loop-Finished answers back s f a e b
select_loop-Finished (select_failed ∷ answers) back s f a e b = given_up s true b
select_loop-Finished (select_timeout ∷ answers) back s f a e b = closed_false s true b
select_loop-Finished (select_ready false ∷ answers) back s f a e b = given_up s true b
select_loop-Finished (select_ready true ∷ answers) false s f a e b =
    let m = set_blocking-moded false true s f e in
    subst (λ x. Finished s (if x.0 then some (ok true, x.1) else some (give_up s)) true) (sym m)
      (given_up s true b)
select_loop-Finished (select_ready true ∷ answers) true s f a e b =
    let m = set_blocking-moded true true s f e in
    subst (λ x. Finished s (if x.0 then some (ok true, x.1) else some (give_up s)) true) (sym m)
      (ok true, record s { blocking = true }, refl, (b, (f, e)), refl, λ o. refl)

-- Whether the descriptor blocks when `connect` says that it is connected.
abbrev pub mode_after : Connected → ℕ → Bool
mode_after at_once timeout_msecs = not (ltb 0 timeout_msecs)
mode_after timed_out timeout_msecs = true
mode_after going_on timeout_msecs = true
mode_after refused timeout_msecs = true

finish_connect-Finished :
    (answer : Connected) (selects : List Selected) (back : Bool) (timeout_msecs : ℕ) (s : Socket)
    (f : ℕ)
    → Answered selects
    → s.fd ≡ some f
    → Balanced s
    → s.blocking ≡ not (ltb 0 timeout_msecs)
    → Finished s
        (finish_connect answer selects back timeout_msecs s)
        (mode_after answer timeout_msecs)
unfolding finish_connect
finish_connect-Finished at_once selects back timeout_msecs s f a e b mode =
    (ok true, s, refl, (b, (f, e)), refl, λ o. mode)
finish_connect-Finished timed_out selects back timeout_msecs s f a e b mode = closed_false s true b
finish_connect-Finished refused selects back timeout_msecs s f a e b mode = given_up s true b
finish_connect-Finished going_on selects back timeout_msecs s f a e b mode =
    elim (Bool-cases (ltb 0 timeout_msecs)) [
      | inl t ↦
          subst (λ x. Finished s (if x then select_loop selects back s else some (ok true, s)) true)
            (sym t) (select_loop-Finished selects back s f a e b)
      | inr u ↦
          subst (λ x. Finished s (if x then select_loop selects back s else some (ok true, s)) true)
            (sym u) (ok true, s, refl, (b, (f, e)), refl, λ o. mode ∙ ap not u)
    ]

-- `connect` on a socket without a descriptor, each answer by itself.
connect-fields :
    (created : Option ℕ) (resolved mode_set : Bool) (answer : Connected) (selects : List Selected)
    (back : Bool) (host : List ℕ) (port timeout_msecs : ℕ) (host_before : List ℕ) (port_before : ℕ)
    (six blocking : Bool) (opened closed : ℕ)
    → Answered selects
    → opened ≡ closed + 0
    → let s : Socket = record {
      fd = none;
      host = host_before;
      port = port_before;
      six = six;
      blocking = blocking;
      opened = opened;
      closed = closed;
    } in
      let a : Answers = record {
        created = created;
        resolved = resolved;
        mode_set = mode_set;
        connected = answer;
        selected = selects;
        mode_back = back;
      } in
      Finished s (connect a host port timeout_msecs s) (mode_after answer timeout_msecs)
unfolding connect create_socket close set_blocking
connect-fields none resolved mode_set answer selects back host port timeout_msecs hb pb six bl o c a
      b =
    (throws, _, refl, (b, refl), refl, λ e. absurd (throws-ok e))
connect-fields (some f) false mode_set answer selects back host port timeout_msecs hb pb six bl o c
      a b =
    (throws, _, refl, (omega (arith, b), refl), refl, λ e. absurd (throws-ok e))
connect-fields (some f) true false answer selects back host port timeout_msecs hb pb six bl o c a
      b =
    (throws, _, refl, (omega (arith, b), refl), refl, λ e. absurd (throws-ok e))
connect-fields (some f) true true answer selects back host port timeout_msecs hb pb six bl o c a b =
    finish_connect-Finished answer selects back timeout_msecs _ f a refl (omega (arith, b)) refl

-- `connect` on a socket without a descriptor, all descriptors given back, where `select` is not
-- interrupted for ever: it ends, the port that the socket keeps is not changed, and either it is
-- connected, with a descriptor, or it answers false or throws, with none; every descriptor that the
-- system gave out and the socket does not hold is given back. When it is connected the
-- descriptor blocks, but for a connection made at once under a time limit, which leaves
-- it non-blocking.
pub connect-Finished :
    (a : Answers) (host : List ℕ) (port timeout_msecs : ℕ) (s : Socket)
    → Answered a.selected
    → s.fd ≡ none
    → Balanced s
    → Finished s (connect a host port timeout_msecs s) (mode_after a.connected timeout_msecs)
connect-Finished a host port timeout_msecs s answered e b =
    let balanced : s.opened ≡ s.closed + 0 =
      b ∙ ap (λ f. s.closed + elim f [ none ↦ 0 | some g ↦ 1 ]) e in
    subst
      (λ x. Finished x (connect a host port timeout_msecs x) (mode_after a.connected timeout_msecs))
      (ap (λ f. record s { fd = f }) (sym e))
      (connect-fields a.created a.resolved a.mode_set a.connected a.selected a.mode_back host port
        timeout_msecs s.host s.port s.six s.blocking s.opened s.closed answered balanced)
