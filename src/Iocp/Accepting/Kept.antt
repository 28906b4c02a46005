-- ===== src/Iocp/Accepting/Kept.antt =====
-- The descriptors made for connections to come, over any sequence of events.
use utility_engine_old.Base.{ℕ, zero, suc, ◌+◌, ◌≤◌, ◌≡◌, refl, sym, ap, ◌∙◌, inl, inr, Bool, true}
use utility_engine_old.Base.{false, Option, none, some, List, [], ◌∷◌, ◌++◌, map, arith}
use utility_engine_old.Base.{if◌then◌else◌, Bool-cases, length, get_elem?}
use utility_engine_old.Iocp.Accepting.Placed.{placed, Account, UnderWay, post_accept_event-Posted}
use utility_engine_old.Iocp.Accepting.Placed.{Taken, take_connection-Taken}
use utility_engine_old.Iocp.Accepting.{Listener, Posting, Tracking, post_accept_event}
use utility_engine_old.Iocp.Accepting.{take_connection, on_accept, on_accept_failure, Event}
use utility_engine_old.Iocp.Accepting.{without, step, run, connection, failure, stops}
use utility_engine_old.Responder.{get_session, Responder, Call, process_accept, close_fd}
use utility_engine_old.Responder.{close_session, untrack_server, close_socket}
use mathlib.Core.Path.{subst}
use utility_engine_old.Epoll.Accepting.Kept.{occurs-append}
use utility_engine_old.Epoll.Accepting.Ledger.{tally, closes, given, settled, occurs, hit}
use utility_engine_old.Epoll.Accepting.Ledger.{tally-append}
use utility_engine_old.Factory.{Factory}
use utility_engine_old.Responder

-- What is known of a step with the descriptors made, begun in s with n operations.
abbrev Stepped : ℕ → Listener → Bool × List ℕ × Listener → Type 0
Stepped n s (threw, made, t) =
    Account threw made s t
    × UnderWay threw n s t
    × (s.server.running ≡ false → t.server.running ≡ false)

-- After a descriptor has been placed, the next one is made.
posted-after :
    (fd before : ℕ) (answer : Posting) (s t : Listener)
    → ((d : ℕ) → placed d t ≡ placed d s + hit d before)
    → length t.pending ≡ length s.pending
    → t.server.running ≡ s.server.running
    → (lost : List ℕ) × ((d : ℕ)
        → placed d s + hit d before + hit d fd
          ≡ placed d (post_accept_event fd answer t).1 + occurs d lost)
      × (length lost ≤ (if (post_accept_event fd answer t).0 then 1 else 0))
      × UnderWay (post_accept_event fd answer t).0 1 s (post_accept_event fd answer t).1
      × ((post_accept_event fd answer t).1.server.running ≡ s.server.running)
posted-after fd before answer s t more long runs =
    let ((lost, account, few), under_way, same) = post_accept_event-Posted fd answer t in
    (
      lost,
      λ d. omega (arith, account d, more d),
      few,
      elim under_way [
        | inl e ↦ inl e
        | inr (inl e) ↦ inr (inl e)
        | inr (inr e) ↦ inr (inr (omega (arith, e, long)))
      ],
      same ∙ runs,
    )

length-without :
    (i fd : ℕ) (fds : List ℕ) → get_elem? fds i ≡ some fd → length (without i fds) + 1 ≡ length fds
length-without zero fd [] e = absurd (cc)
length-without (suc i) fd [] e = absurd (cc)
length-without zero fd (x ∷ fds) e = omega arith
length-without (suc i) fd (x ∷ fds) e = omega (arith, length-without i fd fds e)

occurs-without :
    (d i fd : ℕ) (fds : List ℕ)
    → get_elem? fds i ≡ some fd
    → occurs d (without i fds) + hit d fd ≡ occurs d fds
occurs-without d zero fd [] e = absurd (cc)
occurs-without d (suc i) fd [] e = absurd (cc)
occurs-without d zero fd (x ∷ fds) e =
    let same : x ≡ fd = ap (λ o. elim o [ none ↦ x | some y ↦ y ]) e in
    omega (arith, ap (hit d) same)
occurs-without d (suc i) fd (x ∷ fds) e = omega (arith, occurs-without d i fd fds e)

connection-Stepped :
    (b : Bool) (fd : ℕ) (next : ℕ) (answer : Posting) (s : Listener) (rest : List ℕ) (r : Responder)
    → length rest + 1 ≡ length s.pending
    → ((d : ℕ) → occurs d rest + hit d fd ≡ occurs d s.pending)
    → Taken fd s.server r
    → let t : Listener = record { pending = rest; server = r } in
      let x = if b then (true, t) else post_accept_event next answer t in
      Stepped 0 s (x.0, (if b then [] else next ∷ []), x.1)
connection-Stepped true fd next answer s rest r less out (more, runs) =
    (([], λ d. omega (arith, out d, more d), omega arith), inl refl, λ down. runs ∙ down)
connection-Stepped false fd next answer s rest r less out (more, runs) =
    let before : Listener = record s { pending = rest } in
    let (lost, account, few, under_way, same) =
      posted-after next fd answer before (record { pending = rest; server = r })
        (λ d. omega (arith, more d)) refl runs in
    (
      (lost, λ d. omega (arith, account d, out d), few),
      elim under_way [
        | inl e ↦ inl e
        | inr (inl e) ↦ inr (inl e)
        | inr (inr e) ↦ inr (inr (omega (arith, e, less)))
      ],
      λ down. same ∙ down,
    )

failure-Stepped :
    (fd next : ℕ) (answer : Posting) (s : Listener) (rest : List ℕ)
    → length rest + 1 ≡ length s.pending
    → ((d : ℕ) → occurs d rest + hit d fd ≡ occurs d s.pending)
    → let x = on_accept_failure fd next answer (record s { pending = rest }) in
      Stepped 0 s (x.0, next ∷ [], x.1)
unfolding on_accept_failure
failure-Stepped fd next answer s rest less out =
    let more = close_fd fd ∷ [] in
    let r : Responder = record s.server { calls = s.server.calls ++ more } in
    connection-Stepped false fd next answer s rest r less out (
      λ d. omega (
        arith,
        tally-append (closes d) s.server.calls more,
        tally-append (given d) s.server.calls more,
      ),
      refl,
    )

nothing-Stepped : (s : Listener) → Stepped 0 s (false, [], s)
nothing-Stepped s = (([], λ d. refl, omega arith), inr (inr (omega arith)), λ down. down)

tally-map_each : (d : ℕ) (ns : List ℕ) → tally (closes d) (map close_fd ns) ≡ occurs d ns
tally-map_each d [] = refl
tally-map_each d (n ∷ ns) = omega (arith, tally-map_each d ns)

tally-map_none :
    (kind : Call → ℕ) (call : ℕ → Call) (ns : List ℕ)
    → ((n : ℕ) → kind (call n) ≡ 0)
    → tally kind (map call ns) ≡ 0
tally-map_none kind call [] each = refl
tally-map_none kind call (n ∷ ns) each = omega (arith, each n, tally-map_none kind call ns each)

tally-asked :
    (kind : Call → ℕ)
    → ((n : ℕ) → kind (close_session n) ≡ 0)
    → (m : ℕ) (f : Factory) → tally kind (Responder.close_all m f) ≡ 0
tally-asked kind each m f =
    tally-map_none kind (λ n. close_session (f.base + n)) _ (λ n. each (f.base + n))

-- The calls of `stop` close each of the descriptors that wait.
stop-tally :
    (m : ℕ) (waiting : List ℕ) (r : Responder)
    → r.running ≡ true
    → let t = (Responder.stop m waiting r).1 in
      ((d : ℕ) → settled d t ≡ settled d r + occurs d waiting) × (t.running ≡ false)
unfolding Responder.stop
stop-tally m waiting r up =
    let asked = Responder.close_all m r.sessions in
    let told = untrack_server ∷ close_socket ∷ map close_fd waiting in
    let made : (Responder.stop m waiting r).1.calls ≡ (r.calls ++ told) ++ asked =
      simp (Responder.stop, up) in
    let all = λ (kind : Call → ℕ).
      (ap (tally kind) made
        ∙ tally-append kind (r.calls ++ told) asked
        ∙ ap (λ n. n + tally kind asked) (tally-append kind r.calls told)) in
    let same : (d : ℕ) → settled d (Responder.stop m waiting r).1 ≡ settled d r + occurs d waiting =
      λ d. omega (
        arith,
        all (closes d),
        all (given d),
        tally-map_each d waiting,
        tally-map_none (given d) close_fd waiting (λ n. refl),
        tally-asked (closes d) (λ n. refl) m r.sessions,
        tally-asked (given d) (λ n. refl) m r.sessions,
      ) in
    (same, simp (Responder.stop, up))

stops-Stepped :
    (m : ℕ) (s : Listener)
    → Stepped 0 s (
      false,
      [],
      record {
        pending = if s.server.running then [] else s.pending;
        server = (Responder.stop m s.pending s.server).1;
      },
    )
unfolding Responder.stop
stops-Stepped m s = elim (Bool-cases s.server.running) [
  | inl up ↦
      let (same, down) = stop-tally m s.pending s.server up in
      subst
        (λ b. Stepped 0 s (
          false,
          [],
          record {
            pending = if b then [] else s.pending;
            server = (Responder.stop m s.pending s.server).1;
          },
        ))
        (sym up) (([], λ d. omega (arith, same d), omega arith), inr (inl down), λ _. down)
  | inr off ↦
      let same : (Responder.stop m s.pending s.server).1 ≡ s.server = simp (Responder.stop, off) in
      subst
        (λ x.
          Stepped 0 s (
            false,
            [],
            record { pending = if s.server.running then [] else s.pending; server = x },
          ))
        (sym same)
        (subst
          (λ b.
            Stepped 0 s
              (false, [], record { pending = if b then [] else s.pending; server = s.server }))
          (sym off) (nothing-Stepped s))
]

connection_at-Stepped :
    (m : ℕ) (up : Bool) (i : ℕ) (how : Tracking) (next : ℕ) (answer : Posting) (s : Listener)
    (o : Option ℕ)
    → get_elem? s.pending i ≡ o
    → Stepped 0 s (elim o as (λ x. Bool × List ℕ × Listener) [
      | none ↦ (false, [], s)
      | some fd ↦
          let x = on_accept m up how fd next answer (record s { pending = without i s.pending }) in
          (x.0, (if (take_connection m up how fd s.server).0 then [] else next ∷ []), x.1)
    ])
unfolding on_accept
connection_at-Stepped m up i how next answer s none e = nothing-Stepped s
connection_at-Stepped m up i how next answer s (some fd) e =
    connection-Stepped (take_connection m up how fd s.server).0 fd next answer s
      (without i s.pending) (take_connection m up how fd s.server).1
      (length-without i fd s.pending e) (λ d. occurs-without d i fd s.pending e)
      (take_connection-Taken m up how fd s.server)

failure_at-Stepped :
    (i next : ℕ) (answer : Posting) (s : Listener) (o : Option ℕ)
    → get_elem? s.pending i ≡ o
    → Stepped 0 s (elim o as (λ x. Bool × List ℕ × Listener) [
      | none ↦ (false, [], s)
      | some fd ↦
          let x = on_accept_failure fd next answer (record s { pending = without i s.pending }) in
          (x.0, next ∷ [], x.1)
    ])
failure_at-Stepped i next answer s none e = nothing-Stepped s
failure_at-Stepped i next answer s (some fd) e =
    failure-Stepped fd next answer s (without i s.pending) (length-without i fd s.pending e)
      (λ d. occurs-without d i fd s.pending e)

step-Stepped : (m : ℕ) (up : Bool) (e : Event) (s : Listener) → Stepped 0 s (step m up e s)
unfolding step
step-Stepped m up stops s = stops-Stepped m s
step-Stepped m up (connection i how next answer) s =
    connection_at-Stepped m up i how next answer s (get_elem? s.pending i) refl
step-Stepped m up (failure i next answer) s =
    failure_at-Stepped i next answer s (get_elem? s.pending i) refl

none_lost : (d : ℕ) (lost : List ℕ) → length lost ≤ 0 → occurs d lost ≡ 0
none_lost d [] few = refl
none_lost d (x ∷ lost) few = absurd (omega (arith, few))

step_then-Stepped :
    (s : Listener) (x y : Bool × List ℕ × Listener)
    → Stepped 0 s x
    → Stepped 0 x.2 y
    → Stepped 0 s (if x.0 then x else (y.0, x.1 ++ y.1, y.2))
step_then-Stepped s (true, made, t) y first second = first
step_then-Stepped s (false, made, t) (threw, more, u) ((lost, account, few), way, runs)
      ((lost', account', few'), way', runs') =
    (
      (
        lost',
        λ d. omega (arith, account d, account' d, occurs-append d made more, none_lost d lost few),
        few',
      ),
      elim way [
        | inl e ↦ absurd (cc)
        | inr (inl e) ↦ inr (inl (runs' e))
        | inr (inr e) ↦ elim way' [
          | inl e' ↦ inl e'
          | inr (inl e') ↦ inr (inl e')
          | inr (inr e') ↦ inr (inr (omega (arith, e, e')))
        ]
      ],
      λ down. runs' (runs down),
    )

run-Stepped : (m : ℕ) (up : Bool) (es : List Event) (s : Listener) → Stepped 0 s (run m up es s)
unfolding run
run-Stepped m up [] s = nothing-Stepped s
run-Stepped m up (e ∷ es) s =
    step_then-Stepped s (step m up e s) (run m up es (step m up e s).2) (step-Stepped m up e s)
      (run-Stepped m up es (step m up e s).2)

-- Over any sequence of connections, failures and a `stop` of the server, whatever the system answers:
-- the descriptors that wait in an AcceptEx, were closed or were given to a session are exactly those
-- that were there at first and those made since, each as often, but for at most one, of a call that
-- threw; and unless something threw or the server was stopped, as many
-- operations are under way as at first.
pub run-Account :
    (m : ℕ) (up : Bool) (es : List Event) (s : Listener)
    → Account (run m up es s).0 (run m up es s).1 s (run m up es s).2
      × UnderWay (run m up es s).0 0 s (run m up es s).2
run-Account m up es s = let (account, way, runs) = run-Stepped m up es s in (account, way)
