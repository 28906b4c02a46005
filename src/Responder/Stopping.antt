-- ===== src/Responder/Stopping.antt =====
-- How `stop` comes to an end: the promise, and the sessions that close one after the other.
use utility_engine_old.Base.{ℕ, ◌+◌, ◌<◌, ◌≡◌, refl, ◌∙◌, ◌≢◌, Bool, true, false, not, ◌&&◌, Option}
use utility_engine_old.Base.{none, some, List, [], ◌∷◌, ◌++◌, map, arith, leb, ◌==◌, if◌then◌else◌}
use utility_engine_old.Base.{length}
use utility_engine_old.Responder.{Call, Responder, get_session, on_close_session, stop}
use utility_engine_old.Responder.{untrack_server, close_socket, close_fd, close_session}
use utility_engine_old.Factory.{Factory}
use utility_engine_old.Factory.Chain.{Distinct, Lacks}
use utility_engine_old.Factory.Invariant.{IsValid}
use utility_engine_old.Factory.Free.{free-used, free-place}
use utility_engine_old.Factory.Search.{slots_in_use, visit-used_begin}
use utility_engine_old.Factory

waits_lem :
    (f : ℕ → Call) (ns : List ℕ)
    → elim (map f ns) [ [] ↦ false | c ∷ cs ↦ true ] ≡ not (length ns == 0)
waits_lem f [] = refl
waits_lem f (n ∷ ns) = ground arith

module _ (m : ℕ) where
  -- The slots are in use.
  abbrev pub AllUsed : Factory → List ℕ → Type 0
  AllUsed f [] = Unit {0}
  AllUsed f (n ∷ ns) = (n < f.size) × (f.offset n ≡ Factory.used_mark m) × AllUsed f ns

  -- The sessions of the slots close, one after the other.
  unfoldable pub close_each : List ℕ → Responder → Option Responder
  close_each [] r = some r
  close_each (n ∷ ns) r = elim (on_close_session m (r.sessions.base + n) r) [
    | none ↦ none
    | some t ↦ close_each ns t
  ]

  AllUsed-other :
      (f g : Factory) (n : ℕ) (ns : List ℕ)
      → g.size ≡ f.size
      → ((i : ℕ) → i ≢ n → g.offset i ≡ f.offset i)
      → Lacks n ns
      → AllUsed f ns
      → AllUsed g ns
  AllUsed-other f g n [] e same l u = tt
  AllUsed-other f g n (k ∷ ks) e same l u =
      (omega (arith, u.0, e), same k l.0 ∙ u.1, AllUsed-other f g n ks e same l.1 u.2)

  -- One session closes: its slot is free again, and the promise is set if it was the last.
  on_close_session-used :
      (n : ℕ) (r : Responder)
      → IsValid m r.sessions
      → r.running ≡ false
      → n < r.sessions.size
      → r.sessions.offset n ≡ Factory.used_mark m
      → (t : Responder) × (on_close_session m (r.sessions.base + n) r ≡ some t)
        × IsValid m t.sessions
        × (t.running ≡ false)
        × (t.sessions.size ≡ r.sessions.size)
        × (t.sessions.left ≡ r.sessions.left + 1)
        × ((i : ℕ) → i ≢ n → t.sessions.offset i ≡ r.sessions.offset i)
        × (t.promised
            ≡ (if leb r.sessions.size (r.sessions.left + 1) then r.promised + 1 else r.promised))
  unfolding on_close_session
  on_close_session-used n r v down lt u =
      let (f, e, nu, same, left, w) = free-used m r.sessions n v lt u in
      let place = free-place m (r.sessions.base + n) true r.sessions f e in
      let last : Bool = not r.running && leb f.size f.left in
      (
        record r { sessions = f; promised = if last then r.promised + 1 else r.promised },
        rw (on_close_session, e) refl,
        w,
        down,
        place.1,
        left,
        same,
        ground (arith, down, place.1, left),
      )

  -- With the server stopped, the sessions in use may close in any order: every one is taken back,
  -- and the promise that `stop` waits for is set exactly once, by the last of them.
  pub close_each-promised :
      (ns : List ℕ) (r : Responder)
      → IsValid m r.sessions
      → r.running ≡ false
      → AllUsed r.sessions ns
      → Distinct ns
      → r.sessions.left + length ns ≡ r.sessions.size
      → (t : Responder) × (close_each ns r ≡ some t)
        × (t.sessions.left ≡ t.sessions.size)
        × (t.promised ≡ (if length ns == 0 then r.promised else r.promised + 1))
  unfolding close_each
  close_each-promised [] r v down u d all = (r, refl, omega (arith, all), refl)
  close_each-promised (n ∷ ns) r v down u d all =
      let (t, e, w, down', size, left, same, p) = on_close_session-used n r v down u.0 u.1 in
      let (s, f, l, q) =
        close_each-promised ns t w down'
          (AllUsed-other r.sessions t.sessions n ns size same d.0 u.2) d.1
          (omega (arith, all, size, left)) in
      (s, rw (close_each, e) f, l, ground (arith, p, q, all))

  -- `stop` of a running server asks every session in use to close, each once, in the order of the
  -- slots, behind the closing of the server and of the accepted descriptors; it waits exactly if there
  -- is such a session, and no session is given out afterwards.
  pub stop-closes :
      (accepted : List ℕ) (r : Responder)
      → IsValid m r.sessions
      → 0 < r.sessions.size
      → r.running ≡ true
      → (t : Responder) × (stop m accepted r
          ≡ (not (length (slots_in_use m r.sessions r.sessions.size 0) == 0), t))
        × (t.calls
            ≡ r.calls
              ++ untrack_server ∷ close_socket ∷ map close_fd accepted
              ++ map
                  (λ n. close_session (r.sessions.base + n))
                  (slots_in_use m r.sessions r.sessions.size 0))
        × (t.sessions ≡ r.sessions)
        × (t.running ≡ false)
        × ((get_session m t).0 ≡ none)
  unfolding stop get_session
  stop-closes accepted r v sized up =
      let ns = slots_in_use m r.sessions r.sessions.size 0 in
      let e = visit-used_begin m r.sessions v sized in
      let t = record r {
        running = false;
        accepts = Factory.clear r.accepts;
        calls =
            r.calls
            ++ untrack_server ∷ close_socket ∷ map close_fd accepted
            ++ map (λ n. close_session (r.sessions.base + n)) ns;
      } in
      (
        t,
        rw (stop, up, e, waits_lem (λ n. close_session (r.sessions.base + n)) ns) refl,
        refl,
        refl,
        refl,
        refl,
      )
