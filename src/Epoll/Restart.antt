-- ===== src/Epoll/Restart.antt =====
-- Starting and stopping the epoll service.
use utility_engine_old.Base.{ℕ, ◌≡◌, refl, Bool, true, Option, none, some, arith, ltb, ◌==◌}
use utility_engine_old.Base.{if◌then◌else◌}
use utility_engine_old.Epoll.{Service, start, stop, phase_none, starting, running, ok, throws}

-- A service that was never started starts on the system's descriptor, and `stop` then brings it down.
pub stop-start :
    (e processors nthread : ℕ) (s : Service)
    → s.phase ≡ phase_none
    → s.epoll ≡ none
    → (t u : Service) × (start (some e) processors nthread s ≡ (ok t, t))
      × (t.phase ≡ running)
      × (t.threads ≡ (if nthread == 0 then processors else nthread))
      × (stop true t ≡ (ok u, u))
      × (u.phase ≡ phase_none)
unfolding start stop
stop-start e processors nthread s fresh unused =
    let n = if nthread == 0 then processors else nthread in
    let t = record s { phase = running; epoll = some e; threads = n; multi_threads = ltb 1 n } in
    (
      t,
      record t { phase = phase_none; threads = 0 },
      rw (start, fresh, unused) refl,
      refl,
      refl,
      refl,
      refl,
    )

-- A service that was stopped cannot be started again: `close` leaves the descriptor's number, so
-- `create_epoll` throws, whatever the system answers; the service then stays in the state
-- `starting`, where `start` does nothing and `stop` throws.
pub start-stop :
    (e processors nthread : ℕ) (answer : Option ℕ) (closed : Bool) (s : Service)
    → s.phase ≡ running
    → s.epoll ≡ some e
    → (t u : Service) × (stop true s ≡ (ok t, t))
      × (start answer processors nthread t ≡ (throws, u))
      × (start answer processors nthread u ≡ (ok u, u))
      × (stop closed u ≡ (throws, u))
unfolding start stop
start-stop e processors nthread answer closed s up opened =
    let t = record s { phase = phase_none; threads = 0 } in
    (t, record t { phase = starting }, rw (stop, up) refl, ground (arith, opened), refl, refl)
