-- ===== src/Iocp/Restart.antt =====
-- Starting and stopping the service on completion ports.
use utility_engine_old.Base.{ℕ, ◌+◌, ◌≡◌, refl, true, none, some, arith, ◌==◌, if◌then◌else◌}
use utility_engine_old.Iocp.{Port, start, close_port, stop}
use utility_engine_old.Epoll.{phase_none, running, ok}

-- The service is down, and can be started.
pub record Down (s : Port) : Type 0 where
  pub is_down : s.phase ≡ phase_none
  pub no_handle : s.handle ≡ none
  pub no_threads : s.threads ≡ 0

-- A service that was never started starts, `stop` brings it down, and it can be started again, any
-- number of times: `close` gives the handle up.
pub start-stop_again :
    (h processors nthread : ℕ) (s : Port)
    → Down s
    → (t u : Port) × (start (some h) processors nthread s ≡ (ok t, t))
      × (t.phase ≡ running)
      × (t.threads ≡ (if nthread == 0 then processors else nthread))
      × (stop true t ≡ (ok u, u))
      × Down u
unfolding start stop close_port
start-stop_again h processors nthread s d =
    let n = if nthread == 0 then processors else nthread in
    let t = record s { phase = running; handle = some h; threads = s.threads + n } in
    (
      t,
      record t { phase = phase_none; handle = none; threads = 0 },
      rw (start, d.is_down, d.no_handle) refl,
      refl,
      omega (arith, d.no_threads),
      refl,
      record { is_down = refl; no_handle = refl; no_threads = refl },
    )
