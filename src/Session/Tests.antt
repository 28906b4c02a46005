-- ===== src/Session/Tests.antt =====
-- Runs of a session, and its theorems at a fresh one.

use utility_engine_old.Base.{◌≡◌, refl, true, false, some, List, [], ◌∷◌, arith}
use utility_engine_old.Rotative.{writable_size}
use utility_engine_old.Session.{Session, is_connected, send, link_none, service_stop, handle_failed}
use utility_engine_old.Session.Sample.{cleared-IsValid, opened}
use utility_engine_old.Rotative.Invariant.{IsValid}
use utility_engine_old.Rotative.Contents.{contents}
use utility_engine_old.Session.Closing.{Op, on_close, on_error, on_sent, on_received, on_send, run}
use utility_engine_old.Session.Closing.{run-close, closings}
use utility_engine_old.Session.Sending.{send-append}

abbrev closed : Session
closed = record opened { link = link_none }

abbrev work : List Op
work = on_received 8 ∷ on_send 3 (1 ∷ 2 ∷ []) ∷ on_error 5 ∷ on_sent 2 ∷ on_close service_stop ∷ []

run-close_example :
    (t : Session) × (run (λ s. s) (on_close handle_failed ∷ work) opened ≡ some t)
    × (closings t.calls ≡ 1)
    × (t.compkey ≡ 5)
    × (is_connected t ≡ false)
run-close_example = run-close (λ s. s) handle_failed work opened refl

send-append_example :
    (t : Session) × (send 2 (7 ∷ 9 ∷ []) opened ≡ some (true, t))
    × (is_connected t ≡ true)
    × IsValid t.send_buffer
    × (contents t.send_buffer ≡ 7 ∷ 9 ∷ [])
unfolding writable_size
send-append_example =
    send-append 2 (7 ∷ 9 ∷ []) opened cleared-IsValid refl (omega arith) (omega arith) (omega arith)
