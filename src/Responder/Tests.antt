-- ===== src/Responder/Tests.antt =====
-- A server with two of its three session slots in use, and its theorems there.
use utility_engine_old.Base.{ℕ, ◌+◌, ◌^◌, ◌≡◌, refl, true, false, not, none, some, [], ◌∷◌, ◌++◌}
use utility_engine_old.Base.{map, arith, ◌==◌, if◌then◌else◌, length}
use utility_engine_old.Responder.Stopping.{close_each, close_each-promised, stop-closes}
use utility_engine_old.Responder.{Responder, get_session, process_accept, stop, untrack_server}
use utility_engine_old.Responder.{close_socket, close_fd, close_session}
use utility_engine_old.Factory.{Factory}
use utility_engine_old.Factory.Invariant.{IsPool, IsValid}
use utility_engine_old.Factory.Chain.{used_count}
use utility_engine_old.Factory.Search.{slots_in_use}
use utility_engine_old.Factory

abbrev byte_mod : ℕ
byte_mod = 2 ^ 8

-- Slot 1 is free; slots 0 and 2 are in use.
abbrev two_used : Factory
two_used = record {
  base = 100;
  offset = λ i. if i == 0 then 254 else if i == 1 then 3 else if i == 2 then 254 else 0;
  next = 1;
  left = 1;
  size = 3;
}

two_used-IsPool : IsPool byte_mod two_used (1 ∷ []) 3
unfolding used_count
two_used-IsPool = record {
  fits = omega arith;
  placed = omega arith;
  within = omega arith;
  touched = λ i lt. ground arith;
  fresh = λ i lo lt. absurd (omega (arith, lo, lt));
  chain = (refl, omega arith, omega arith, refl);
  distinct = (tt, tt);
  left_eq = refl;
  counted = refl;
}

two_used-IsValid : IsValid byte_mod two_used
two_used-IsValid = (1 ∷ [], 3, two_used-IsPool)

abbrev serving : Responder
serving = record {
  running = true;
  sessions = two_used;
  accepts = two_used;
  promised = 0;
  calls = [];
}

abbrev stopping : Responder
stopping = record serving { running = false }

-- A new connection takes the free slot; the server that stops closes the others.
process_accept-serving : (process_accept byte_mod 9 serving).0 ≡ some 101
unfolding process_accept get_session Factory.malloc
process_accept-serving = refl

stop-serving :
    (stop byte_mod [] serving).1.calls
    ≡ untrack_server ∷ close_socket ∷ close_session 100 ∷ close_session 102 ∷ []
unfolding stop Factory.visit Factory.used_begin Factory.advance
stop-serving = refl

stop-closes_example :
    (t : Responder) × (stop byte_mod (9 ∷ []) serving
      ≡ (not (length (slots_in_use byte_mod two_used 3 0) == 0), t))
    × (t.calls
        ≡ []
          ++ untrack_server ∷ close_socket ∷ map close_fd (9 ∷ [])
          ++ map (λ n. close_session (100 + n)) (slots_in_use byte_mod two_used 3 0))
    × (t.sessions ≡ two_used)
    × (t.running ≡ false)
    × ((get_session byte_mod t).0 ≡ none)
stop-closes_example = stop-closes byte_mod (9 ∷ []) serving two_used-IsValid (omega arith) refl

close_each-promised_example :
    (t : Responder) × (close_each byte_mod (2 ∷ 0 ∷ []) stopping ≡ some t)
    × (t.sessions.left ≡ t.sessions.size)
    × (t.promised ≡ 1)
close_each-promised_example =
    close_each-promised byte_mod (2 ∷ 0 ∷ []) stopping two_used-IsValid refl
      (omega arith, refl, (omega arith, refl, tt)) ((omega arith, tt), (tt, tt)) refl
