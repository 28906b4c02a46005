-- ===== src/Responder.antt =====
-- The server side, `responder` (UtilityEngine/include/net_responder.hpp,
-- UtilityEngine/include/net_responder.inl): the pool of its sessions, and how `stop` waits for them.
-- A session is the number of its element in the pool. What `bind`, `listen` and the callbacks
-- `on_start` and `on_stop` do stays outside.
pub mod Stopping
mod Tests
use utility_engine_old.Base.{ℕ, zero, suc, ◌+◌, ◌-◌, ◌*◌, ◌/◌, ◌%◌, ◌^◌, ◌≤◌, ◌<◌, min, max}
use utility_engine_old.Base.{bit_and, bit_or, bit_xor, ◌≡◌, refl, sym, ap, ap₂, ◌∙◌, ◌≢◌, ◌↔◌, ◌⊎◌}
use utility_engine_old.Base.{inl, inr, Bool, true, false, not, ◌&&◌, ◌||◌, Option, none, some, List}
use utility_engine_old.Base.{[], ◌∷◌, ◌++◌, map, arith, ltb, leb, ◌==◌, if◌then◌else◌, Bool-cases}
use utility_engine_old.Base.{ltb→lt, ltb→ge, lt→ltb, le→ltb, ==→eq, eq→==, check, sub_ulong}
use utility_engine_old.Base.{ulong_mod, length, get_elem?, get_or, set, take, drop, tabulate}
use utility_engine_old.Base.{replicate, length-append, length-set, length-tabulate, length-take}
use utility_engine_old.Base.{length-drop, take-append-drop, take-append, drop-append, drop-drop}
use utility_engine_old.Base.{take-append_le, drop-append_le, take-append_ge, drop-append_ge}
use utility_engine_old.Base.{drop-length, take-length, get_or-set_self, get_or-set_ne}
use utility_engine_old.Factory.{Factory}
use utility_engine_old.Factory

-- The calls of the I/O service, of the socket and of the sessions.
pub data Call : Type 0 where
  track_server untrack_server close_socket : Call
  close_fd close_session on_connect init_buffer : ℕ → Call
  -- the session and its descriptor
  set_connected : ℕ → ℕ → Call

pub record Responder : Type 0 where
  pub running : Bool
  -- `m_session_pool` and `m_accept_data`
  pub sessions : Factory
  pub accepts : Factory
  -- How often `m_can_stop.set_value` was called on the promise of this run; twice is an error.
  pub promised : ℕ
  pub calls : List Call

-- `start`; `none` is the throw of a server that runs already.
unfoldable pub start : Responder → Option Responder
start r =
    if r.running
    then none
    else some (record r { running = true; promised = 0; calls = r.calls ++ track_server ∷ [] })

module _ (m : ℕ) where
  -- `get_session`
  unfoldable pub get_session : Responder → Option ℕ × Responder
  get_session r = if not r.running then (none, r) else (
    (Factory.malloc m r.sessions).0,
    record r { sessions = (Factory.malloc m r.sessions).1 },
  )

  -- `process_accept` of the descriptor fd: the session, and what is done with the two.
  unfoldable pub process_accept : ℕ → Responder → Option ℕ × Responder
  unfolding get_session
  process_accept fd r =
      let (session, t) = get_session r in
      elim session [
        | none ↦ (none, record t { calls = t.calls ++ close_fd fd ∷ [] })
        | some p ↦ (
          some p,
          record t { calls = t.calls ++ set_connected p fd ∷ on_connect p ∷ init_buffer p ∷ [] },
        )
      ]

  -- `on_close_session`; `none` is a failed assertion of the pool.
  unfoldable pub on_close_session : ℕ → Responder → Option Responder
  on_close_session p r = elim (Factory.free m p r.sessions) [
    | none ↦ none
    | some (done, f) ↦
        let last = not r.running && leb f.size f.left in
        some (record r { sessions = f; promised = if last then r.promised + 1 else r.promised })
  ]

  -- The loop of `stop` over the sessions in use.
  abbrev pub close_all : Factory → List Call
  close_all f =
      map (λ n. close_session (f.base + n))
        (Factory.visit m (f.size + 1) f (Factory.used_begin m f))

  -- `stop`, up to the wait for the promise, and whether it waits. The accepted descriptors that
  -- are closed on the way are `accepted`.
  unfoldable pub stop : List ℕ → Responder → Bool × Responder
  stop accepted r =
      let closing = close_all r.sessions in
      if not r.running then (false, r) else (
        elim closing [ [] ↦ false | c ∷ cs ↦ true ],
        record r {
          running = false;
          accepts = Factory.clear r.accepts;
          calls = r.calls ++ untrack_server ∷ close_socket ∷ map close_fd accepted ++ closing;
        },
      )

  -- The end of `stop`, behind the wait.
  unfoldable pub stopped : Responder → Responder
  stopped r = record r { sessions = Factory.clear r.sessions }
