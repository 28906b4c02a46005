-- ===== src/Iocp/Accepting.antt =====
-- The accepting of the I/O service on completion ports (UtilityEngine/src/net_io_service_iocp.cpp):
-- descriptors are made in advance and wait in operations of AcceptEx.
pub mod Placed
pub mod Kept
mod Tests
use utility_engine_old.Base.{ℕ, zero, suc, ◌+◌, ◌-◌, ◌*◌, ◌/◌, ◌%◌, ◌^◌, ◌≤◌, ◌<◌, min, max}
use utility_engine_old.Base.{bit_and, bit_or, bit_xor, ◌≡◌, refl, sym, ap, ap₂, ◌∙◌, ◌≢◌, ◌↔◌, ◌⊎◌}
use utility_engine_old.Base.{inl, inr, Bool, true, false, not, ◌&&◌, ◌||◌, Option, none, some, List}
use utility_engine_old.Base.{[], ◌∷◌, ◌++◌, map, arith, ltb, leb, ◌==◌, if◌then◌else◌, Bool-cases}
use utility_engine_old.Base.{ltb→lt, ltb→ge, lt→ltb, le→ltb, ==→eq, eq→==, check, sub_ulong}
use utility_engine_old.Base.{ulong_mod, length, get_elem?, get_or, set, take, drop, tabulate}
use utility_engine_old.Base.{replicate, length-append, length-set, length-tabulate, length-take}
use utility_engine_old.Base.{length-drop, take-append-drop, take-append, drop-append, drop-drop}
use utility_engine_old.Base.{take-append_le, drop-append_le, take-append_ge, drop-append_ge}
use utility_engine_old.Base.{drop-length, take-length, get_or-set_self, get_or-set_ne}
use utility_engine_old.Responder.{Responder, process_accept, close_fd, close_session}
use utility_engine_old.Responder

-- A server, and the descriptors whose AcceptEx is under way.
pub record Listener : Type 0 where
  pub server : Responder
  pub pending : List ℕ

-- What AcceptEx answers: done at once; under way; another error.
pub data Posting : Type 0 where
  posted_done posting_waits posting_refused : Posting

-- What the tracking of a new session meets: it is watched; its peer is gone when the first receive is
-- posted; the port or the receive is refused.
pub data Tracking : Type 0 where
  tracked peer_left tracking_refused : Tracking

-- `close_fd` of a descriptor that waits
abbrev pub closing : ℕ → Listener → Listener
closing fd s = record s { server = record s.server { calls = s.server.calls ++ close_fd fd ∷ [] } }

-- `post_accept_event` with the descriptor that `create_fd` makes; the Boolean is whether it throws.
unfoldable pub post_accept_event : ℕ → Posting → Listener → Bool × Listener
post_accept_event fd answer s =
    let waits = record s { pending = s.pending ++ fd ∷ [] } in
    let closed = closing fd s in
    elim answer [
      | posted_done ↦ (false, waits)
      | posting_waits ↦ if not s.server.running then (false, closed) else (false, waits)
      | posting_refused ↦ if not s.server.running then (false, closed) else (true, s)
    ]

-- `track_session` of a session p, as far as the server is concerned.
abbrev pub track_session : Bool → Tracking → ℕ → Responder → Bool × Responder
track_session false how p r = (false, r)
track_session true tracked p r = (false, r)
track_session true peer_left p r = (false, record r { calls = r.calls ++ close_session p ∷ [] })
track_session true tracking_refused p r = (true, r)

module _ (m : ℕ) (up : Bool) where
  -- What is done with the connection on a descriptor.
  unfoldable pub take_connection : Tracking → ℕ → Responder → Bool × Responder
  unfolding process_accept
  take_connection how fd r =
      let t = (process_accept m fd r).1 in
      elim (process_accept m fd r).0 [ none ↦ (false, t) | some p ↦ track_session up how p t ]

  -- `process_event` for an AcceptEx on fd that ended, which is under way no more; next is the
  -- descriptor made for the one that follows.
  unfoldable pub on_accept : Tracking → ℕ → ℕ → Posting → Listener → Bool × Listener
  unfolding take_connection post_accept_event
  on_accept how fd next answer s =
      let t = record s { server = (take_connection how fd s.server).1 } in
      let posted = post_accept_event next answer t in
      if (take_connection how fd s.server).0 then (true, t) else posted

-- `process_event` for an AcceptEx on fd that failed by a time limit or by its peer.
unfoldable pub on_accept_failure : ℕ → ℕ → Posting → Listener → Bool × Listener
unfolding post_accept_event
on_accept_failure fd next answer s = post_accept_event next answer (closing fd s)

-- What happens at the place i of the operations under way; or `stop` of the server.
pub data Event : Type 0 where
  connection : ℕ → Tracking → ℕ → Posting → Event
  failure : ℕ → ℕ → Posting → Event
  stops : Event

abbrev pub without : ℕ → List ℕ → List ℕ
without i [] = []
without zero (fd ∷ fds) = fds
without (suc i) (fd ∷ fds) = fd ∷ without i fds

module _ (m : ℕ) (up : Bool) where
  -- Whether it throws, the descriptors that were made, and the server; an event for an operation that
  -- is not under way does not happen. `stop` closes the descriptors of all the operations.
  unfoldable pub step : Event → Listener → Bool × List ℕ × Listener
  unfolding on_accept on_accept_failure
  step (connection i how next answer) s = elim (get_elem? s.pending i) [
    | none ↦ (false, [], s)
    | some fd ↦
        let x = on_accept m up how fd next answer (record s { pending = without i s.pending }) in
        (x.0, (if (take_connection m up how fd s.server).0 then [] else next ∷ []), x.1)
  ]
  step (failure i next answer) s = elim (get_elem? s.pending i) [
    | none ↦ (false, [], s)
    | some fd ↦
        let x = on_accept_failure fd next answer (record s { pending = without i s.pending }) in
        (x.0, next ∷ [], x.1)
  ]
  step stops s =
      let t = record s { server = (Responder.stop m s.pending s.server).1 } in
      (false, [], record t { pending = if s.server.running then [] else s.pending })

  -- A throw ends the run.
  unfoldable pub run : List Event → Listener → Bool × List ℕ × Listener
  unfolding step
  run [] s = (false, [], s)
  run (e ∷ es) s =
      let later = run es (step e s).2 in
      if (step e s).0 then step e s else (later.0, (step e s).1 ++ later.1, later.2)
