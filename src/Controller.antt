-- ===== src/Controller.antt =====
-- The controller (UtilityEngine/include/msg_controler.hpp) over the messages that begin with their
-- length and the circular buffer: the tasks it dispatches, and what a worker does with them, together
-- with the receiving side of the session that calls it (UtilityEngine/include/net_session.inl).
-- Here a turn of a worker is one event, though the source takes the buffer's lock anew for each of its
-- calls; Controller.Turns cuts it.
pub mod Orderly
pub mod Confirm
pub mod Arrive
pub mod Run
pub mod Closing
pub mod Turns
mod Tests
use utility_engine_old.Base.{ℕ, zero, suc, ◌+◌, ◌-◌, ◌*◌, ◌/◌, ◌%◌, ◌^◌, ◌≤◌, ◌<◌, min, max}
use utility_engine_old.Base.{bit_and, bit_or, bit_xor, ◌≡◌, refl, sym, ap, ap₂, ◌∙◌, ◌≢◌, ◌↔◌, ◌⊎◌}
use utility_engine_old.Base.{inl, inr, Bool, true, false, not, ◌&&◌, ◌||◌, Option, none, some, List}
use utility_engine_old.Base.{[], ◌∷◌, ◌++◌, map, arith, ltb, leb, ◌==◌, if◌then◌else◌, Bool-cases}
use utility_engine_old.Base.{ltb→lt, ltb→ge, lt→ltb, le→ltb, ==→eq, eq→==, check, sub_ulong}
use utility_engine_old.Base.{ulong_mod, length, get_elem?, get_or, set, take, drop, tabulate}
use utility_engine_old.Base.{replicate, length-append, length-set, length-tabulate, length-take}
use utility_engine_old.Base.{length-drop, take-append-drop, take-append, drop-append, drop-drop}
use utility_engine_old.Base.{take-append_le, drop-append_le, take-append_ge, drop-append_ge}
use utility_engine_old.Base.{drop-length, take-length, get_or-set_self, get_or-set_ne, peek}
use utility_engine_old.Rotative.Invariant.{filled, IsValid, fill, clear-IsValid, used-eq-filled}
use utility_engine_old.Rotative.Invariant.{readable_size-IsValid, write-IsValid, fill-IsValid}
use utility_engine_old.Rotative.Invariant.{init-IsValid, moved-IsValid}
use utility_engine_old.Rotative.Contents.{at, contents, length-contents}
use utility_engine_old.Parser.{Verdict, strlen, uint32, header, whole, zero_comfirm, len_comfirm}
use utility_engine_old.Parser.{shift, forward, scan, delimiter_comfirm, accept, wait, reject}
use utility_engine_old.Rotative.{max_packet_len, Rotative, created, clear, init, used}
use utility_engine_old.Rotative.{readable_size, clip, read, commit_read, writable_size, write}
use utility_engine_old.Rotative.{commit_write, reset, set_read_limit, next}

-- A task in the dispatcher: with the session's message and the key it was posted with, or with no
-- message, which closes the object.
pub data Task : Type 0 where
  request : ℕ → Task
  closing : Task

pub record Controller : Type 0 where
  -- the message, with the buffer it is, and `m_size`
  pub recv : Rotative
  pub m_size : ℕ
  -- `compkey` of the object
  pub key : ℕ
  -- the tasks dispatched and not taken by a worker
  pub queue : List Task
  -- the messages that handlers took, and the calls `handle_error` and `do_close`
  pub taken : List (List ℕ)
  pub errors : List ℕ
  pub closed : ℕ

-- `message_wrap::comfirm`, from its second half on.
abbrev pub confirm_whole : Controller → Verdict × Controller
confirm_whole c =
    let (n, r) = readable_size c.m_size c.recv in
    if n == 0
    then (wait, record c { recv = r })
    else (accept c.m_size, record c { recv = set_read_limit c.m_size r })

-- What `get_handle` and the handler read of the message: the sizes they ask `next` for.
abbrev pub looks : List ℕ → Rotative → Rotative
looks [] r = r
looks (n ∷ ns) r = looks ns (next n r).2

-- `_message_impl::commit`
abbrev pub commit : Controller → Option Controller
commit c = elim (commit_read c.m_size c.recv) [
  | none ↦ none
  | some r ↦ some (record c { recv = set_read_limit 0 (reset r); m_size = 0 })
]

-- The system gives at most the bytes asked for; a worker takes the next task.
pub data Event : Type 0 where
  receives : List ℕ → Event
  works : List ℕ → Bool → Event

-- `post_request` with no message, by which a session asks for its closing.
abbrev pub post_closing : Controller → Controller
post_closing c = record c { queue = c.queue ++ closing ∷ [] }

-- The end of `session_iface::close`: the key moves on, and the closing is dispatched.
unfoldable pub close_object : Controller → Controller
close_object c = post_closing (record c { key = (c.key + 1) % 2 ^ 32 })

module _ (max_msg_len : ℕ) where
  -- `pares_len::message_wrap::comfirm`. A header in two pieces is written outside of `m_size`: `none`.
  unfoldable pub comfirm : Controller → Option (Verdict × Controller)
  comfirm c =
      if not (c.m_size == 0)
      then some (confirm_whole c)
      else (let (n, r) = readable_size 4 c.recv in
          if n == 0
          then some (wait, record c { recv = r })
          else (let (p, granted, s) = next 4 r in
              elim p [
                | none ↦ none
                | some q ↦
                    let size = uint32 (peek s.buffer q 4) in
                    let t = record c { recv = s; m_size = size } in
                    if ltb granted 4
                    then none
                    else (if ltb size 4 || ltb max_msg_len size
                        then some (reject (ulong_mod - 1), t)
                        else some (confirm_whole t))
              ]))

  -- `post_request` with a message.
  unfoldable pub post_request : ℕ → Controller → Option Controller
  post_request compkey c = elim (comfirm c) [
    | none ↦ none
    | some (accept n, t) ↦ some (record t { queue = t.queue ++ request compkey ∷ [] })
    | some (wait, t) ↦ some t
    | some (reject n, t) ↦
        some (if n == 0 then t else record t { errors = t.errors ++ compkey ∷ [] })
  ]

  -- The bytes that the system put where `write` had pointed are committed, as `process_recv` of a
  -- connected session does, and the next room is asked for. That the session closes if there is none
  -- is part of Session.
  unfoldable pub arrive : List ℕ → Controller → Option Controller
  arrive bytes c = elim (commit_write (length bytes) (fill bytes c.recv)) [
    | none ↦ none
    | some (idle, r) ↦
        let t = record c { recv = r } in
        elim (if idle then post_request c.key t else some t) [
          | none ↦ none
          | some u ↦ some (record u { recv = (write max_packet_len u.recv).2 })
        ]
  ]

  -- `handle_wrap` of the first task of the queue, if there is one, undivided: `asks` is what is read of the
  -- message, and `handled` says whether there is a handler and it answers 0.
  unfoldable pub handle_wrap : List ℕ → Bool → Controller → Option Controller
  handle_wrap asks handled c = elim c.queue [
    | [] ↦ some c
    | closing ∷ q ↦ some (record c { queue = q; closed = c.closed + 1 })
    | request compkey ∷ q ↦
        let t = record c { queue = q } in
        if not (c.key == compkey)
        then some t
        else (let u = record t { recv = looks asks c.recv } in
            if not handled
            then some (record u { errors = u.errors ++ compkey ∷ [] })
            else elim (commit u) [
              | none ↦ none
              | some v ↦
                  post_request compkey
                    (record v { taken = v.taken ++ take c.m_size (contents c.recv) ∷ [] })
            ])
  ]

  -- The bytes that came in during the events, and the state behind them.
  unfoldable pub run : List Event → Controller → Option (List ℕ × Controller)
  run [] c = some ([], c)
  run (works asks handled ∷ es) c = elim (handle_wrap asks handled c) [
    | none ↦ none
    | some t ↦ run es t
  ]
  run (receives bytes ∷ es) c =
      let came = take c.recv.last_malloc bytes in
      elim (arrive came c) [
        | none ↦ none
        | some t ↦ elim (run es t) [ none ↦ none | some (more, u) ↦ some (came ++ more, u) ]
      ]
