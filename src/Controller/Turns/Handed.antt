-- ===== src/Controller/Turns/Handed.antt =====
-- The end of a handler, the next message, and bytes that arrive.
use utility_engine_old.Base.{ℕ, zero, suc, ◌≤◌, ◌<◌, ◌≡◌, refl, sym, ap, ap₂, ◌∙◌, inl, inr}
use utility_engine_old.Base.{Bool, true, false, some, List, [], ◌∷◌, ◌++◌, arith}
use utility_engine_old.Base.{◌==◌, length, length-append, length-take, take, drop}
use utility_engine_old.Base.{take-append-drop, take-take}
use mathlib.Core.Path.{subst}
use mathlib.Core.List.{append_assoc}
use utility_engine_old.Rotative.{max_packet_len, Rotative, write, commit_write}
use utility_engine_old.Rotative.{reset, set_read_limit}
use utility_engine_old.Rotative.Invariant.{IsValid, fill}
use utility_engine_old.Rotative.Contents.{contents, length-contents}
use utility_engine_old.Rotative.Write.{commit_write-append, write-writable_size, contents-write}
use utility_engine_old.Rotative.Read.{commit_read-drop}
use utility_engine_old.Rotative.Message.{write-marks, commit_write-marks}
use utility_engine_old.Rotative.Message.{marked-IsValid, set_read_limit-marks, reset-marks}
use utility_engine_old.Parser.{uint32}
use utility_engine_old.Parser.Zero.{concat}
use utility_engine_old.Controller.{Controller, arrive, post_request}
use utility_engine_old.Controller.Orderly.{Halted, AllFramed}
use utility_engine_old.Controller.Orderly.{stream}
use utility_engine_old.Controller.Confirm.{post_request-Open}
use utility_engine_old.Controller.Arrive.{arrive-Orderly, grown-Sized}
use utility_engine_old.Controller.Run.{AllFramed-snoc, concat-snoc}
use utility_engine_old.Controller.Turns.{Worker, handles, has_left}
use utility_engine_old.Controller.Turns.{finish, go_on}
use utility_engine_old.Controller.Turns.Manned.{Manned, Left, shift_of}

pub finish-Manned :
    (m i : ℕ) (handled : Bool) (c : Controller) (ws : List Worker)
    → Manned m (shift_of c ws)
    → Left m (finish i handled (shift_of c ws)) (stream c)
unfolding finish
finish-Manned m i handled c [] o = (shift_of c [], refl, o, refl)
finish-Manned m zero false c (handles k ∷ []) o =
    let y = o.team.2 in
    let halted : Halted (record c { errors = c.errors ++ k ∷ [] }) = record {
      none_queued = o.team.1;
      busy = omega (arith, y.busy, y.sized.at_least);
    } in
    (
      shift_of (record c { errors = c.errors ++ k ∷ [] }) [],
      refl,
      record { valid = o.valid; framed = o.framed; team = inr (inr halted) },
      refl,
    )
finish-Manned m zero true c (handles k ∷ []) o =
    let y = o.team.2 in
    let n = c.m_size in
    let (b, e, v, dropped, last) =
      commit_read-drop n o.valid y.busy (omega (arith, y.all_there, length-contents c.recv)) in
    let p = take n (contents c.recv) in
    let framed : uint32 (take 4 p) ≡ length p =
      ap uint32 (take-take 4 n (contents c.recv) y.sized.at_least)
      ∙ y.sized.read_off
      ∙ sym (length-take n (contents c.recv) y.all_there) in
    (
      shift_of (record c { recv = b; taken = c.taken ++ p ∷ [] }) (has_left k ∷ []),
      rw (finish, e) refl,
      record {
        valid = v;
        framed = AllFramed-snoc c.taken p o.framed framed;
        team = (o.team.0, o.team.1, omega (arith, last, y.busy, y.sized.at_least));
      },
      ap (λ x. concat (c.taken ++ p ∷ []) ++ x) dropped
          ∙ ap (λ l. l ++ drop n (contents c.recv)) (concat-snoc c.taken p)
          ∙ append_assoc (concat c.taken) p (drop n (contents c.recv))
          ∙ ap (λ l. concat c.taken ++ l) (take-append-drop n (contents c.recv)),
    )
finish-Manned m (suc i) handled c (handles k ∷ []) o = (shift_of c (handles k ∷ []), refl, o, refl)
finish-Manned m zero handled c (has_left k ∷ []) o = (shift_of c (has_left k ∷ []), refl, o, refl)
finish-Manned m (suc i) handled c (has_left k ∷ []) o =
    (shift_of c (has_left k ∷ []), refl, o, refl)
finish-Manned m i handled c (w ∷ v ∷ ws) o = absurd (ground (arith, o.team))

-- The controller that the rest of `commit` leaves.
abbrev committed : Controller → Controller
committed c = record c { recv = set_read_limit 0 (reset c.recv); m_size = 0 }

pub go_on-Manned :
    (m i : ℕ) (c : Controller) (ws : List Worker)
    → Manned m (shift_of c ws)
    → Left m (go_on m i (shift_of c ws)) (stream c)
unfolding go_on
go_on-Manned m i c [] o = (shift_of c [], refl, o, refl)
go_on-Manned m zero c (handles k ∷ []) o = (shift_of c (handles k ∷ []), refl, o, refl)
go_on-Manned m (suc i) c (handles k ∷ []) o = (shift_of c (handles k ∷ []), refl, o, refl)
go_on-Manned m zero c (has_left k ∷ []) o =
    let back = reset-marks o.valid in
    let marks = set_read_limit-marks 0 (reset c.recv) in
    let (t, f, same, mode) = post_request-Open m (committed c) (record {
      valid = marked-IsValid 0 (reset c.recv).pos back.2;
      none_queued = o.team.1;
      no_limit = marks.0;
      size_seen = inl (record { no_size = refl; at_start = marks.2 ∙ back.0 });
    }) in
    let posted : post_request m k (committed c) ≡ some t =
      ap (λ j. post_request m j (committed c)) o.team.0 ∙ f in
    (
      shift_of t [],
      rw (go_on, posted) refl,
      record {
        valid = same.valid;
        framed = subst AllFramed (sym same.taken_eq) o.framed;
        team = mode;
      },
      ap₂ (λ l x. concat l ++ x) same.taken_eq (same.bytes_eq ∙ marks.3 ∙ back.1),
    )
go_on-Manned m (suc i) c (has_left k ∷ []) o = (shift_of c (has_left k ∷ []), refl, o, refl)
go_on-Manned m i c (w ∷ v ∷ ws) o = absurd (ground (arith, o.team))

-- Bytes that arrive while the flag is not set: nothing is posted.
arrive-busy :
    (m : ℕ) (bytes : List ℕ) (c : Controller)
    → IsValid c.recv
    → length bytes ≤ c.recv.last_malloc
    → 0 < c.recv.last_read
    → (r : Rotative) × (arrive m bytes c ≡ some (record c { recv = r }))
      × IsValid r
      × (contents r ≡ contents c.recv ++ bytes)
      × (r.limit ≡ c.recv.limit)
      × (r.last_read ≡ c.recv.last_read)
unfolding arrive
arrive-busy m bytes c v fits busy =
    let (b, e, w, grown, pos_eq) = commit_write-append bytes v fits in
    let marks = commit_write-marks (length bytes) bytes (c.recv.last_read == 0) c.recv b e in
    let flag : (c.recv.last_read == 0) ≡ false = ground (arith, busy) in
    let told : commit_write (length bytes) (fill bytes c.recv) ≡ some (false, b) =
      e ∙ ap (λ x. some (x, b)) flag in
    let room = write-marks max_packet_len b in
    (
      (write max_packet_len b).2,
      rw (arrive, told) refl,
      (write-writable_size max_packet_len w).4,
      contents-write max_packet_len b ∙ grown,
      room.0 ∙ marks.0,
      room.2 ∙ marks.2,
    )

-- The controller with the bytes, beside the workers.
abbrev Came : ℕ → List ℕ → Controller → List Worker → Type 0
Came m bytes c ws =
    (d : Controller) × (arrive m bytes c ≡ some d)
    × Manned m (shift_of d ws)
    × (stream d ≡ stream c ++ bytes)

pub arrive-Manned :
    (m : ℕ) (bytes : List ℕ) (c : Controller) (ws : List Worker)
    → length bytes ≤ c.recv.last_malloc
    → Manned m (shift_of c ws)
    → Came m bytes c ws
arrive-Manned m bytes c [] fits o =
    let (d, e, p, grown) =
      arrive-Orderly m bytes c (record { valid = o.valid; framed = o.framed; mode = o.team })
        fits in
    (d, e, record { valid = p.valid; framed = p.framed; team = p.mode }, grown)
arrive-Manned m bytes c (handles k ∷ []) fits o =
    let y = o.team.2 in
    let (r, e, v, grown, limit_eq, read_eq) =
      arrive-busy m bytes c o.valid fits (omega (arith, y.busy, y.sized.at_least)) in
    (
      record c { recv = r },
      e,
      record {
        valid = v;
        framed = o.framed;
        team = (
          o.team.0,
          o.team.1,
          record {
            one_queued = refl;
            busy = omega (arith, read_eq, y.busy);
            limited = limit_eq ∙ y.limited;
            sized = grown-Sized m bytes y.sized refl grown;
            all_there =
                omega (arith, ap length grown, length-append (contents c.recv) bytes, y.all_there);
          },
        );
      },
      ap (λ x. concat c.taken ++ x) grown
          ∙ sym (append_assoc (concat c.taken) (contents c.recv) bytes),
    )
arrive-Manned m bytes c (has_left k ∷ []) fits o =
    let (r, e, v, grown, limit_eq, read_eq) = arrive-busy m bytes c o.valid fits o.team.2 in
    (
      record c { recv = r },
      e,
      record {
        valid = v;
        framed = o.framed;
        team = (o.team.0, o.team.1, omega (arith, read_eq, o.team.2));
      },
      ap (λ x. concat c.taken ++ x) grown
          ∙ sym (append_assoc (concat c.taken) (contents c.recv) bytes),
    )
arrive-Manned m bytes c (w ∷ v ∷ ws) fits o = absurd (ground (arith, o.team))
