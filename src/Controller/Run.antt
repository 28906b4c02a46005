-- ===== src/Controller/Run.antt =====
-- The workers' side of the controller, and whole turns of both sides in any order.
use utility_engine_old.Base.{take-take, length-take_le, ℕ, ◌≤◌, ◌<◌, ◌≡◌, refl, sym, ap, ap₂, ◌∙◌}
use utility_engine_old.Base.{inl, inr, Bool, true, false, some, List, [], ◌∷◌, ◌++◌, arith, ◌==◌}
use utility_engine_old.Base.{length, take, drop, length-take, take-append-drop}
use utility_engine_old.Controller.Arrive.{After, arrive-Orderly}
use utility_engine_old.Rotative.Message.{Keeps, next-Keeps, marked-IsValid, set_read_limit-marks}
use utility_engine_old.Rotative.Message.{reset-marks}
use utility_engine_old.Controller.Confirm.{post_request-Open}
use utility_engine_old.Controller.Orderly.{Ready, AllFramed, Orderly, stream}
use utility_engine_old.Parser.Zero.{concat}
use utility_engine_old.Parser.{uint32}
use utility_engine_old.Rotative.Read.{commit_read-drop}
use utility_engine_old.Rotative.Invariant.{IsValid}
use utility_engine_old.Rotative.Contents.{contents, length-contents}
use utility_engine_old.Rotative.{max_packet_len, Rotative, commit_read, reset, set_read_limit}
use utility_engine_old.Controller.{Controller, looks, Event, post_request, handle_wrap, run}
use utility_engine_old.Controller.{request, receives, works}
use mathlib.Core.Path.{subst}
use mathlib.Core.List.{append_assoc, append-nil}

-- What is read of a message leaves it ready for its commit.
looks-Keeps :
    (asks : List ℕ) {r : Rotative}
    → IsValid r
    → r.limit ≤ max_packet_len
    → r.limit ≤ length (contents r)
    → 0 < r.limit
    → r.limit ≤ r.last_read
    → Keeps r (looks asks r) × (r.limit ≤ (looks asks r).last_read)
looks-Keeps [] v small there h read_in =
    (record { valid = v; same = refl; limit_eq = refl }, read_in)
looks-Keeps (n ∷ ns) {r} v small there h read_in =
    let (k, ok) = next-Keeps n v small (omega (arith, there, length-contents r)) h read_in in
    let e = k.limit_eq in
    let (l, fine) =
      looks-Keeps ns k.valid (omega (arith, e, small)) (omega (arith, e, there, ap length k.same))
        (omega (arith, e, h)) (omega (arith, e, ok)) in
    (
      record { valid = l.valid; same = l.same ∙ k.same; limit_eq = l.limit_eq ∙ e },
      omega (arith, e, fine),
    )

pub concat-snoc : (ps : List (List ℕ)) (p : List ℕ) → concat (ps ++ p ∷ []) ≡ concat ps ++ p
concat-snoc [] p = append-nil p
concat-snoc (q ∷ qs) p = ap (λ l. q ++ l) (concat-snoc qs p) ∙ sym (append_assoc q (concat qs) p)

pub AllFramed-snoc :
    (ps : List (List ℕ)) (p : List ℕ)
    → AllFramed ps
    → uint32 (take 4 p) ≡ length p
    → AllFramed (ps ++ p ∷ [])
AllFramed-snoc [] p h e = (e, tt)
AllFramed-snoc (q ∷ qs) p h e = (h.0, AllFramed-snoc qs p h.1 e)

handle_wrap-commit :
    (m : ℕ) (asks : List ℕ) (c : Controller) (s : Rotative) (t : Controller)
    → c.queue ≡ request c.key ∷ []
    → commit_read c.m_size (looks asks c.recv) ≡ some s
    → post_request m c.key (record c {
      recv = set_read_limit 0 (reset s);
      m_size = 0;
      queue = [];
      taken = c.taken ++ take c.m_size (contents c.recv) ∷ [];
    })
      ≡ some t
    → handle_wrap m asks true c ≡ some t
unfolding handle_wrap
handle_wrap-commit m asks c s t q e f =
    let self : (c.key == c.key) ≡ true = ground arith in rw (handle_wrap, q, self, e) f

-- A handler takes the message that is ready: it is committed, and the next one is looked at.
handle_wrap-taken :
    (m : ℕ) (asks : List ℕ) (c : Controller)
    → m ≤ max_packet_len
    → Orderly m c
    → Ready m c
    → After m (handle_wrap m asks true c) (stream c)
unfolding handle_wrap
handle_wrap-taken m asks c small o y =
    let n = c.m_size in
    let (k, ok) =
      looks-Keeps asks o.valid (omega (arith, y.limited, y.sized.most, small))
        (omega (arith, y.limited, y.all_there)) (omega (arith, y.limited, y.sized.at_least))
        (omega (arith, y.limited, y.busy)) in
    let r = looks asks c.recv in
    let len = ap length k.same in
    let (s, e, v, dropped, last) =
      commit_read-drop n k.valid (omega (arith, ok, y.limited))
        (omega (arith, y.all_there, len, length-contents r)) in
    let back = reset-marks v in
    let set = set_read_limit-marks 0 (reset s) in
    let left : contents (set_read_limit 0 (reset s)) ≡ drop n (contents c.recv) =
      set.3 ∙ back.1 ∙ dropped ∙ ap (drop n) k.same in
    let p = take n (contents c.recv) in
    let d = record c {
      recv = set_read_limit 0 (reset s);
      m_size = 0;
      queue = [];
      taken = c.taken ++ p ∷ [];
    } in
    let (t, f, same, mode) = post_request-Open m d (record {
      valid = marked-IsValid 0 (reset s).pos back.2;
      none_queued = refl;
      no_limit = set.0;
      size_seen = inl (record { no_size = refl; at_start = set.2 ∙ back.0 });
    }) in
    let framed : uint32 (take 4 p) ≡ length p =
      ap uint32 (take-take 4 n (contents c.recv) y.sized.at_least)
      ∙ y.sized.read_off
      ∙ sym (length-take n (contents c.recv) y.all_there) in
    (
      t,
      handle_wrap-commit m asks c s t y.one_queued e f,
      record {
        valid = same.valid;
        framed = subst AllFramed (sym same.taken_eq) (AllFramed-snoc c.taken p o.framed framed);
        mode = mode;
      },
      ap₂ (λ l b. concat l ++ b) same.taken_eq (same.bytes_eq ∙ left)
          ∙ ap (λ l. l ++ drop n (contents c.recv)) (concat-snoc c.taken p)
          ∙ append_assoc (concat c.taken) p (drop n (contents c.recv))
          ∙ ap (λ l. concat c.taken ++ l) (take-append-drop n (contents c.recv)),
    )

-- A handler that is missing or fails: the object is told, and nothing is dispatched again.
handle_wrap-failed :
    (m : ℕ) (asks : List ℕ) (c : Controller)
    → m ≤ max_packet_len
    → Orderly m c
    → Ready m c
    → After m (handle_wrap m asks false c) (stream c)
unfolding handle_wrap
handle_wrap-failed m asks c small o y =
    let self : (c.key == c.key) ≡ true = ground arith in
    let (k, ok) =
      looks-Keeps asks o.valid (omega (arith, y.limited, y.sized.most, small))
        (omega (arith, y.limited, y.all_there)) (omega (arith, y.limited, y.sized.at_least))
        (omega (arith, y.limited, y.busy)) in
    (
      record c { recv = looks asks c.recv; queue = []; errors = c.errors ++ c.key ∷ [] },
      simp (handle_wrap, y.one_queued, self),
      record {
        valid = k.valid;
        framed = o.framed;
        mode = inr (
            inr (record {
              none_queued = refl;
              busy = omega (arith, ok, y.limited, y.sized.at_least);
            }));
      },
      ap (λ l. concat c.taken ++ l) k.same,
    )

-- Whatever is read of the message, and whether it is handled or not, no byte is lost, and the order
-- holds on.
pub handle_wrap-Orderly :
    (m : ℕ) (asks : List ℕ) (handled : Bool) (c : Controller)
    → m ≤ max_packet_len
    → Orderly m c
    → After m (handle_wrap m asks handled c) (stream c)
unfolding handle_wrap
handle_wrap-Orderly m asks handled c small o = elim o.mode [
  | inl w ↦ (c, simp (handle_wrap, w.none_queued), o, refl)
  | inr (inr h) ↦ (c, simp (handle_wrap, h.none_queued), o, refl)
  | inr (inl y) ↦ elim handled as (λ b. After m (handle_wrap m asks b c) (stream c)) [
    | true ↦ handle_wrap-taken m asks c small o y
    | false ↦ handle_wrap-failed m asks c small o y
  ]
]

-- From an orderly state, any order of arrivals and of turns of the workers, each of them undivided,
-- runs to its end without a failed assertion: at most one task is dispatched at a time, every message taken is as long as its first
-- four bytes say, and these messages and the readable bytes behind them are, in order, the bytes
-- that came in, none of them lost or taken twice.
pub run-Orderly :
    (m : ℕ) (es : List Event) (c : Controller)
    → m ≤ max_packet_len
    → Orderly m c
    → (came : List ℕ) × (t : Controller) × (run m es c ≡ some (came, t))
      × Orderly m t
      × (stream t ≡ stream c ++ came)
unfolding run
run-Orderly m [] c small o = ([], c, refl, o, sym (append-nil (stream c)))
run-Orderly m (works asks handled ∷ es) c small o =
    let (d, e, p, kept) = handle_wrap-Orderly m asks handled c small o in
    let (came, t, f, q, all) = run-Orderly m es d small p in
    (came, t, rw (run, e, f) refl, q, all ∙ ap (λ l. l ++ came) kept)
run-Orderly m (receives bytes ∷ es) c small o =
    let here = take c.recv.last_malloc bytes in
    let (d, e, p, grown) = arrive-Orderly m here c o (length-take_le c.recv.last_malloc bytes) in
    let (came, t, f, q, all) = run-Orderly m es d small p in
    (
      here ++ came,
      t,
      rw (run, e, f) refl,
      q,
      all ∙ ap (λ l. l ++ came) grown ∙ append_assoc (stream c) here came,
    )
