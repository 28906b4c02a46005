-- ===== src/Controller/Arrive.antt =====
-- The bytes that arrive.
use utility_engine_old.Base.{ℕ, ◌+◌, ◌≤◌, ◌≡◌, refl, sym, ap, ap₂, ◌∙◌, ◌⊎◌, inl, inr, Bool, true}
use utility_engine_old.Base.{false, Option, some, List, ◌++◌, arith, ◌==◌, if◌then◌else◌, length}
use utility_engine_old.Base.{take, length-append, take-append_le}
use mathlib.Core.Path.{subst}
use mathlib.Core.List.{append_assoc}
use utility_engine_old.Rotative.Message.{write-marks, commit_write-marks}
use utility_engine_old.Controller.Confirm.{Same, Sized-same, post_request-Open}
use utility_engine_old.Controller.Orderly.{ready, Sized, Waiting, Ready, Halted, AllFramed, Orderly}
use utility_engine_old.Controller.Orderly.{stream}
use utility_engine_old.Parser.Zero.{concat}
use utility_engine_old.Parser.{uint32}
use utility_engine_old.Rotative.Write.{commit_write-append, write-writable_size, contents-write}
use utility_engine_old.Rotative.Invariant.{fill}
use utility_engine_old.Rotative.Contents.{contents}
use utility_engine_old.Rotative.{max_packet_len, Rotative, write, commit_write}
use utility_engine_old.Controller.{Controller, post_request, arrive}

abbrev pub Mode : ℕ → Controller → Type 0
Mode m c = Waiting m c ⊎ Ready m c ⊎ Halted c

-- The next room for the system changes nothing of the message.
abbrev room : Controller → Controller
room t = record t { recv = (write max_packet_len t.recv).2 }

room-Mode : (m : ℕ) (t : Controller) → Mode m t → Mode m (room t)
room-Mode m t mode =
    let marks = write-marks max_packet_len t.recv in
    let bytes = contents-write max_packet_len t.recv in
    elim mode [
      | inl w ↦ inl (record {
        none_queued = w.none_queued;
        idle = marks.2 ∙ w.idle;
        no_limit = marks.0 ∙ w.no_limit;
        short = elim w.short [
          | inl (f, lt) ↦ inl (
            record { no_size = f.no_size; at_start = marks.1 ∙ f.at_start },
            omega (arith, ap length bytes, lt),
          )
          | inr (s, lt) ↦ inr (Sized-same m s refl bytes, omega (arith, ap length bytes, lt))
        ];
      })
      | inr (inl r) ↦ inr (
          inl (record {
            one_queued = r.one_queued;
            busy = omega (arith, marks.2, r.busy);
            limited = marks.0 ∙ r.limited;
            sized = Sized-same m r.sized refl bytes;
            all_there = omega (arith, ap length bytes, r.all_there);
          }))
      | inr (inr h) ↦
          inr (inr (record { none_queued = h.none_queued; busy = omega (arith, marks.2, h.busy) }))
    ]

-- More bytes behind those that the length was read of.
pub grown-Sized :
    (m : ℕ) {c t : Controller} (bytes : List ℕ)
    → Sized m c
    → t.m_size ≡ c.m_size
    → contents t.recv ≡ contents c.recv ++ bytes
    → Sized m t
grown-Sized m {c} {t} bytes s n e = record {
  at_least = omega (arith, n, s.at_least);
  most = omega (arith, n, s.most);
  there = omega (arith, s.there, ap length e, length-append (contents c.recv) bytes);
  read_off =
      ap uint32 (ap (take 4) e ∙ take-append_le 4 (contents c.recv) bytes s.there)
      ∙ s.read_off
      ∙ sym n;
}

-- What an event leaves, and how the bytes taken from the system grow by it.
abbrev pub After : ℕ → Option Controller → List ℕ → Type 0
After m result bytes = (t : Controller) × (result ≡ some t) × Orderly m t × (stream t ≡ bytes)

-- The bytes are committed; it is left to post, where the flag says so, and to ask for room.
arrive-committed :
    (m : ℕ) (bytes : List ℕ) (c : Controller)
    → Orderly m c
    → length bytes ≤ c.recv.last_malloc
    → (r : Rotative) (idle : Bool)
    → commit_write (length bytes) (fill bytes c.recv) ≡ some (idle, r)
    → (t : Controller)
    → (if idle then post_request m c.key (record c { recv = r }) else some (record c { recv = r }))
      ≡ some t
    → Same (record c { recv = r }) t
    → Mode m t
    → contents r ≡ contents c.recv ++ bytes
    → After m (arrive m bytes c) (stream c ++ bytes)
unfolding arrive
arrive-committed m bytes c o fits r idle e t f same mode grown = (
  room t,
  rw (arrive, e, f) refl,
  record {
    valid = (write-writable_size max_packet_len same.valid).4;
    framed = subst AllFramed (sym same.taken_eq) o.framed;
    mode = room-Mode m t mode;
  },
  ap₂ (λ l k. concat l ++ k) same.taken_eq
        (contents-write max_packet_len t.recv ∙ same.bytes_eq ∙ grown)
      ∙ sym (append_assoc (concat c.taken) (contents c.recv) bytes),
)

-- Bytes that fit the room asked for are taken, and the order holds on.
pub arrive-Orderly :
    (m : ℕ) (bytes : List ℕ) (c : Controller)
    → Orderly m c
    → length bytes ≤ c.recv.last_malloc
    → After m (arrive m bytes c) (stream c ++ bytes)
arrive-Orderly m bytes c o fits =
    let (r, e, v, grown, pos_eq) = commit_write-append bytes o.valid fits in
    let marks = commit_write-marks (length bytes) bytes (c.recv.last_read == 0) c.recv r e in
    let d = record c { recv = r } in
    let len : ready d ≡ ready c + length bytes =
      ap length grown ∙ length-append (contents c.recv) bytes in
    let there : Same d d = record { valid = v; bytes_eq = refl; taken_eq = refl; key_eq = refl } in
    elim o.mode [
      | inl w ↦
          let flag : (c.recv.last_read == 0) ≡ true = ground (arith, w.idle) in
          let (t, f, same, mode) = post_request-Open m d (record {
            valid = v;
            none_queued = w.none_queued;
            no_limit = marks.0 ∙ w.no_limit;
            size_seen = elim w.short [
              | inl (z, lt) ↦ inl (record { no_size = z.no_size; at_start = marks.1 ∙ z.at_start })
              | inr (s, lt) ↦ inr (grown-Sized m bytes s refl grown)
            ];
          }) in
          arrive-committed m bytes c o fits r true (e ∙ ap (λ b. some (b, r)) flag) t f same mode
            grown
      | inr (inl y) ↦
          let flag : (c.recv.last_read == 0) ≡ false = ground (arith, y.busy, y.sized.at_least) in
          arrive-committed m bytes c o fits r false (e ∙ ap (λ b. some (b, r)) flag) d refl there
            (inr (
              inl (record {
                one_queued = y.one_queued;
                busy = omega (arith, marks.2, y.busy);
                limited = marks.0 ∙ y.limited;
                sized = grown-Sized m bytes y.sized refl grown;
                all_there = omega (arith, len, y.all_there);
              })))
            grown
      | inr (inr h) ↦
          let flag : (c.recv.last_read == 0) ≡ false = ground (arith, h.busy) in
          arrive-committed m bytes c o fits r false (e ∙ ap (λ b. some (b, r)) flag) d refl there
            (inr
              (inr (record { none_queued = h.none_queued; busy = omega (arith, marks.2, h.busy) })))
            grown
    ]
