-- ===== src/Controller/Confirm.antt =====
-- `comfirm` and `post_request` over the circular buffer.
use utility_engine_old.Base.{ℕ, ◌-◌, ◌≤◌, ◌<◌, ◌≡◌, refl, sym, ap, ap₂, ◌∙◌, ◌⊎◌, inl, inr, false}
use utility_engine_old.Base.{◌||◌, some, [], ◌∷◌, ◌++◌, arith, ltb, ◌==◌, if◌then◌else◌, Bool-cases}
use utility_engine_old.Base.{ltb→lt, ltb→ge, ulong_mod, length, take, peek}
use utility_engine_old.Rotative.Message.{readable_size-marks, next-header, marked-IsValid}
use utility_engine_old.Rotative.Message.{set_read_limit-marks}
use utility_engine_old.Rotative.Read.{readable_size_lem}
use utility_engine_old.Controller.Orderly.{ready, Sized, Fresh, Waiting, Ready, Halted}
use utility_engine_old.Parser.{uint32, accept, wait, reject}
use utility_engine_old.Rotative.Invariant.{IsValid}
use utility_engine_old.Rotative.Contents.{contents, length-contents}
use utility_engine_old.Rotative.{Rotative, readable_size, set_read_limit, next}
use utility_engine_old.Controller.{Controller, confirm_whole, comfirm, post_request, request}

-- What stays as it is while a message is looked at.
pub record Same (c t : Controller) : Type 0 where
  pub valid : IsValid t.recv
  pub bytes_eq : contents t.recv ≡ contents c.recv
  pub taken_eq : t.taken ≡ c.taken
  pub key_eq : t.key ≡ c.key

-- Nothing is dispatched, and no limit is set: the state in which `post_request` is called.
pub record Open (m : ℕ) (c : Controller) : Type 0 where
  pub valid : IsValid c.recv
  pub none_queued : c.queue ≡ []
  pub no_limit : c.recv.limit ≡ 0
  pub size_seen : Fresh c ⊎ Sized m c

-- What `post_request` makes of an open state.
abbrev Posted : ℕ → Controller → Type 0
Posted m c =
    (t : Controller) × (post_request m c.key c ≡ some t)
    × Same c t
    × (Waiting m t ⊎ Ready m t ⊎ Halted t)

abbrev seen : ℕ → Controller → Controller
seen n c = record c { recv = (readable_size n c.recv).1 }

pub Sized-same :
    (m : ℕ) {d t : Controller}
    → Sized m d
    → t.m_size ≡ d.m_size
    → contents t.recv ≡ contents d.recv
    → Sized m t
Sized-same m {d} {t} sized n e = record {
  at_least = omega (arith, n, sized.at_least);
  most = omega (arith, n, sized.most);
  there = omega (arith, sized.there, ap length e);
  read_off = ap (λ l. uint32 (take 4 l)) e ∙ sized.read_off ∙ sym n;
}

confirm_whole-wait :
    (c : Controller)
    → IsValid c.recv
    → ready c < c.m_size
    → confirm_whole c ≡ (wait, seen c.m_size c)
confirm_whole-wait c v lt =
    let e : (readable_size c.m_size c.recv).0 ≡ 0 =
      ground (arith, (readable_size_lem c.m_size v).0, lt) in
    rw (e) refl

confirm_whole-accept :
    (c : Controller)
    → IsValid c.recv
    → 0 < c.m_size
    → c.m_size ≤ ready c
    → confirm_whole c ≡ (
      accept c.m_size,
      record c { recv = set_read_limit c.m_size (readable_size c.m_size c.recv).1 },
    )
confirm_whole-accept c v pos_size le =
    let e : ((readable_size c.m_size c.recv).0 == 0) ≡ false =
      ground (arith, (readable_size_lem c.m_size v).0, le, pos_size) in
    rw (e) refl

-- A message whose length is known.
post_request-Sized :
    (m : ℕ) (c d : Controller)
    → comfirm m c ≡ some (confirm_whole d)
    → Same c d
    → d.queue ≡ []
    → d.recv.limit ≡ 0
    → Sized m d
    → Posted m c
unfolding post_request
post_request-Sized m c d e same q free sized =
    let n = d.m_size in
    let r = (readable_size n d.recv).1 in
    let looked = readable_size_lem n same.valid in
    let bytes : contents r ≡ contents d.recv = looked.2 in
    let len : ready (seen n d) ≡ ready d = ap length bytes in
    elim (Bool-cases (ltb (ready d) n)) [
      | inl short ↦
          let lt : ready d < n = ltb→lt _ _ short in
          (
            seen n d,
            rw (post_request, e, confirm_whole-wait d same.valid lt) refl,
            record {
              valid = looked.3;
              bytes_eq = bytes ∙ same.bytes_eq;
              taken_eq = same.taken_eq;
              key_eq = same.key_eq;
            },
            inl (record {
              none_queued = q;
              idle = ground (arith, looked.0, looked.1, lt);
              no_limit = (readable_size-marks n d.recv).0 ∙ free;
              short = inr (Sized-same m sized refl bytes, omega (arith, len, lt));
            }),
          )
      | inr enough ↦
          let le : n ≤ ready d = ltb→ge _ _ enough in
          let s : Rotative = set_read_limit n r in
          let set = set_read_limit-marks n r in
          (
            record d { recv = s; queue = d.queue ++ request c.key ∷ [] },
            rw
                (
                  post_request,
                  e,
                  confirm_whole-accept d same.valid (omega (arith, sized.at_least)) le,
                )
                refl,
            record {
              valid = marked-IsValid n r.pos looked.3;
              bytes_eq = set.3 ∙ bytes ∙ same.bytes_eq;
              taken_eq = same.taken_eq;
              key_eq = same.key_eq;
            },
            inr (
                inl (record {
                  one_queued = ap₂ (λ l k. l ++ request k ∷ []) q (sym same.key_eq);
                  busy = ground (arith, looked.0, looked.1, le, set.1);
                  limited = set.0;
                  sized = Sized-same m sized refl (set.3 ∙ bytes);
                  all_there = omega (arith, ap length set.3, len, le);
                })),
          )
    ]

comfirm-short :
    (m : ℕ) (c : Controller)
    → c.m_size ≡ 0
    → (readable_size 4 c.recv).0 ≡ 0
    → comfirm m c ≡ some (wait, seen 4 c)
unfolding comfirm
comfirm-short m c z none_there = rw (comfirm, z, none_there) refl

-- The length that a header at p says, and the state that has it.
abbrev measured : Controller → ℕ → Rotative → Controller
measured c p s = record c { recv = s; m_size = uint32 (peek s.buffer p 4) }

comfirm-header :
    (m : ℕ) (c : Controller) (p : ℕ) (s : Rotative)
    → c.m_size ≡ 0
    → ((readable_size 4 c.recv).0 == 0) ≡ false
    → next 4 (readable_size 4 c.recv).1 ≡ (some p, 4, s)
    → comfirm m c ≡ (
        if ltb (uint32 (peek s.buffer p 4)) 4 || ltb m (uint32 (peek s.buffer p 4))
        then some (reject (ulong_mod - 1), measured c p s)
        else some (confirm_whole (measured c p s)))
unfolding comfirm
comfirm-header m c p s z there e = ground (arith, z, there, e)

-- A message that is not looked at yet.
post_request-Fresh : (m : ℕ) (c : Controller) → Open m c → Fresh c → Posted m c
unfolding post_request
post_request-Fresh m c o fresh =
    let r = (readable_size 4 c.recv).1 in
    let looked = readable_size_lem 4 o.valid in
    let marks = readable_size-marks 4 c.recv in
    let len : ready (seen 4 c) ≡ ready c = ap length looked.2 in
    elim (Bool-cases (ltb (ready c) 4)) [
      | inl short ↦
          let nothing : (readable_size 4 c.recv).0 ≡ 0 = ground (arith, looked.0, short) in
          (
            seen 4 c,
            rw (post_request, comfirm-short m c fresh.no_size nothing) refl,
            record { valid = looked.3; bytes_eq = looked.2; taken_eq = refl; key_eq = refl },
            inl (record {
              none_queued = o.none_queued;
              idle = looked.1 ∙ nothing;
              no_limit = marks.0 ∙ o.no_limit;
              short = inl (
                record { no_size = fresh.no_size; at_start = marks.1 ∙ fresh.at_start },
                omega (arith, len, ltb→lt _ _ short),
              );
            }),
          )
      | inr enough ↦
          let (p, s, e, head, keeps, read_some) =
            next-header looked.3 (marks.0 ∙ o.no_limit) (marks.1 ∙ fresh.at_start)
              (omega (arith, length-contents r, len, ltb→ge _ _ enough)) in
          let d = measured c p s in
          let some_there : ((readable_size 4 c.recv).0 == 0) ≡ false =
            ground (arith, looked.0, enough) in
          let said = comfirm-header m c p s fresh.no_size some_there e in
          let same : Same c d = record {
            valid = keeps.valid;
            bytes_eq = keeps.same ∙ looked.2;
            taken_eq = refl;
            key_eq = refl;
          } in
          elim (Bool-cases (ltb d.m_size 4 || ltb m d.m_size)) [
            | inl bad ↦ (
              record d { errors = d.errors ++ c.key ∷ [] },
              rw (post_request, said, bad) refl,
              record {
                valid = keeps.valid;
                bytes_eq = keeps.same ∙ looked.2;
                taken_eq = refl;
                key_eq = refl;
              },
              inr (inr (record { none_queued = o.none_queued; busy = read_some })),
            )
            | inr good ↦
                post_request-Sized m c d (said ∙ ground (arith, good)) same o.none_queued
                  (keeps.limit_eq ∙ marks.0 ∙ o.no_limit)
                  (record {
                    at_least = ground (arith, good);
                    most = ground (arith, good);
                    there = omega (arith, ap length same.bytes_eq, ltb→ge _ _ enough);
                    read_off = ap uint32 (ap (take 4) keeps.same ∙ sym head);
                  })
          ]
    ]

-- `post_request` in an open state leaves the bytes alone, and either waits for more of them, or
-- dispatches the one message that is there, or tells the object of an error.
pub post_request-Open : (m : ℕ) (c : Controller) → Open m c → Posted m c
unfolding comfirm
post_request-Open m c o = elim o.size_seen [
  | inr sized ↦
      post_request-Sized m c c (ground (arith, sized.at_least))
        (record { valid = o.valid; bytes_eq = refl; taken_eq = refl; key_eq = refl }) o.none_queued
        o.no_limit sized
  | inl fresh ↦ post_request-Fresh m c o fresh
]
