-- ===== src/Epoll/Receiving.antt =====
-- The bytes that the system has received, on their way into the buffer of a session.
use utility_engine_old.Base.{ℕ, ◌≤◌}
use utility_engine_old.Base.{◌≡◌, refl, sym, ap, ◌∙◌}
use utility_engine_old.Base.{inl, inr, Bool, true, false, some, List}
use utility_engine_old.Base.{[], ◌∷◌, ◌++◌, arith, ◌==◌, if◌then◌else◌, Bool-cases}
use utility_engine_old.Base.{length}
use utility_engine_old.Base.{poke}
use utility_engine_old.Epoll.{filled_in}
use utility_engine_old.Session.{Reason, Session, is_connected, close}
use utility_engine_old.Session.{next_room, process_recv}
use utility_engine_old.Session.{recv_buffer_overflow}
use utility_engine_old.Session.{post_recv}
use utility_engine_old.Rotative.{max_packet_len, Rotative, commit_write}
use utility_engine_old.Rotative.Invariant.{IsValid, fill}
use utility_engine_old.Rotative.Contents.{contents}
use utility_engine_old.Rotative.Write.{commit_write-append, write-writable_size, contents-write}
use utility_engine_old.Rotative.Write.{write-writer}

-- The system writes where the buffer wants its next bytes, as many as `write` has granted.
pub record Awaiting (s : Session) : Type 0 where
  pub valid : IsValid s.recv
  pub at_writer : s.recv_buf ≡ s.recv.writer
  pub claimed : s.recv_len ≡ s.recv.last_malloc

-- The parent may read the buffer of the session and register what it reads, as `comfirm` does: the
-- buffer stays valid and keeps its readable bytes.
abbrev pub Reads : (Session → Session) → Type 0
Reads parent =
    (s : Session)
    → IsValid s.recv
    → IsValid (parent s).recv × (contents (parent s).recv ≡ contents s.recv)

next_room-Awaiting :
    (s : Session)
    → IsValid s.recv
    → Awaiting (next_room s) × (contents (next_room s).recv ≡ contents s.recv)
next_room-Awaiting s v =
    let (a, b, c, d, w) = write-writable_size max_packet_len v in
    (
      record { valid = w; at_writer = write-writer max_packet_len s.recv; claimed = sym d },
      contents-write max_packet_len s.recv,
    )

close-recv :
    (why : Reason) (s : Session)
    → ((close why s).recv ≡ s.recv)
      × ((close why s).recv_buf ≡ s.recv_buf)
      × ((close why s).recv_len ≡ s.recv_len)
unfolding close
close-recv why s = (ground arith, ground arith, ground arith)

close-Awaiting : (why : Reason) (s : Session) → Awaiting s → Awaiting (close why s)
close-Awaiting why s a =
    let (r, b, l) = close-recv why s in
    record {
      valid = rw r a.valid;
      at_writer = b ∙ a.at_writer ∙ ap (λ x. x.writer) (sym r);
      claimed = l ∙ a.claimed ∙ ap (λ x. x.last_malloc) (sym r);
    }

filled_in-fill : (bs : List ℕ) (s : Session) → Awaiting s → (filled_in bs s).recv ≡ fill bs s.recv
unfolding fill
filled_in-fill bs s a = ap (λ p. record s.recv { buffer = poke s.recv.buffer p bs }) a.at_writer

close-down : (why : Reason) (s : Session) → is_connected (close why s) ≡ false
unfolding close
close-down why s = ground arith

-- What `process_recv` goes on with once the bytes are committed.
abbrev told : (Session → Session) → Bool → Rotative → Session → Session
told parent idle b s =
    let kept = record s { recv = b } in
    if idle then parent (record kept { calls = s.calls ++ post_recv s.compkey ∷ [] }) else kept

told-recv :
    (parent : Session → Session) (idle : Bool) (b : Rotative) (s : Session)
    → Reads parent
    → IsValid b
    → IsValid (told parent idle b s).recv × (contents (told parent idle b s).recv ≡ contents b)
told-recv parent true b s q v =
    q (record s { recv = b; calls = s.calls ++ post_recv s.compkey ∷ [] }) v
told-recv parent false b s q v = (v, refl)

process_recv-told :
    (parent : Session → Session) (n : ℕ) (s : Session) (idle : Bool) (b : Rotative)
    → is_connected s ≡ true
    → commit_write n s.recv ≡ some (idle, b)
    → process_recv parent n s ≡ (
        let room = next_room (told parent idle b s) in
        if room.recv_len == 0
        then some (false, close recv_buffer_overflow room)
        else some (is_connected room, room))
unfolding process_recv
process_recv-told parent n s idle b up e = rw (process_recv, up, e) refl

-- Bytes received into the room that was offered are appended to the readable ones, whether or not
-- the parent is told of them, reads them as `comfirm` does, and closes the session on it; room for more is offered again, and if
-- there is none the session is closed.
pub process_recv-append :
    (parent : Session → Session) (bs : List ℕ) (s : Session)
    → Reads parent
    → Awaiting s
    → is_connected s ≡ true
    → length bs ≤ s.recv_len
    → (b : Bool) × (t : Session) × (process_recv parent (length bs) (filled_in bs s) ≡ some (b, t))
      × (contents t.recv ≡ contents s.recv ++ bs)
      × Awaiting t
      × (b ≡ true → is_connected t ≡ true)
      × (t.recv_len ≡ 0 → is_connected t ≡ false)
process_recv-append parent bs s q a up le =
    let (b, e, v, c, p) = commit_write-append bs a.valid (omega (arith, le, a.claimed)) in
    let idle = s.recv.last_read == 0 in
    let e' : commit_write (length bs) (filled_in bs s).recv ≡ some (idle, b) =
      ap (commit_write (length bs)) (filled_in-fill bs s a) ∙ e in
    let u = told parent idle b (filled_in bs s) in
    let (x, r) = told-recv parent idle b (filled_in bs s) q v in
    let (w, same) = next_room-Awaiting u x in
    let appended : contents (next_room u).recv ≡ contents s.recv ++ bs = same ∙ r ∙ c in
    let said = process_recv-told parent (length bs) (filled_in bs s) idle b up e' in
    elim (Bool-cases ((next_room u).recv_len == 0)) [
      | inl full ↦ (
        false,
        close recv_buffer_overflow (next_room u),
        said ∙ rw full refl,
        ap contents (close-recv recv_buffer_overflow (next_room u)).0 ∙ appended,
        close-Awaiting recv_buffer_overflow (next_room u) w,
        λ h. ground (arith, h),
        λ z. close-down recv_buffer_overflow (next_room u),
      )
      | inr some_room ↦ (
        is_connected (next_room u),
        next_room u,
        said ∙ rw some_room refl,
        appended,
        w,
        λ h. h,
        λ z. absurd (ground (arith, z, some_room)),
      )
    ]
