-- ===== src/Session/Sending.antt =====
-- What `send` puts into the buffer.
use utility_engine_old.Base.{ℕ, zero, suc, ◌+◌, ◌-◌, ◌≤◌, ◌<◌, min, ◌≡◌, refl, sym, ap, ◌∙◌, inl}
use utility_engine_old.Base.{inr, Bool, true, false, some, List, [], ◌∷◌, ◌++◌, arith, ltb, ◌==◌}
use utility_engine_old.Base.{Bool-cases, ==→eq, length, take, drop, length-append, length-take}
use utility_engine_old.Base.{length-drop, take-append-drop, take-length}
use utility_engine_old.Rotative.{max_packet_len, Rotative, clip, read, writable_size, write}
use utility_engine_old.Rotative.{commit_write}
use utility_engine_old.Session.{Session, is_connected, send_loop, send, post_send}
use utility_engine_old.Rotative.Invariant.{IsValid, fill}
use utility_engine_old.Rotative.Front.{Front, write-Front, commit_write-Front, Front-trans}
use utility_engine_old.Rotative.Contents.{contents, length-contents}
use utility_engine_old.Rotative.Write.{commit_write-append, write-writable_size, contents-write}
use utility_engine_old.Rotative.Write.{commit_write-size, write-size, fill-size}
use utility_engine_old.Rotative.Read.{read-take}
use mathlib.Core.List.{append_assoc}

-- One turn of the loop.
turn :
    (packet : List ℕ) {r : Rotative}
    → IsValid r
    → 0 < length packet
    → length packet ≤ writable_size r
    → let n : ℕ = (write (length packet) r).1 in
      (idle : Bool) × (b : Rotative) × (commit_write n
          (fill (take n packet) (write (length packet) r).2)
        ≡ some (idle, b))
      × IsValid b
      × (contents b ≡ contents r ++ take n packet)
      × (0 < n)
      × (n ≤ length packet)
      × (writable_size b + n ≡ writable_size r)
      × Front r b
      × (idle ≡ (r.last_read == 0))
turn packet {r} v some_bytes room =
    let n : ℕ = (write (length packet) r).1 in
    let granted = write-writable_size (length packet) v in
    let size : n ≡ min (clip (length packet)) (writable_size r) = granted.2 in
    let positive : 0 < n = ground (arith, size, some_bytes, room) in
    let inside : n ≤ length packet = ground (arith, size, some_bytes, room) in
    let taken = length-take n packet inside in
    let (b, e, w, c, q) =
      commit_write-append (take n packet) granted.4 (omega (arith, granted.3, taken)) in
    let e' =
      ap (λ k. commit_write k (fill (take n packet) (write (length packet) r).2)) (sym taken) ∙ e in
    let c' = c ∙ ap (λ l. l ++ take n packet) (contents-write (length packet) r) in
    let room' = write-writable_size 0 w in
    let claimed = (write (length packet) r).2 in
    let (front, flag) =
      commit_write-Front (take n packet) claimed b _ granted.4 (omega (arith, granted.3, taken))
        e in
    let asked = write-Front (length packet) r in
    let sized =
      commit_write-size n _ _ b e'
      ∙ fill-size (take n packet) (write (length packet) r).2
      ∙ write-size (length packet) r in
    (
      _,
      b,
      e',
      w,
      c',
      positive,
      inside,
      omega (
        arith,
        room'.0,
        granted.0,
        sized,
        ap length c',
        length-append (contents r) (take n packet),
        taken,
        length-contents b,
        length-contents r,
      ),
      Front-trans r claimed b asked front,
      flag ∙ ap (λ k. k == 0) asked.read_eq,
    )

-- A packet that fits is put in as a whole, in as many turns as it takes, at most one for each byte.
pub send_loop-append :
    (fuel : ℕ) (packet : List ℕ) {r : Rotative}
    → IsValid r
    → 0 < length packet
    → length packet ≤ fuel
    → length packet ≤ writable_size r
    → (idle : Bool) × (b : Rotative) × (send_loop fuel packet r ≡ some (idle, b))
      × IsValid b
      × (contents b ≡ contents r ++ packet)
      × Front r b
      × (idle ≡ (r.last_read == 0))
unfolding send_loop
send_loop-append zero packet v some_bytes enough room = absurd (omega (arith, some_bytes, enough))
send_loop-append (suc fuel) packet {r} v some_bytes enough room =
    let n : ℕ = (write (length packet) r).1 in
    let (idle, b, e, w, c, positive, inside, left, front, flag) = turn packet v some_bytes room in
    let in_packet : ltb (length packet) n ≡ false = ground (arith, inside) in
    let rest : length (drop n packet) ≡ length packet - n = length-drop n packet in
    elim (Bool-cases (length packet == n)) [
      | inl last ↦
          let all = take-length n packet (omega (arith, ==→eq (length packet) n last)) in
          (
            idle,
            b,
            rw (send_loop, e, in_packet, last) refl,
            w,
            c ∙ ap (λ l. contents r ++ l) all,
            front,
            flag,
          )
      | inr more ↦
          let some_left : 0 < length (drop n packet) = ground (arith, more, rest, inside) in
          let (idle', t, f, u, d, further, flag') =
            send_loop-append fuel (drop n packet) w some_left
              (omega (arith, rest, enough, positive)) (omega (arith, rest, left, room)) in
          (
            idle',
            t,
            rw (send_loop, e, in_packet, more) f,
            u,
            d
                ∙ ap (λ l. l ++ drop n packet) c
                ∙ append_assoc (contents r) (take n packet) (drop n packet)
                ∙ ap (λ l. contents r ++ l) (take-append-drop n packet),
            Front-trans r b t front further,
            flag' ∙ ap (λ k. k == 0) front.read_eq,
          )
    ]

-- A packet that is not empty and fits is sent: with a turn of the loop for each byte at most,
-- `send` says so, the session stays connected, and its bytes stand as a whole behind those that
-- were still to be sent.
pub send-append :
    (fuel : ℕ) (packet : List ℕ) (s : Session)
    → IsValid s.send_buffer
    → is_connected s ≡ true
    → 0 < length packet
    → length packet ≤ fuel
    → length packet ≤ writable_size s.send_buffer
    → (t : Session) × (send fuel packet s ≡ some (true, t))
      × (is_connected t ≡ true)
      × IsValid t.send_buffer
      × (contents t.send_buffer ≡ contents s.send_buffer ++ packet)
unfolding send
send-append fuel packet s v up some_bytes enough room =
    let (idle, b, e, w, c, front, flag) = send_loop-append fuel packet v some_bytes enough room in
    let fits : ltb (writable_size s.send_buffer) (length packet) ≡ false = ground (arith, room) in
    let r = read-take max_packet_len w in
    elim (Bool-cases idle) [
      | inl told ↦ (
        record s {
          send_buffer = (read max_packet_len b).2;
          send_buf = (read max_packet_len b).0;
          send_len = (read max_packet_len b).1;
          calls = s.calls ++ post_send (read max_packet_len b).0 (read max_packet_len b).1 ∷ [];
        },
        rw (up, fits, e, told) refl,
        up,
        r.4,
        r.3 ∙ c,
      )
      | inr quiet ↦ (record s { send_buffer = b }, rw (up, fits, e, quiet) refl, up, w, c)
    ]
