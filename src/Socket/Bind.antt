-- ===== src/Socket/Bind.antt =====
-- What a `bind` that failed leaves behind.
use mathlib.Core.Path.{subst}
use utility_engine_old.Base.{ℕ, ◌≡◌, refl, sym, ap, Bool, true, false, ◌&&◌, Option, none, some}
use utility_engine_old.Base.{List}
use utility_engine_old.Epoll.{Outcome, throws}
use utility_engine_old.Socket.{Socket, close, create_socket, Answers, connect, bind}

-- A call threw and the descriptor f is held: nothing binds or connects until `close`.
abbrev pub Held : ℕ → Outcome Socket × Socket → Type 0
Held f (o, t) =
    (o ≡ throws)
    × (t.fd ≡ some f)
    × ((created : Option ℕ) (resolved bound : Bool) (host : List ℕ) (port : ℕ)
        → ((bind created resolved bound host port t).0 ≡ throws)
          × ((bind created resolved bound host port t).1.fd ≡ some f))
    × ((a : Answers) (host : List ℕ) (port timeout_msecs : ℕ)
        → (u : Socket) × (connect a host port timeout_msecs t ≡ some (throws, u)) × (u.fd ≡ some f))
    × ((g : ℕ) (host : List ℕ) (port : ℕ)
        → (bind (some g) true true host port (close t)).1.fd ≡ some g)

bind-fields :
    (f : ℕ) (resolved bound : Bool) (host : List ℕ) (port : ℕ) (s : Socket)
    → resolved && bound ≡ false
    → Held f (bind (some f) resolved bound host port (record s { fd = none }))
unfolding bind connect create_socket close
bind-fields f false bound host port s bad =
    (refl, refl, λ c r b h p. (refl, refl), λ a h p m. (_, refl, refl), λ g h p. refl)
bind-fields f true false host port s bad =
    (refl, refl, λ c r b h p. (refl, refl), λ a h p m. (_, refl, refl), λ g h p. refl)
bind-fields f true true host port s bad = absurd (cc)

-- A `bind` on a socket without a descriptor that throws because the host is not resolved or the
-- system does not bind keeps the descriptor it made: from there every `bind` and every `connect`
-- throws and keeps that descriptor, whatever the system answers, until `close` has been called,
-- after which a `bind` that the system grants holds its new descriptor.
pub bind-until_close :
    (f : ℕ) (resolved bound : Bool) (host : List ℕ) (port : ℕ) (s : Socket)
    → s.fd ≡ none
    → resolved && bound ≡ false
    → Held f (bind (some f) resolved bound host port s)
bind-until_close f resolved bound host port s e bad =
    subst (λ x. Held f (bind (some f) resolved bound host port x))
      (ap (λ d. record s { fd = d }) (sym e)) (bind-fields f resolved bound host port s bad)
