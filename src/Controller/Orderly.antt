-- ===== src/Controller/Orderly.antt =====
-- The states that a session's messages pass through, as seen by the controller.
use utility_engine_old.Base.{ℕ, ◌≤◌, ◌<◌, ◌≡◌, ◌⊎◌, List, [], ◌∷◌, ◌++◌, length, take}
use utility_engine_old.Parser.Zero.{concat}
use utility_engine_old.Parser.{uint32}
use utility_engine_old.Rotative.Invariant.{IsValid}
use utility_engine_old.Rotative.Contents.{contents}
use utility_engine_old.Controller.{Controller, request}

-- How many bytes are readable.
abbrev pub ready : Controller → ℕ
ready c = length (contents c.recv)

-- `m_size` is the length that the readable bytes begin with, and one that is allowed.
pub record Sized (m : ℕ) (c : Controller) : Type 0 where
  pub at_least : 4 ≤ c.m_size
  pub most : c.m_size ≤ m
  pub there : 4 ≤ ready c
  pub read_off : uint32 (take 4 (contents c.recv)) ≡ c.m_size

-- No message is looked at.
pub record Fresh (c : Controller) : Type 0 where
  pub no_size : c.m_size ≡ 0
  pub at_start : c.recv.pos ≡ 0

-- Less than a message is there, nothing is dispatched, and the flag is set by which the next
-- `commit_write` makes the receiving side post.
pub record Waiting (m : ℕ) (c : Controller) : Type 0 where
  pub none_queued : c.queue ≡ []
  pub idle : c.recv.last_read ≡ 0
  pub no_limit : c.recv.limit ≡ 0
  pub short : (Fresh c × (ready c < 4)) ⊎ (Sized m c × (ready c < c.m_size))

-- A whole message is there, and it is dispatched once; the flag is not set.
pub record Ready (m : ℕ) (c : Controller) : Type 0 where
  pub one_queued : c.queue ≡ request c.key ∷ []
  pub busy : c.m_size ≤ c.recv.last_read
  pub limited : c.recv.limit ≡ c.m_size
  pub sized : Sized m c
  pub all_there : c.m_size ≤ ready c

-- An error was told to the object; nothing is dispatched and the flag is not set.
pub record Halted (c : Controller) : Type 0 where
  pub none_queued : c.queue ≡ []
  pub busy : 0 < c.recv.last_read

-- Each message is as long as its first four bytes say.
abbrev pub AllFramed : List (List ℕ) → Type 0
AllFramed [] = Unit {0}
AllFramed (p ∷ ps) = (uint32 (take 4 p) ≡ length p) × AllFramed ps

pub record Orderly (m : ℕ) (c : Controller) : Type 0 where
  pub valid : IsValid c.recv
  pub framed : AllFramed c.taken
  pub mode : Waiting m c ⊎ Ready m c ⊎ Halted c

-- The abstract view: all the bytes taken from the system, in the messages and behind them.
abbrev pub stream : Controller → List ℕ
stream c = concat c.taken ++ contents c.recv
