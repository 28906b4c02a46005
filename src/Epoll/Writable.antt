-- ===== src/Epoll/Writable.antt =====
-- The event that the system takes bytes again.
use utility_engine_old.Session.{Session}
