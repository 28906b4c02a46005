-- ===== src/Session/Sample.antt =====
-- A session that was just connected, with empty buffers: the data of the tests.

use utility_engine_old.Base.{refl, true, [], arith}
use utility_engine_old.Rotative.{Rotative}
use utility_engine_old.Session.{Session, link_connected}
use utility_engine_old.Rotative.Invariant.{IsValid}

abbrev pub cleared : Rotative
cleared = record {
  allocated = true;
  buffer = λ i. 0;
  reader = 0;
  writer = 0;
  final = 4096;
  last_copy = 0;
  last_read = 0;
  size = 4096;
  last_malloc = 0;
  limit = 0;
  pos = 0;
}

pub cleared-IsValid : IsValid cleared
cleared-IsValid = record {
  made = refl;
  big = omega arith;
  small = omega arith;
  final_eq = refl;
  reader_in = omega arith;
  writer_in = omega arith;
  copy_in = omega arith;
  copy_none = omega arith;
  copy_le = omega arith;
  mirror = λ i lt. ground arith;
  claim_in = omega arith;
  claim_room = omega arith;
}

abbrev pub opened : Session
opened = record {
  link = link_connected;
  compkey = 4;
  recv = cleared;
  send_buffer = cleared;
  recv_buf = 0;
  recv_len = 4096;
  send_buf = 0;
  send_len = 0;
  calls = [];
}
