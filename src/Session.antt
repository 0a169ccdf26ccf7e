-- ===== src/Session.antt =====
-- `ConnectSession` of src/NetworkInterface.h, and `session_init`, `session_reset` and
-- `session_free` of src/NetworkInterface.cc.
use shared_bike.Base.{ℕ, Option, none, some, replicate, Bytes, Outcome, ok, fault, null_deref}
use shared_bike.Event.{Event}

pub data MessageStatus : Type 0 where
  ms_read_header ms_read_message ms_read_done ms_sending : MessageStatus

pub data SessionStatus : Type 0 where
  ss_request ss_response : SessionStatus

-- `bev` is the address of the bufferevent, `fd` the socket. A buffer is `none` where the pointer
-- is NULL. Bytes of `header` are those of its 11 chars.
pub record ConnectSession : Type 0 where
  pub remote_ip : Bytes
  pub session_stat : SessionStatus
  pub request : Option Event
  pub req_stat : MessageStatus
  pub response : Option Event
  pub res_stat : MessageStatus
  pub eid : ℕ
  pub fd : ℕ
  pub bev : ℕ
  pub msg_len : ℕ
  pub read_msg_len : ℕ
  pub read_buf : Option Bytes
  pub header : Bytes
  pub read_header_len : ℕ
  pub write_buf : Option Bytes
  pub sent_len : ℕ

-- `new` throws where memory is short, so the session exists; `memset` zeroes all of it.
unfoldable pub session_init : ℕ → ℕ → ConnectSession
session_init fd bev = record {
  remote_ip = replicate 32 0;
  session_stat = ss_request;
  request = none;
  req_stat = ms_read_header;
  response = none;
  res_stat = ms_read_header;
  eid = 0;
  fd = fd;
  bev = bev;
  msg_len = 0;
  read_msg_len = 0;
  read_buf = none;
  header = replicate 11 0;
  read_header_len = 0;
  write_buf = none;
  sent_len = 0;
}

-- A session that exists goes back to reading a header; `response`, `eid` and `header` stay.
unfoldable pub session_reset : ConnectSession → ConnectSession
session_reset cs = record cs {
  read_buf = none;
  write_buf = none;
  session_stat = ss_request;
  req_stat = ms_read_header;
  msg_len = 0;
  read_msg_len = 0;
  read_header_len = 0;
}

-- The null test covers `read_buf` only: `cs->write_buf` is read through a null pointer too.
unfoldable pub session_free : Option ConnectSession → Outcome (Unit {0})
session_free none = fault null_deref
session_free (some cs) = ok tt
