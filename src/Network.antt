-- ===== src/Network.antt =====
-- `NetworkInterface` of src/NetworkInterface.h and src/NetworkInterface.cc: the libevent callbacks
-- of one connection. A connection is its session and the two byte queues of its bufferevent.
pub mod Request
pub mod Response
pub mod Cycle
use shared_bike.Base.{
  ℕ, ◌+◌, ◌-◌, ◌%◌, ◌^◌, ◌≤◌, ◌≡◌, Bool, true, false, Option, none, some, List, [], ◌∷◌, ◌++◌, ◌==◌,
  ◌&&◌, ◌||◌, ltb, leb, min, if◌then◌else◌, Bytes, length, take, drop, bytes_eq, Outcome, ok, fault,
  null_deref, write_chars, ◌>>=◌,
}
use shared_bike.Wire.{
  message_header_len, message_header, max_msg_len, put_u16, put_u32, load_u16, load_u32,
}
use shared_bike.Protobuf.{Protobuf}
use shared_bike.Event.{Event, byte_size, serialize_to_array}
use shared_bike.Session.{
  ConnectSession, SessionStatus, ss_request, ss_response, MessageStatus, ms_read_header,
  ms_read_message, session_init, session_reset, session_free,
}
use shared_bike.Dispatch.Parse.{parse_event}

-- What the code relies on of libevent and of `operator new[]`.
pub record Platform : Type 0 where
  -- `bufferevent_read(bev, p, n)` on this input: the bytes copied to `p`, and those left.
  pub bufferevent_read : ℕ → Bytes → Bytes × Bytes
  pub read_split :
      (n : ℕ) (input : Bytes) → (bufferevent_read n input).0 ++ (bufferevent_read n input).1 ≡ input
  pub read_length :
      (n : ℕ) (input : Bytes) → length (bufferevent_read n input).0 ≡ min n (length input)
  -- the unset bytes of `new char[n]`
  pub new_chars : ℕ → Bytes
  pub length-new_chars : (n : ℕ) → length (new_chars n) ≡ n

pub record Connection : Type 0 where
  pub session : ConnectSession
  pub input : Bytes
  pub output : Bytes

-- u32 sums and differences.
abbrev pub add_u32 : ℕ → ℕ → ℕ
add_u32 a b = (a + b) % 2 ^ 32

abbrev pub sub_u32 : ℕ → ℕ → ℕ
sub_u32 a b = (a + 2 ^ 32 - b) % 2 ^ 32

-- `listener_cb`: a session that reads a header, under the client's address.
unfoldable pub listener_cb : ℕ → ℕ → Bytes → Outcome Connection
unfolding session_init
listener_cb fd bev ip = do
  let cs = record (session_init fd bev) { session_stat = ss_request; req_stat = ms_read_header }
  remote_ip ← write_chars cs.remote_ip 0 (ip ++ 0 ∷ [])
  ok (record { session = record cs { remote_ip = remote_ip }; input = []; output = [] })

-- A callback has closed the connection, bufferevent and session freed, or left it open.
pub data Callback : Type 0 where
  closed : Callback
  opened : Connection → Callback

-- `bufferevent_free(bev); session_free(cs);`
unfoldable pub close_connection : ConnectSession → Outcome Callback
unfolding session_free
close_connection cs = do _ ← session_free (some cs); ok closed

-- The complete header: magic, event id, and a length between 1 and MAX_MSG_LEN.
unfoldable pub accept_header : Platform → Connection → Outcome Callback
unfolding close_connection
accept_header pf c =
    let cs = c.session in
    if bytes_eq (take 4 cs.header) message_header
    then (let cs' = record cs {
      eid = load_u16 (drop 4 cs.header);
      msg_len = load_u32 (drop 6 cs.header);
    } in
        if ltb cs'.msg_len 1 || ltb max_msg_len cs'.msg_len
        then close_connection cs'
        else ok (
            opened (record c {
              session = record cs' {
                read_buf = some (pf.new_chars cs'.msg_len);
                req_stat = ms_read_message;
                read_msg_len = 0;
              };
            })))
    else close_connection cs

-- The branch of `handle_request` for MS_READ_HEADER.
unfoldable pub read_header : Platform → Connection → Outcome Callback
read_header pf c = do
  let cs = c.session
  let (got, rest) = pf.bufferevent_read (sub_u32 message_header_len cs.read_header_len) c.input
  header ← write_chars cs.header cs.read_header_len got
  let len = add_u32 cs.read_header_len (length got)
  ended ← write_chars header len (0 ∷ [])
  let c' = record c { session = record cs { header = ended; read_header_len = len }; input = rest }
  if len == message_header_len then accept_header pf c' else ok (opened c')

-- What a run of `handle_request` leaves: the connection, the event that it posts to the thread
-- pool, and the event counter.
pub record Handled : Type 0 where
  pub callback : Callback
  pub enqueued : Option Event
  pub sn : ℕ

abbrev pub handled : Callback → ℕ → Handled
handled c sn = record { callback = c; enqueued = none; sn = sn }

-- `*(cs->read_buf + at)`
unfoldable pub write_read_buf : Option Bytes → ℕ → Bytes → Outcome Bytes
unfolding write_chars
write_read_buf none at src = fault null_deref
write_read_buf (some buf) at src = write_chars buf at src

-- The complete message: its event is posted with the session at `self`, or the connection closed.
unfoldable pub accept_message : Protobuf → ℕ → ℕ → Connection → Outcome Handled
accept_message pb self sn c = do
  let cs = record (c.session) { session_stat = ss_response }
  (parsed, sn') ← parse_event pb cs.read_buf cs.read_msg_len cs.eid sn
  let cs' = record cs { read_buf = none; read_msg_len = 0 }
  elim parsed [
    | none ↦ do cb ← close_connection cs'; ok (handled cb sn')
    | some ev ↦ ok (record {
      callback = opened (record c { session = cs' });
      enqueued = some (record ev { args = some self });
      sn = sn';
    })
  ]

-- The branch of `handle_request` for MS_READ_MESSAGE.
unfoldable pub read_message : Platform → Protobuf → ℕ → ℕ → Connection → Outcome Handled
read_message pf pb self sn c = do
  let cs = c.session
  let (got, rest) = pf.bufferevent_read (sub_u32 cs.msg_len cs.read_msg_len) c.input
  buf ← write_read_buf cs.read_buf cs.read_msg_len got
  let len = add_u32 cs.read_msg_len (length got)
  let c' = record c {
    session = record cs { read_buf = some buf; read_msg_len = len };
    input = rest;
  }
  if cs.msg_len == len then accept_message pb self sn c' else ok (handled (opened c') sn)

abbrev pub is_reading_header : MessageStatus → Bool
is_reading_header ms_read_header = true
is_reading_header _ = false

abbrev pub is_reading_message : MessageStatus → Bool
is_reading_message ms_read_message = true
is_reading_message _ = false

-- The second half of `handle_request`, on the connection that the first half left.
unfoldable pub handle_message : Platform → Protobuf → ℕ → ℕ → Callback → Outcome Handled
handle_message pf pb self sn closed = ok (handled closed sn)
handle_message pf pb self sn (opened c) =
    if is_reading_message c.session.req_stat && ltb 0 (length c.input)
    then read_message pf pb self sn c
    else ok (handled (opened c) sn)

abbrev pub is_request : SessionStatus → Bool
is_request ss_request = true
is_request ss_response = false

-- `handle_request` on the connection whose session is at `self`.
unfoldable pub handle_request : Platform → Protobuf → ℕ → ℕ → Connection → Outcome Handled
handle_request pf pb self sn c =
    if is_request c.session.session_stat
    then (do
      first ← (if is_reading_header c.session.req_stat then read_header pf c else ok (opened c))
      handle_message pf pb self sn first)
    else ok (handled (opened c) sn)
