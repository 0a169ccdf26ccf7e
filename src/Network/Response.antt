-- ===== src/Network/Response.antt =====
-- The responses: `handleAllResponseEvent` and `assembleResponse` of src/DispatchMsgService.cc,
-- `send_response_msg` and `handle_error` of src/NetworkInterface.cc. The sessions are kept by
-- address, with their connections; at an address whose session was freed there is none.
pub mod Assemble
pub mod Flush
use shared_bike.Base.{
  ℕ, ◌+◌, ◌%◌, ◌^◌, Bool, true, false, Option, none, some, List, [], ◌∷◌, ◌++◌, ◌==◌, leb,
  if◌then◌else◌, Bytes, length, take, Outcome, ok, fault, null_deref, out_of_bounds, use_after_free,
  write_chars, ◌>>=◌,
}
use shared_bike.Wire.{message_header_len, message_header, put_u16, put_u32}
use shared_bike.Protobuf.{Protobuf}
use shared_bike.Event.{
  Event, EventId, event_id, get_mobile_code_rsp, login_rsp, exit_rsp, byte_size, serialize_to_array,
}
use shared_bike.Session.{ConnectSession, session_reset}
use shared_bike.Network.{Platform, Connection, Callback, closed, opened, add_u32, close_connection}

-- `bufferevent_write(bev, p, n)`: `n` bytes from `p` join the output.
unfoldable pub bufferevent_write : Option Bytes → ℕ → Bytes → Outcome Bytes
bufferevent_write none n output = fault null_deref
bufferevent_write (some buf) n output =
    if leb n (length buf) then ok (output ++ take n buf) else fault out_of_bounds

unfoldable pub send_response_msg : Connection → Outcome Callback
unfolding close_connection session_reset
send_response_msg c = elim (c.session.response) [
  | none ↦ close_connection (c.session)
  | some _ ↦ do
    output ←
        bufferevent_write c.session.write_buf (add_u32 c.session.msg_len message_header_len)
          c.output
    ok (opened (record c { session = session_reset (c.session); output = output }))
]

unfoldable pub assemble_response :
    Platform → Protobuf → Event → EventId → Connection → Outcome Callback
assemble_response pf pb ev i c = do
  let len = byte_size pb ev.body % 2 ^ 32
  marked ← write_chars (pf.new_chars (add_u32 message_header_len len)) 0 message_header
  with_id ← write_chars marked 4 (put_u16 (event_id i))
  with_len ← write_chars with_id 6 (put_u32 len)
  (written, _) ← serialize_to_array pb ev.body with_len message_header_len len
  send_response_msg (record c {
    session = record (c.session) { response = some ev; msg_len = len; write_buf = some written };
  })

-- The sessions by address.
abbrev pub Sessions : Type 0
Sessions = ℕ → Option Connection

abbrev pub left_by : Callback → Option Connection
left_by closed = none
left_by (opened c) = some c

-- A call on the session at an address, and what it leaves there.
unfoldable pub on_session : Option ℕ → (Connection → Outcome Callback) → Sessions → Outcome Sessions
on_session none f ss = fault null_deref
on_session (some at) f ss = elim (ss at) [
  | none ↦ fault use_after_free
  | some c ↦ do cb ← f c; ok (λ b. if b == at then left_by cb else ss b)
]

-- One response event, taken off the queue.
unfoldable pub handle_response_event : Platform → Protobuf → Event → Sessions → Outcome Sessions
handle_response_event pf pb ev ss =
    if ev.eid == event_id get_mobile_code_rsp
    then on_session ev.args (assemble_response pf pb ev get_mobile_code_rsp) ss
    else if ev.eid == event_id login_rsp
    then on_session ev.args (assemble_response pf pb ev login_rsp) ss
    else if ev.eid == event_id exit_rsp
    then on_session ev.args
        (λ c. send_response_msg (record c { session = record (c.session) { response = some ev } }))
        ss
    else ok ss

-- The loop, which ends where the queue is empty.
unfoldable pub handle_all_response_event :
    Platform → Protobuf → List Event → Sessions → Outcome Sessions
handle_all_response_event pf pb [] ss = ok ss
handle_all_response_event pf pb (ev ∷ evs) ss =
    handle_response_event pf pb ev ss >>= handle_all_response_event pf pb evs

-- `network_event_dispatch`: `loop` is `event_base_loop`, which runs the callbacks, on the queue of
-- responses and the sessions. The queue is empty afterwards.
unfoldable pub network_event_dispatch :
    Platform
    → Protobuf
    → (List Event × Sessions → Outcome (List Event × Sessions))
    → List Event × Sessions
    → Outcome (List Event × Sessions)
network_event_dispatch pf pb loop state = do
  (evs, ss) ← loop state
  ss' ← handle_all_response_event pf pb evs ss
  ok ([], ss')

-- End of file, timeouts and errors all close the connection.
unfoldable pub handle_error : Connection → Outcome Callback
unfolding close_connection
handle_error c = close_connection (c.session)
