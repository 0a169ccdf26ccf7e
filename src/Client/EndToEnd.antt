-- ===== src/Client/EndToEnd.antt =====
-- From the client of src/client/client.cc to the event that the server posts.
use shared_bike.Base.{
  ℕ, ◌+◌, ◌%◌, ◌^◌, ◌≤◌, ◌≡◌, sym, ap, ◌∙◌, true, some, List, [], ◌∷◌, ◌++◌, leb, arith, Bytes,
  length, Outcome, ok, fault,
}
use shared_bike.Wire.{message_header_len, frame}
use shared_bike.Protobuf.{Protobuf, LoginRequest, FitsLoginRequest}
use shared_bike.Event.{
  EventBody, login_req_ev, byte_size, serialized, serialize_to_array, new_login_req_ev,
}
use shared_bike.Dispatch.Parse.{parse-login_request}
use shared_bike.Network.{Platform, Connection, add_u32, opened}
use shared_bike.Network.Response.{bufferevent_write}
use shared_bike.Network.Response.Assemble.{length-serialized, frame_written}
use shared_bike.Network.Request.Body.{IsAnswering}
use shared_bike.Network.Request.Chunks.Whole.{feed, feed-frame, joined, IsReady}
use shared_bike.Client.{send_request}

-- What the client writes for a request that fits its array is the frame that the server reads.
pub send_request_lem :
    (pb : Protobuf) (msg : Bytes) (eid : ℕ) (body : EventBody) (output : Bytes)
    → length msg ≡ 1024
    → 10 + byte_size pb body ≤ 1024
    → send_request pb msg eid body output ≡ ok (output ++ frame eid (serialized pb body))
unfolding send_request serialize_to_array bufferevent_write
send_request_lem pb msg eid body output e small =
    let n = byte_size pb body in
    let size = length-serialized pb body in
    let len : byte_size pb body % 2 ^ 32 ≡ n = omega (arith, small) in
    let room : add_u32 n message_header_len ≡ 10 + n = omega (arith, small) in
    let (b1, b2, b3, b4, w1, w2, w3, w4, l4, bytes) =
      frame_written msg 1024 eid n (serialized pb body) e small size in
    let fits : leb n n ≡ true = ground arith in
    let all : leb (10 + n) (length b4) ≡ true = ground (arith, l4, small) in
    rw (len, w1, w2, w3, fits, w4, room, all, bytes)

or_empty : Outcome Bytes → Bytes
or_empty (ok b) = b
or_empty (fault x) = []

-- A login request that is not empty and fits the client's array, that the client writes and that
-- reaches a ready connection in any pieces, becomes one event with its number and its code, for
-- that connection's session, which then awaits its response; nothing is left unread.
pub client_login-served :
    (pf : Platform) (pb : Protobuf) (self sn : ℕ) (msg : Bytes) (m : LoginRequest)
    (chunks : List Bytes) (c : Connection)
    → length msg ≡ 1024
    → 1 ≤ byte_size pb (login_req_ev m)
    → 10 + byte_size pb (login_req_ev m) ≤ 1024
    → FitsLoginRequest m
    → IsReady c
    → send_request pb msg 3 (login_req_ev m) [] ≡ ok (joined chunks)
    → (c' : Connection) × (feed pf pb self chunks sn c ≡ (
        let (ev, next) = new_login_req_ev m.mobile m.icode sn in
        ok (record {
          callback = opened c';
          enqueued = record ev { args = some self } ∷ [];
          sn = next;
        })))
      × IsAnswering c'.session
      × (c'.input ≡ [])
      × (c'.output ≡ c.output)
unfolding or_empty serialized byte_size
client_login-served pf pb self sn msg m chunks c e some_bytes small fits ready sent =
    let body = pb.login_request.serialize m in
    let size : length body ≡ pb.login_request.byte_size m = pb.login_request.length-serialize m in
    let whole : joined chunks ≡ frame 3 body =
      ap or_empty (sym sent ∙ send_request_lem pb msg 3 (login_req_ev m) [] e small) in
    let (c', r, a, empty, out) =
      feed-frame pf pb self sn 3 body chunks c (omega arith) (omega (arith, size, some_bytes))
        (omega (arith, size, small)) ready whole in
    (c', r ∙ rw (parse-login_request pb m sn fits), a, empty, out)
