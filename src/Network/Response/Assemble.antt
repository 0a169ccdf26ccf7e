-- ===== src/Network/Response/Assemble.antt =====
-- The frame that `assembleResponse` of src/DispatchMsgService.cc builds and sends.
use shared_bike.Base.{
  ℕ, ◌+◌, ◌%◌, ◌^◌, ◌<◌, ◌≤◌, ◌≡◌, refl, sym, ◌∙◌, true, some, ◌++◌, leb, arith, Bytes, length,
  take, write_chars, write_chars_lem, ok,
}
use shared_bike.Wire.{message_header_len, message_header, put_u16, put_u32, frame}
use shared_bike.Protobuf.{Protobuf}
use shared_bike.Event.{
  Event, EventId, EventBody, mobile_code_req_ev, mobile_code_rsp_ev, exit_rsp_ev, login_req_ev,
  login_rsp_ev, event_id, byte_size, serialized, serialize_to_array,
}
use shared_bike.Session.{session_reset}
use shared_bike.Network.{Platform, Connection, opened, add_u32}
use shared_bike.Network.Response.{bufferevent_write, send_response_msg, assemble_response}

-- `ByteSize` is the number of bytes that are written.
pub length-serialized :
    (pb : Protobuf) (body : EventBody) → length (serialized pb body) ≡ byte_size pb body
unfolding serialized byte_size
length-serialized pb (mobile_code_req_ev m) = pb.mobile_request.length-serialize m
length-serialized pb (mobile_code_rsp_ev m) = pb.mobile_response.length-serialize m
length-serialized pb exit_rsp_ev = refl
length-serialized pb (login_req_ev m) = pb.login_request.length-serialize m
length-serialized pb (login_rsp_ev m) = pb.login_response.length-serialize m

length-put_u32 : (v : ℕ) → length (put_u32 v) ≡ 4
unfolding put_u32
length-put_u32 v = refl

length-put_u16 : (v : ℕ) → length (put_u16 v) ≡ 2
unfolding put_u16
length-put_u16 v = refl

frame-parts :
    (eid n : ℕ) (body : Bytes)
    → length body ≡ n
    → ((message_header ++ put_u16 eid) ++ put_u32 n) ++ body ≡ frame eid body
unfolding frame put_u16 put_u32
frame-parts eid n body size = λ k. message_header ++ put_u16 eid ++ put_u32 (sym size k) ++ body

-- The four writes of a frame into a buffer that has room for it.
pub frame_written :
    (buf : Bytes) (size eid n : ℕ) (body : Bytes)
    → length buf ≡ size
    → 10 + n ≤ size
    → length body ≡ n
    → (b1 b2 b3 b4 : Bytes) × (write_chars buf 0 message_header ≡ ok b1)
      × (write_chars b1 4 (put_u16 eid) ≡ ok b2)
      × (write_chars b2 6 (put_u32 n) ≡ ok b3)
      × (write_chars b3 10 body ≡ ok b4)
      × (length b4 ≡ size)
      × (take (10 + n) b4 ≡ frame eid body)
frame_written buf size eid n body e room body_size =
    let (b1, w1, l1, t1) =
      write_chars_lem buf size 0 4 message_header e refl (omega (arith, room)) in
    let (b2, w2, l2, t2) =
      write_chars_lem b1 size 4 2 (put_u16 eid) l1 (length-put_u16 eid) (omega (arith, room)) in
    let (b3, w3, l3, t3) =
      write_chars_lem b2 size 6 4 (put_u32 n) l2 (length-put_u32 n) (omega (arith, room)) in
    let (b4, w4, l4, t4) = write_chars_lem b3 size 10 n body l3 body_size room in
    let header : take 10 b3 ≡ (message_header ++ put_u16 eid) ++ put_u32 n =
      t3 ∙ (λ k. (t2 ∙ (λ j. t1 j ++ put_u16 eid)) k ++ put_u32 n) in
    (
      b1,
      b2,
      b3,
      b4,
      w1,
      w2,
      w3,
      w4,
      l4,
      t4 ∙ ((λ k. header k ++ body) ∙ frame-parts eid n body body_size),
    )

exact_room : (n : ℕ) → 10 + n ≤ 10 + n
exact_room n = omega arith

-- A response of at most 2 ^ 32 - 11 bytes goes out as its frame, behind what the output holds, and
-- the session is reset.
pub assemble_response_lem :
    (pf : Platform) (pb : Protobuf) (ev : Event) (i : EventId) (c : Connection)
    → 10 + byte_size pb ev.body < 2 ^ 32
    → assemble_response pf pb ev i c
      ≡ ok (
          opened (record c {
            session = session_reset (record (c.session) { response = some ev });
            output = c.output ++ frame (event_id i) (serialized pb ev.body);
          }))
unfolding assemble_response serialize_to_array send_response_msg bufferevent_write
assemble_response_lem pf pb ev i c small =
    let n = byte_size pb ev.body in
    let size = length-serialized pb ev.body in
    let len : byte_size pb ev.body % 2 ^ 32 ≡ n = omega (arith, small) in
    let room : add_u32 message_header_len n ≡ 10 + n = omega (arith, small) in
    let room' : add_u32 n message_header_len ≡ 10 + n = omega (arith, small) in
    let (b1, b2, b3, b4, w1, w2, w3, w4, l4, bytes) =
      frame_written (pf.new_chars (10 + n)) (10 + n) (event_id i) n (serialized pb ev.body)
        (pf.length-new_chars (10 + n)) (exact_room n) size in
    let fits : leb n n ≡ true = ground arith in
    let all : leb (10 + n) (length b4) ≡ true = ground (arith, l4) in
    rw (len, room, w1, w2, w3, fits, w4, room', all, bytes)
