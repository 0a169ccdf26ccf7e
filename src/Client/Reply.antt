-- ===== src/Client/Reply.antt =====
-- The server's answer to a request for a code, as `server_msg_cb` of src/client/client.cc reads it.
use shared_bike.Base.{
  ℕ, ◌+◌, ◌^◌, ◌<◌, ◌≡◌, refl, sym, ap, ◌∙◌, true, false, some, [], ◌∷◌, ◌++◌, leb, arith,
  append_assoc, Bytes, bytes_eq, length, length-append, take, drop, take-append-drop,
  append_cancel_take, write_chars_lem, ok,
}
use shared_bike.Wire.{message_header, put_u16, put_u32, load_u16, load_u32, frame}
use shared_bike.Wire.RoundTrip.{load_u32-put_u32}
use shared_bike.Protobuf.{Protobuf, MobileResponse, FitsMobileResponse}
use shared_bike.Client.{running, parse_icode, read_response, server_msg_cb}

length-frame : (eid : ℕ) (body : Bytes) → length (frame eid body) ≡ 10 + length body
unfolding frame put_u16 put_u32
length-frame eid body = omega arith

-- The parts of a response that `server_msg_cb` looks at.
frame_magic : (body rest : Bytes) → take 4 (frame 2 body ++ rest) ≡ message_header
unfolding frame
frame_magic body rest = refl

frame_eid : (body rest : Bytes) → load_u16 (drop 4 (frame 2 body ++ rest)) ≡ 2
unfolding frame put_u16 load_u16
frame_eid body rest = refl

frame_len :
    (body rest : Bytes) → drop 6 (frame 2 body ++ rest) ≡ put_u32 (length body) ++ (body ++ rest)
unfolding frame put_u16 put_u32
frame_len body rest = refl

frame_body : (body rest : Bytes) → drop 10 (frame 2 body ++ rest) ≡ body ++ rest
unfolding frame put_u16 put_u32
frame_body body rest = refl

-- A buffer into which `f` and then a zero were written.
pub ended_with :
    (msg b1 b2 f : Bytes) (n : ℕ)
    → take (0 + n) b1 ≡ take 0 msg ++ f
    → take (n + 1) b2 ≡ take n b1 ++ 0 ∷ []
    → b2 ≡ f ++ 0 ∷ drop (n + 1) b2
ended_with msg b1 b2 f n t1 t2 =
    let rest = drop (n + 1) b2 in
    let same : n ≡ 0 + n = omega arith in
    let front : take n b1 ≡ f = ap (λ (k : ℕ). take k b1) same ∙ t1 in
    sym (take-append-drop (n + 1) b2)
    ∙ (ap (λ (f' : Bytes). f' ++ rest) t2
        ∙ (append_assoc (take n b1) (0 ∷ []) rest ∙ ap (λ (f' : Bytes). f' ++ 0 ∷ rest) front))

module _ (pb : Protobuf) (partial : Bytes → MobileResponse) (m : MobileResponse) (body : Bytes)
    (serialized : pb.mobile_response.serialize m ≡ body) (fits : FitsMobileResponse m) where
  parse_icode_lem :
      (rest : Bytes)
      → length body < 2 ^ 31
      → parse_icode pb partial (frame 2 body ++ rest) (length body) ≡ ok m.icode
  unfolding parse_icode
  parse_icode_lem rest small =
      let positive : leb (2 ^ 31) (length body) ≡ false = ground arith in
      let room : leb (10 + length body) (length (frame 2 body ++ rest)) ≡ true =
        ground (arith, length-append (frame 2 body) rest, length-frame 2 body) in
      let parsed : pb.mobile_response.parse body ≡ some m =
        ap (λ (b : Bytes). pb.mobile_response.parse b) (sym serialized)
        ∙ pb.mobile_response.parse-serialize m fits in
      rw (
        positive,
        room,
        frame_body body rest,
        append_cancel_take body rest (length body) refl,
        parsed,
      )

  read_response_lem :
      (rest output : Bytes) (icode : ℕ)
      → length body < 2 ^ 31
      → read_response pb partial (frame 2 body ++ rest) output icode ≡ ok (running output m.icode)
  unfolding read_response bytes_eq
  read_response_lem rest output icode small =
      let len : load_u32 (drop 6 (frame 2 body ++ rest)) ≡ length body =
        ap load_u32 (frame_len body rest)
        ∙ load_u32-put_u32 (length body) (body ++ rest) (omega (arith, small)) in
      rw (frame_magic body rest, frame_eid body rest, len, parse_icode_lem rest small)

  reply_read :
      (msg bytes output : Bytes) (icode : ℕ)
      → frame 2 body ≡ bytes
      → length msg ≡ 1024
      → 10 + length body < 1024
      → server_msg_cb pb partial msg bytes output icode ≡ ok (running output m.icode)
  unfolding server_msg_cb
  reply_read msg [] output icode e size small =
      absurd (omega (arith, ap length e, length-frame 2 body))
  reply_read msg (b ∷ got) output icode e size small =
      let n = length (b ∷ got) in
      let count : n ≡ 10 + length body = sym (ap length e) ∙ length-frame 2 body in
      let (b1, w1, l1, t1) =
        write_chars_lem msg 1024 0 n (b ∷ got) size refl (omega (arith, count, small)) in
      let (b2, w2, l2, t2) =
        write_chars_lem b1 1024 n 1 (0 ∷ []) l1 refl (omega (arith, count, small)) in
      let rest = 0 ∷ drop (n + 1) b2 in
      let whole : b2 ≡ frame 2 body ++ rest =
        ended_with msg b1 b2 (b ∷ got) n t1 t2 ∙ ap (λ (f : Bytes). f ++ rest) (sym e) in
      let fits_length : length body < 2 ^ 31 = omega (arith, small) in
      rw (w1, w2)
        ((λ k. read_response pb partial (whole k) output icode)
          ∙ read_response_lem rest output icode fits_length)

-- The client takes the code out of the response to its request, when the response comes in one
-- read and leaves room in the client's array.
pub server_msg_cb-frame :
    (pb : Protobuf) (partial : Bytes → MobileResponse) (m : MobileResponse) (msg output : Bytes)
    (icode : ℕ)
    → FitsMobileResponse m
    → length msg ≡ 1024
    → 10 + length (pb.mobile_response.serialize m) < 1024
    → server_msg_cb pb partial msg (frame 2 (pb.mobile_response.serialize m)) output icode
      ≡ ok (running output m.icode)
server_msg_cb-frame pb partial m msg output icode fits size small =
    reply_read pb partial m (pb.mobile_response.serialize m) refl fits msg
      (frame 2 (pb.mobile_response.serialize m)) output icode refl size small
