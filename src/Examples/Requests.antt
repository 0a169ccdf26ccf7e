-- ===== src/Examples/Requests.antt =====
-- Runs of the requests and responses of one connection, and of the dispatch between them.
use shared_bike.Base.{
  replicate, ◌∙◌, ap, ◌≤◌, ◌+◌, ℕ, ◌≡◌, refl, inl, arith, none, some, List, [], ◌∷◌, Bytes, codes,
  length, ok, if◌then◌else◌, ◌==◌,
}
use shared_bike.Wire.{put_u16, put_u32, frame}
use shared_bike.Event.{
  login_req_ev, serialized, new_login_req_ev, byte_size, Event, mobile_code_rsp_ev,
  new_mobile_code_req_ev,
}
use shared_bike.Session.{session_init, ss_response}
use shared_bike.Dispatch.Parse.{parse_event, parse-mobile_request}
use shared_bike.Network.{Connection, opened}
use shared_bike.Network.Request.Body.{IsAnswering}
use shared_bike.Network.Request.Chunks.Whole.{feed, fed_of, feed-frame, joined, IsReady}
use shared_bike.Network.Response.{Sessions, handle_all_response_event}
use shared_bike.Network.Response.Flush.{Answered, AllReady, IsReply, IsAddressed, flush-replies}
use shared_bike.Protobuf.{LoginRequest}
use shared_bike.Event.Typing.{IsTyped}
use shared_bike.User.Types.{parse_event-IsTyped}
use shared_bike.Client.{send_request}
use shared_bike.Client.EndToEnd.{send_request_lem, client_login-served}
use shared_bike.Examples.{plain_platform, plain_protobuf, fresh_connection}

abbrev body : Bytes
body = codes "182"

-- The request in three pieces, one of them empty.
abbrev pieces : List Bytes
pieces = codes "FB" ∷ [] ∷ (69 ∷ 66 ∷ 1 ∷ 0 ∷ 3 ∷ 0 ∷ []) ∷ (0 ∷ 0 ∷ 49 ∷ 56 ∷ 50 ∷ []) ∷ []

pieces-frame : joined pieces ≡ frame 1 body
unfolding frame put_u16 put_u32
pieces-frame = refl

fresh-IsReady : IsReady fresh_connection
unfolding session_init
fresh-IsReady = record {
  session = record {
    session_stat = refl;
    req_stat = refl;
    len = refl;
    short = omega arith;
    buffer = record { size_eq = refl; prefix = refl };
  };
  input = refl;
}

feed-frame_example :
    (c' : Connection) × (feed plain_platform plain_protobuf 9 pieces 0 fresh_connection
      ≡ fed_of plain_platform plain_protobuf 9
          (parse_event plain_protobuf (some body) (length body) 1 0)
          c')
    × IsAnswering c'.session
    × (c'.input ≡ [])
    × (c'.output ≡ fresh_connection.output)
feed-frame_example =
    feed-frame plain_platform plain_protobuf 9 0 1 body pieces fresh_connection (omega arith)
      (omega arith) (omega arith) fresh-IsReady pieces-frame

-- The connection of a session that awaits its response.
abbrev awaiting : Connection
awaiting = record {
  session = record (session_init 7 8) { session_stat = ss_response };
  input = [];
  output = [];
}

abbrev reply : Event
reply = record {
  eid = 2;
  sn = 1;
  args = some 9;
  body = mobile_code_rsp_ev (record { code = 200; icode = 123456; data_ = codes "T_OK." });
}

abbrev one_session : Sessions
one_session a = if a == 9 then some awaiting else none

replies-AllReady : AllReady plain_protobuf one_session (reply ∷ reply ∷ [])
unfolding byte_size
replies-AllReady =
    let one : IsReply plain_protobuf reply = record { eid = inl refl; small = omega arith } in
    let to : IsAddressed one_session reply = record {
      at = 9;
      connection = awaiting;
      args = refl;
      found = refl;
    } in
    (one, to, (one, to, tt))

flush-replies_example :
    (ss' : Sessions) × (handle_all_response_event plain_platform plain_protobuf
        (reply ∷ reply ∷ [])
        one_session
      ≡ ok ss')
    × ((at : ℕ) → Answered plain_protobuf (reply ∷ reply ∷ []) at (one_session at) (ss' at))
flush-replies_example =
    flush-replies plain_platform plain_protobuf (reply ∷ reply ∷ []) one_session replies-AllReady

-- The client's own login, and the array that it is written into.
abbrev login : LoginRequest
login = record { mobile = codes "18266666666"; icode = 5 }

abbrev client_msg : Bytes
client_msg = replicate 1024 0

abbrev login_pieces : List Bytes
login_pieces =
    (70 ∷ 66 ∷ 69 ∷ 66 ∷ 3 ∷ 0 ∷ 12 ∷ 0 ∷ [])
    ∷ (0 ∷ 0 ∷ 5 ∷ 49 ∷ 56 ∷ 50 ∷ 54 ∷ 54 ∷ 54 ∷ 54 ∷ 54 ∷ 54 ∷ 54 ∷ 54 ∷ [])
    ∷ []

login-frame : frame 3 (serialized plain_protobuf (login_req_ev login)) ≡ joined login_pieces
unfolding frame put_u16 put_u32 serialized
login-frame = refl

login-fits :
    (1 ≤ byte_size plain_protobuf (login_req_ev login))
    × (10 + byte_size plain_protobuf (login_req_ev login) ≤ 1024)
unfolding byte_size
login-fits = (omega arith, omega arith)

login-sent :
    send_request plain_protobuf client_msg 3 (login_req_ev login) [] ≡ ok (joined login_pieces)
login-sent =
    send_request_lem plain_protobuf client_msg 3 (login_req_ev login) [] refl login-fits.1
    ∙ ap (λ (b : Bytes). ok b) login-frame

client_login-served_example :
    (c' : Connection) × (feed plain_platform plain_protobuf 9 login_pieces 0 fresh_connection ≡ (
      let (ev, next) = new_login_req_ev login.mobile 5 0 in
      ok (record { callback = opened c'; enqueued = record ev { args = some 9 } ∷ []; sn = next })))
    × IsAnswering c'.session
    × (c'.input ≡ [])
    × (c'.output ≡ [])
client_login-served_example =
    client_login-served plain_platform plain_protobuf 9 0 client_msg login login_pieces
      fresh_connection refl login-fits.0 login-fits.1 (omega arith) fresh-IsReady login-sent

parse_event-IsTyped_example :
    IsTyped (new_mobile_code_req_ev body 0).0 × ((new_mobile_code_req_ev body 0).0.eid ≡ 1)
unfolding new_mobile_code_req_ev
parse_event-IsTyped_example =
    parse_event-IsTyped plain_protobuf (some body) 3 1 0 1 (new_mobile_code_req_ev body 0).0
      (parse-mobile_request plain_protobuf (record { mobile = body }) 0)
