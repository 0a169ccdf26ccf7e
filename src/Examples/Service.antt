-- ===== src/Examples/Service.antt =====
-- A run of the whole server: one client connects, asks for a code and is answered, or hangs up.
use shared_bike.Base.{
  ℕ, ◌+◌, ◌≡◌, ◌<◌, ◌^◌, refl, arith, inl, true, false, Option, none, some, [], ◌∷◌, codes,
  get_elem?, bytes_eq, write_chars, blit, Outcome, ok, fault, use_after_free,
}
use shared_bike.Wire.{load_u16, load_u32}
use shared_bike.Event.{
  mobile_code_rsp_ev, Event, mobile_code_req_ev, byte_size, new_event, new_mobile_code_req_ev,
  new_mobile_code_rsp_ev, generate_seg_no, get_reason_by_error_code, reason_loop, eer,
}
use shared_bike.Session.{session_init}
use shared_bike.Dispatch.Parse.{parse_event}
use shared_bike.Dispatch.Process.{process, process_loop}
use shared_bike.Dispatch.Subscribers.{EventHandlersMap, find_handlers}
use shared_bike.User
use shared_bike.User.{
  verified, UserState, Codes, subscribe_all, find_code, store_code, code_gen,
  handle_mobile_code_req,
}
use shared_bike.Network.{
  Connection, listener_cb, handle_request, read_header, accept_header, handle_message, read_message,
  write_read_buf, accept_message,
}
use shared_bike.Network.Request.Hostile.{IsSound, SafeEnd, reads_header, handle_request-safe}
use shared_bike.Network.Request.Chunks.{receive}
use shared_bike.Network.Response.Flush.{IsReply}
use shared_bike.Server.{Server, Act, connects, arrives, serves, flushes, hangs_up, step, run}
use shared_bike.Server.Count.{count_for}
use shared_bike.Server.Invariant.{awaiting}
use shared_bike.Server.Safety.{started, Reach, here, next, one_event}
use shared_bike.Server.HangUp.{hang_up-use_after_free}
use shared_bike.Server.Codes.{user_handle, code_response}
use shared_bike.Client.Connect.{
  SocketAnswers, Sockets, Attempted, failure, tcp_connect_server, tcp_connect_server-closes,
}
use shared_bike.Examples.{plain_platform, plain_protobuf, fresh_connection}
use shared_bike.Examples.Users.{counting_sql, local_args, rand_five, nobody}

abbrev pub handlers : EventHandlersMap
handlers = (1, 6 ∷ []) ∷ (3, 6 ∷ []) ∷ []

abbrev pub start : Server (UserState ℕ)
start = started handlers nobody 0

abbrev or_start : Outcome (Server (UserState ℕ)) → Server (UserState ℕ)
or_start (ok s) = s
or_start (fault x) = start

abbrev pub next_state : Act → Server (UserState ℕ) → Server (UserState ℕ)
next_state act s =
    or_start
      (step plain_platform plain_protobuf (user_handle counting_sql rand_five local_args) act s)

abbrev pub connecting : Act
connecting = connects 9 7 8 (codes "1.2.3.4")

abbrev asking : Act
asking = arrives 9 (70 ∷ 66 ∷ 69 ∷ 66 ∷ 1 ∷ 0 ∷ 3 ∷ 0 ∷ 0 ∷ 0 ∷ 49 ∷ 56 ∷ 50 ∷ []) true

abbrev pub connected : Server (UserState ℕ)
connected = next_state connecting start

abbrev pub asked : Server (UserState ℕ)
asked = next_state asking connected

pub connected-Reach :
    Reach plain_platform plain_protobuf
      (user_handle counting_sql rand_five local_args)
      start
      connected
unfolding step listener_cb session_init write_chars blit
connected-Reach = next connecting here (refl, omega arith) refl

pub asked-Reach :
    Reach plain_platform plain_protobuf (user_handle counting_sql rand_five local_args) start asked
unfolding step listener_cb session_init write_chars blit handle_request read_header accept_header
    handle_message read_message write_read_buf accept_message parse_event new_mobile_code_req_ev
    new_event generate_seg_no bytes_eq load_u16 load_u32
asked-Reach = next asking connected-Reach tt refl

one_event_example :
    count_for 9 asked.outstanding
      + count_for 9 asked.service.response_events
      + count_for 9 asked.lost
    ≡ awaiting (asked.sessions 9)
one_event_example =
    one_event plain_platform plain_protobuf (user_handle counting_sql rand_five local_args)
      asked-Reach 9

abbrev pub or_fresh : Option Connection → Connection
or_fresh none = fresh_connection
or_fresh (some c) = c

abbrev pub asker : Connection
asker = or_fresh (asked.sessions 9)

abbrev pub question : Event
question = record {
  eid = 1;
  sn = 0;
  args = some 9;
  body = mobile_code_req_ev (record { mobile = codes "182" });
}

pub question-outstanding : get_elem? asked.outstanding 0 ≡ some question
unfolding step listener_cb session_init write_chars blit handle_request read_header accept_header
    handle_message read_message write_read_buf accept_message parse_event new_mobile_code_req_ev
    new_event generate_seg_no bytes_eq load_u16 load_u32
question-outstanding = refl

pub asker-found : asked.sessions 9 ≡ some asker
unfolding step listener_cb session_init write_chars blit handle_request read_header accept_header
    handle_message read_message write_read_buf accept_message parse_event new_mobile_code_req_ev
    new_event generate_seg_no bytes_eq load_u16 load_u32
asker-found = refl

pub handlers-one : find_handlers 1 asked.service.subscribers ≡ some (6 ∷ [])
unfolding step listener_cb session_init write_chars blit handle_request read_header accept_header
    handle_message read_message write_read_buf accept_message parse_event new_mobile_code_req_ev
    new_event generate_seg_no bytes_eq load_u16 load_u32 find_handlers
handlers-one = refl

response-small :
    10
      + plain_protobuf.mobile_response.byte_size
          (code_response counting_sql rand_five local_args asked.service.handlers)
    < 2 ^ 32
unfolding step listener_cb session_init write_chars blit handle_request read_header accept_header
    handle_message read_message write_read_buf accept_message parse_event new_mobile_code_req_ev
    new_event generate_seg_no bytes_eq load_u16 load_u32 get_reason_by_error_code reason_loop eer
response-small = omega arith

-- The answer to it, and what the handler is then.
abbrev pub answer : Event
answer = record {
  eid = 2;
  sn = 1;
  args = none;
  body = mobile_code_rsp_ev (code_response counting_sql rand_five local_args nobody);
}

abbrev pub told : UserState ℕ
told = record { m2c = (codes "182", 100005) ∷ []; world = 0 }

answered :
    process
      (user_handle counting_sql rand_five local_args)
      asked.service.subscribers
      (some question)
      (asked.service.handlers, asked.service.sn)
    ≡ ok (some answer, (told, 2))
unfolding step listener_cb session_init write_chars blit handle_request read_header accept_header
    handle_message read_message write_read_buf accept_message parse_event new_mobile_code_req_ev
    new_event generate_seg_no bytes_eq load_u16 load_u32 find_handlers process process_loop
    User.handle handle_mobile_code_req new_mobile_code_rsp_ev get_reason_by_error_code reason_loop
    eer store_code code_gen
answered = refl

pub answer-IsReply : IsReply plain_protobuf answer
unfolding byte_size get_reason_by_error_code reason_loop eer
answer-IsReply = record { eid = inl refl; small = omega arith }

service-open : asked.service.svr_exit ≡ false
unfolding step listener_cb session_init write_chars blit handle_request read_header accept_header
    handle_message read_message write_read_buf accept_message parse_event new_mobile_code_req_ev
    new_event generate_seg_no bytes_eq load_u16 load_u32
service-open = refl

no_response : asked.service.response_events ≡ []
unfolding step listener_cb session_init write_chars blit handle_request read_header accept_header
    handle_message read_message write_read_buf accept_message parse_event new_mobile_code_req_ev
    new_event generate_seg_no bytes_eq load_u16 load_u32
no_response = refl

hang_up-use_after_free_example :
    run plain_platform plain_protobuf
      (user_handle counting_sql rand_five local_args)
      (hangs_up 9 ∷ serves 0 ∷ flushes ∷ [])
      asked
    ≡ fault use_after_free
hang_up-use_after_free_example =
    hang_up-use_after_free plain_platform plain_protobuf
      (user_handle counting_sql rand_five local_args) asked 0 9 asker question answer told 2
      service-open no_response asker-found question-outstanding refl answered answer-IsReply

fresh-IsSound : IsSound fresh_connection.session
unfolding session_init
fresh-IsSound = record {
  doing = reads_header [] (record {
    session_stat = refl;
    req_stat = refl;
    len = refl;
    short = omega arith;
    buffer = record { size_eq = refl; prefix = refl };
  });
  header = refl;
}

abbrev garbage : Connection
garbage = receive fresh_connection (codes "GET / HTTP/1.1")

handle_request-safe_example :
    SafeEnd 9 garbage (handle_request plain_platform plain_protobuf 9 0 garbage)
handle_request-safe_example =
    handle_request-safe plain_platform plain_protobuf 9 0 garbage
      (record { doing = fresh-IsSound.doing; header = fresh-IsSound.header })

-- A server that refuses the connection.
abbrev refusing : SocketAnswers
refusing = record {
  inet_aton = λ ip. some 16777343;
  socket = some 3;
  socket_errno = 0;
  connect_errno = λ fd addr port. some 111;
  close_errno = 9;
}

abbrev three_open : Sockets
three_open = record { open_fds = 2 ∷ 1 ∷ 0 ∷ []; errno = 0 }

tcp_connect_server-closes_example :
    Attempted
      (failure refusing (codes "127.0.0.1") 9090)
      refusing
      three_open
      (tcp_connect_server refusing (codes "127.0.0.1") 9090 three_open)
tcp_connect_server-closes_example =
    tcp_connect_server-closes refusing (codes "127.0.0.1") 9090 three_open
