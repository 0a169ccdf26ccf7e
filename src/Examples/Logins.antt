-- ===== src/Examples/Logins.antt =====
-- A client that is told its code, one that guesses, and one whose request is refused.
use shared_bike.Base.{
  replicate, length, ℕ, ◌+◌, ◌≡◌, ◌<◌, ◌≤◌, ◌^◌, refl, arith, true, false, some, [], ◌∷◌, ◌++◌,
  codes, get_elem?, bytes_eq, write_chars, blit, ok,
}
use shared_bike.Wire.{frame, load_u16, load_u32}
use shared_bike.Event.{
  new_login_req_ev, login_rsp, login_req_ev, Event, event_id, new_event, new_mobile_code_req_ev,
  generate_seg_no, get_reason_by_error_code, reason_loop, eer,
}
use shared_bike.Session.{session_init}
use shared_bike.Dispatch.Parse.{parse_event}
use shared_bike.Dispatch.Subscribers.{find_handlers}
use shared_bike.User.{verified, UserState, find_code}
use shared_bike.Network.{
  Connection, listener_cb, handle_request, read_header, accept_header, handle_message, read_message,
  write_read_buf, accept_message,
}
use shared_bike.Network.Response.Flush.{IsReset}
use shared_bike.Server.{Server, Act, arrives, serves, flushes, step, run}
use shared_bike.Server.Safety.{here, Reach, next}
use shared_bike.Server.Refused.{refused-stuck}
use shared_bike.Server.Invariant.{awaiting}
use shared_bike.Server.Count.{count_for}
use shared_bike.Network.Response.{handle_all_response_event}
use shared_bike.Server.Logins.{refusal, code-reaches_client, login-refused}
use shared_bike.Server.Codes.{user_handle, code_response}
use shared_bike.Client.{Client, running, server_msg_cb}
use shared_bike.Examples.{plain_platform, plain_protobuf}
use shared_bike.Examples.Users.{counting_sql, local_args, rand_five, nobody}
use shared_bike.Examples.Service.{
  connected, connected-Reach, asked, asked-Reach, or_fresh, asker, question, question-outstanding,
  asker-found, handlers-one, start, next_state,
}

nothing_before : asker.output ≡ []
unfolding step listener_cb session_init write_chars blit handle_request read_header accept_header
    handle_message read_message write_read_buf accept_message parse_event new_mobile_code_req_ev
    new_event generate_seg_no bytes_eq load_u16 load_u32
nothing_before = refl

response-short :
    10
      + length (
          plain_protobuf.mobile_response.serialize
            (code_response counting_sql rand_five local_args asked.service.handlers))
    < 1024
unfolding step listener_cb session_init write_chars blit handle_request read_header accept_header
    handle_message read_message write_read_buf accept_message parse_event new_mobile_code_req_ev
    new_event generate_seg_no bytes_eq load_u16 load_u32 get_reason_by_error_code reason_loop eer
response-short = omega arith

code-reaches_client_example :
    (t : Server (UserState ℕ)) × (c' : Connection) × (taken : ℕ) × (run plain_platform
        plain_protobuf
        (user_handle counting_sql rand_five local_args)
        (serves 0 ∷ flushes ∷ [])
        asked
      ≡ ok t)
    × (t.sessions 9 ≡ some c')
    × (server_msg_cb plain_protobuf
          (λ b. code_response counting_sql rand_five local_args nobody)
          (replicate 1024 0)
          c'.output
          []
          0
        ≡ ok (running [] taken))
    × (find_code (codes "182") t.service.handlers.m2c ≡ some taken)
code-reaches_client_example =
    code-reaches_client counting_sql rand_five local_args plain_platform plain_protobuf asked-Reach
      0 9 asker question 6 (codes "182") question-outstanding refl refl refl handlers-one
      asker-found nothing_before response-short
      (λ b. code_response counting_sql rand_five local_args nobody) (replicate 1024 0) [] 0 refl

-- A login that nobody was sent a code for.
abbrev guessing : Act
guessing = arrives 9 (70 ∷ 66 ∷ 69 ∷ 66 ∷ 3 ∷ 0 ∷ 4 ∷ 0 ∷ 0 ∷ 0 ∷ 5 ∷ 49 ∷ 56 ∷ 50 ∷ []) true

abbrev guessed : Server (UserState ℕ)
guessed = next_state guessing connected

abbrev guesser : Connection
guesser = or_fresh (guessed.sessions 9)

abbrev guess : Event
guess = record {
  eid = 3;
  sn = 0;
  args = some 9;
  body = login_req_ev (record { mobile = codes "182"; icode = 5 });
}

guessed-Reach :
    Reach plain_platform plain_protobuf
      (user_handle counting_sql rand_five local_args)
      start
      guessed
unfolding step listener_cb session_init write_chars blit handle_request read_header accept_header
    handle_message read_message write_read_buf accept_message parse_event new_mobile_code_req_ev
    new_event generate_seg_no bytes_eq load_u16 load_u32 new_login_req_ev
guessed-Reach = next guessing connected-Reach tt refl

guess-outstanding : get_elem? guessed.outstanding 0 ≡ some guess
unfolding step listener_cb session_init write_chars blit handle_request read_header accept_header
    handle_message read_message write_read_buf accept_message parse_event new_mobile_code_req_ev
    new_event generate_seg_no bytes_eq load_u16 load_u32 new_login_req_ev
guess-outstanding = refl

guesser-found : guessed.sessions 9 ≡ some guesser
unfolding step listener_cb session_init write_chars blit handle_request read_header accept_header
    handle_message read_message write_read_buf accept_message parse_event new_mobile_code_req_ev
    new_event generate_seg_no bytes_eq load_u16 load_u32 new_login_req_ev
guesser-found = refl

logins-one : find_handlers 3 guessed.service.subscribers ≡ some (6 ∷ [])
unfolding step listener_cb session_init write_chars blit handle_request read_header accept_header
    handle_message read_message write_read_buf accept_message parse_event new_mobile_code_req_ev
    new_event generate_seg_no bytes_eq load_u16 load_u32 new_login_req_ev find_handlers
logins-one = refl

guess-wrong : verified (find_code (codes "182") guessed.service.handlers.m2c) 5 ≡ false
unfolding step listener_cb session_init write_chars blit handle_request read_header accept_header
    handle_message read_message write_read_buf accept_message parse_event new_mobile_code_req_ev
    new_event generate_seg_no bytes_eq load_u16 load_u32 new_login_req_ev find_code verified
guess-wrong = refl

refusal-small :
    10 + plain_protobuf.login_response.byte_size (refusal counting_sql rand_five local_args)
    < 2 ^ 32
unfolding get_reason_by_error_code reason_loop eer
refusal-small = omega arith

login-refused_example :
    (t : Server (UserState ℕ)) × (c' : Connection) × (run plain_platform plain_protobuf
        (user_handle counting_sql rand_five local_args)
        (serves 0 ∷ flushes ∷ [])
        guessed
      ≡ ok t)
    × (t.sessions 9 ≡ some c')
    × IsReset guesser.session c'.session
    × (c'.output
        ≡ guesser.output
          ++ frame
              (event_id login_rsp)
              (plain_protobuf.login_response.serialize (refusal counting_sql rand_five local_args)))
    × (t.service.handlers ≡ guessed.service.handlers)
login-refused_example =
    login-refused counting_sql rand_five local_args plain_platform plain_protobuf guessed-Reach 0 9
      guesser guess 6 (record { mobile = codes "182"; icode = 5 }) guess-outstanding refl refl refl
      logins-one guesser-found guess-wrong refusal-small

-- The same request for a code, with a pool that is full.
abbrev refusing : Act
refusing = arrives 9 (70 ∷ 66 ∷ 69 ∷ 66 ∷ 1 ∷ 0 ∷ 3 ∷ 0 ∷ 0 ∷ 0 ∷ 49 ∷ 56 ∷ 50 ∷ []) false

abbrev refused : Server (UserState ℕ)
refused = next_state refusing connected

refused-Reach :
    Reach plain_platform plain_protobuf
      (user_handle counting_sql rand_five local_args)
      start
      refused
unfolding step listener_cb session_init write_chars blit handle_request read_header accept_header
    handle_message read_message write_read_buf accept_message parse_event new_mobile_code_req_ev
    new_event generate_seg_no bytes_eq load_u16 load_u32
refused-Reach = next refusing connected-Reach tt refl

refused-lost : 1 ≤ count_for 9 refused.lost
unfolding step listener_cb session_init write_chars blit handle_request read_header accept_header
    handle_message read_message write_read_buf accept_message parse_event new_mobile_code_req_ev
    new_event generate_seg_no bytes_eq load_u16 load_u32
refused-lost = omega arith

abbrev flushed : Server (UserState ℕ)
flushed = next_state flushes refused

flushed-Reach :
    Reach plain_platform plain_protobuf
      (user_handle counting_sql rand_five local_args)
      refused
      flushed
unfolding step listener_cb session_init write_chars blit handle_request read_header accept_header
    handle_message read_message write_read_buf accept_message parse_event new_mobile_code_req_ev
    new_event generate_seg_no bytes_eq load_u16 load_u32 handle_all_response_event
flushed-Reach = next flushes here tt refl

refused-stuck_example :
    (awaiting (flushed.sessions 9) ≡ 1)
    × (count_for 9 flushed.outstanding ≡ 0)
    × (count_for 9 flushed.service.response_events ≡ 0)
refused-stuck_example =
    refused-stuck plain_platform plain_protobuf (user_handle counting_sql rand_five local_args)
      refused-Reach 9 refused-lost flushed-Reach
