-- ===== src/Server/Logins.antt =====
-- From a request for a code to the login with it, through the server of src/ and its test client.
use shared_bike.Base.{
  inr, ◌^◌, ◌<◌, ℕ, ◌+◌, ◌≡◌, refl, ap, ◌∙◌, true, some, none, [], ◌∷◌, ◌++◌, ◌==◌, arith, Bytes,
  get_elem?, ok,
}
use shared_bike.Protobuf.{Protobuf}
use shared_bike.Event.{Event, event_id, byte_size}
use shared_bike.Dispatch.Process.{process}
use shared_bike.Network.{Platform, Connection}
use shared_bike.Network.Response.Flush.{IsReply, IsReset}
use shared_bike.Server.{Server, serves, flushes}
use shared_bike.Wire.{frame}
use shared_bike.Event.{serialized}
use shared_bike.Dispatch.Subscribers.{EventHandlersMap}
use shared_bike.Server.{run}
use shared_bike.Base.{◌%◌, ◌≢◌}
use shared_bike.Protobuf.{MobileResponse}
use shared_bike.Event.{
  mobile_code_req_ev, get_mobile_code_req, error_code, unknown, reason_text,
  get_reason_by_error_code,
}
use shared_bike.Database.{Mysql, ConnectArgs}
use shared_bike.Dispatch.Subscribers.{HandlerPtr, find_handlers}
use shared_bike.Dispatch.Process.{process_loop, process-last}
use shared_bike.User.{UserState, find_code, store_code, code_gen, handle_mobile_code_req}
use shared_bike.Server.Safety.{Reach, started, served-answered}
use shared_bike.User
use shared_bike.Base.{false, length}
use shared_bike.Event.{
  login_req, login_rsp, login_req_ev, login_rsp_ev, invalid_data, new_login_rsp_ev,
}
use shared_bike.Protobuf.{LoginRequest, LoginResponse}
use shared_bike.User.{verified, handle_login_req}
use shared_bike.User.Login.{code_gen-bounds}
use shared_bike.Client.{running, server_msg_cb}
use shared_bike.Client.Reply.{server_msg_cb-frame}
use shared_bike.Server.Codes.{user_handle, code_response, code-served}

module _ {W : Type 0} (sql : Mysql W) (rand : W → ℕ × W) (conf : ConnectArgs) where
  -- In every server whose only handler of requests for a code is the user's, reached from the
  -- started one in a run where new sessions got memory that was not in use, a client's address had
  -- at most 31 chars, each event that was run was answered, without a fault and with a message that
  -- fits the length field, and no session hung up while it awaited a response: the code that the
  -- test client takes over, when an outstanding request for a code has been run and its response,
  -- which fits, has come in one read, is the one that the handler then remembers for the number.
  -- The client had no bytes before, its array has 1024 chars, and the response leaves room in it.
  pub code-reaches_client :
      (pf : Platform) (pb : Protobuf) {m : EventHandlersMap} {handlers : UserState W} {sn : ℕ}
      {s : Server (UserState W)}
      → Reach pf pb (user_handle sql rand conf) (started m handlers sn) s
      → (i at : ℕ) (c : Connection) (ev : Event) (self : HandlerPtr) (mobile : Bytes)
      → get_elem? s.outstanding i ≡ some ev
      → ev.args ≡ some at
      → ev.eid ≡ event_id get_mobile_code_req
      → ev.body ≡ mobile_code_req_ev (record { mobile = mobile })
      → find_handlers ev.eid s.service.subscribers ≡ some (self ∷ [])
      → s.sessions at ≡ some c
      → c.output ≡ []
      → 10 + length (pb.mobile_response.serialize (code_response sql rand conf s.service.handlers))
        < 1024
      → (partial : Bytes → MobileResponse) (msg written : Bytes) (icode : ℕ) → length msg ≡ 1024
      → (t : Server (UserState W)) × (c' : Connection) × (taken : ℕ) × (run pf pb
            (user_handle sql rand conf)
            (serves i ∷ flushes ∷ [])
            s
          ≡ ok t)
        × (t.sessions at ≡ some c')
        × (server_msg_cb pb partial msg c'.output written icode ≡ ok (running written taken))
        × (find_code mobile t.service.handlers.m2c ≡ some taken)
  code-reaches_client pf pb {s = s} r i at c ev self mobile got to id body one found empty small
        partial msg written icode size =
      let rsp = code_response sql rand conf s.service.handlers in
      let code = code_gen-bounds (rand s.service.handlers.world).0 in
      let (t, c', ran, now, _, output, kept) =
        code-served sql rand conf pf pb r i at c ev self mobile got to id body one found
          (omega (arith, small, pb.mobile_response.length-serialize rsp)) in
      let whole : c'.output ≡ frame 2 (pb.mobile_response.serialize rsp) =
        output ∙ ap (λ (b : Bytes). b ++ frame 2 (pb.mobile_response.serialize rsp)) empty in
      (
        t,
        c',
        rsp.icode,
        ran,
        now,
        ap (λ b. server_msg_cb pb partial msg b written icode) whole
            ∙ server_msg_cb-frame pb partial rsp msg written icode
                (omega arith, omega (arith, code)) size small,
        kept,
      )

  -- The response to a login with a wrong code.
  abbrev pub refusal : LoginResponse
  refusal = record {
    code = error_code invalid_data;
    desc = reason_text (get_reason_by_error_code (error_code invalid_data));
  }

  abbrev refusal_event : ℕ → Event
  refusal_event sn = record {
    eid = event_id login_rsp;
    sn = sn;
    args = none;
    body = login_rsp_ev refusal;
  }

  process-login :
      (m : EventHandlersMap) (self : HandlerPtr) (ev : Event) (lr : LoginRequest) (st : UserState W)
      (sn : ℕ)
      → find_handlers ev.eid m ≡ some (self ∷ [])
      → ev.eid ≡ event_id login_req
      → ev.body ≡ login_req_ev lr
      → verified (find_code lr.mobile st.m2c) lr.icode ≡ false
      → process (user_handle sql rand conf) m (some ev) (st, sn)
        ≡ ok (some (refusal_event sn), (st, (sn + 1) % 2 ^ 32))
  unfolding process_loop User.handle handle_login_req new_login_rsp_ev
  process-login m self ev lr st sn one id body wrong =
      let known : ev.eid ≢ event_id unknown = λ e. absurd (omega (arith, e, id)) in
      let other : (ev.eid == event_id get_mobile_code_req) ≡ false = ground (arith, id) in
      let hit : (ev.eid == event_id login_req) ≡ true = ground (arith, id) in
      process-last (user_handle sql rand conf) m ev (st, sn) [] self known one
      ∙ rw (other, User.handle, hit, body, wrong) refl

  -- In every server whose only handler of logins is the user's, reached from the started one in a
  -- run where new sessions got memory that was not in use, a client's address had at most 31 chars,
  -- each event that was run was answered, without a fault and with a message that fits the length
  -- field, and no session hung up while it awaited a response: when a thread has run an outstanding
  -- login with a code that was not sent to its number, and the responses have gone out, the client
  -- has, behind what it had, exactly one frame, with invalid data and its reason; the session reads
  -- the next header; and neither the codes nor the world of the database and of `rand` have
  -- changed.
  pub login-refused :
      (pf : Platform) (pb : Protobuf) {m : EventHandlersMap} {handlers : UserState W} {sn : ℕ}
      {s : Server (UserState W)}
      → Reach pf pb (user_handle sql rand conf) (started m handlers sn) s
      → (i at : ℕ) (c : Connection) (ev : Event) (self : HandlerPtr) (lr : LoginRequest)
      → get_elem? s.outstanding i ≡ some ev
      → ev.args ≡ some at
      → ev.eid ≡ event_id login_req
      → ev.body ≡ login_req_ev lr
      → find_handlers ev.eid s.service.subscribers ≡ some (self ∷ [])
      → s.sessions at ≡ some c
      → verified (find_code lr.mobile s.service.handlers.m2c) lr.icode ≡ false
      → 10 + pb.login_response.byte_size refusal < 2 ^ 32
      → (t : Server (UserState W)) × (c' : Connection) × (run pf pb
            (user_handle sql rand conf)
            (serves i ∷ flushes ∷ [])
            s
          ≡ ok t)
        × (t.sessions at ≡ some c')
        × IsReset c.session c'.session
        × (c'.output ≡ c.output ++ frame (event_id login_rsp) (pb.login_response.serialize refusal))
        × (t.service.handlers ≡ s.service.handlers)
  unfolding serialized byte_size
  login-refused pf pb {s = s} r i at c ev self lr got to id body one found wrong small =
      let st = s.service.handlers in
      let done = process-login s.service.subscribers self ev lr st s.service.sn one id body wrong in
      let rsp = refusal_event s.service.sn in
      let reply : IsReply pb rsp = record { eid = inr refl; small = small } in
      let (t, c', ran, now, reset, output, _, kept) =
        served-answered pf pb (user_handle sql rand conf) r i at c ev rsp st
          ((s.service.sn + 1) % 2 ^ 32) got to found done reply in
      (t, c', ran, now, reset, output, kept)
