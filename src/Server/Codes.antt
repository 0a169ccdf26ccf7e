-- ===== src/Server/Codes.antt =====
-- A request for a validation code, through the server of src/ with its `UserEventHandler`.
use shared_bike.Base.{
  ◌^◌, ◌<◌, ℕ, ◌+◌, ◌≡◌, refl, ap, ◌∙◌, Bool, true, inl, some, none, [], ◌∷◌, ◌++◌, ◌==◌, arith,
  if◌then◌else◌, Bytes, get_elem?, ok,
}
use shared_bike.Protobuf.{Protobuf}
use shared_bike.Event.{Event, event_id, get_mobile_code_rsp, byte_size}
use shared_bike.Dispatch.Process.{Handle, process}
use shared_bike.Network.{Platform, Connection}
use shared_bike.Network.Response.Flush.{IsReply, IsReset}
use shared_bike.Server.{Server, serves, flushes}
use shared_bike.Wire.{frame}
use shared_bike.Event.{serialized}
use shared_bike.Dispatch.Subscribers.{EventHandlersMap}
use shared_bike.Server.{run}
use shared_bike.Base.{bytes_eq_iff, ◌%◌, ◌≢◌}
use shared_bike.Protobuf.{MobileResponse}
use shared_bike.Event.{
  mobile_code_req_ev, mobile_code_rsp_ev, get_mobile_code_req, error_code, success, unknown,
  new_mobile_code_rsp_ev, reason_text, get_reason_by_error_code,
}
use shared_bike.Database.{Mysql, ConnectArgs}
use shared_bike.Dispatch.Subscribers.{HandlerPtr, find_handlers}
use shared_bike.Dispatch.Process.{process_loop, process-last}
use shared_bike.User.{UserState, find_code, store_code, code_gen, handle_mobile_code_req}
use shared_bike.User.Login.{find_code-store_code}
use shared_bike.Server.Safety.{Reach, started, served-answered}
use shared_bike.User

module _ {W : Type 0} (sql : Mysql W) (rand : W → ℕ × W) (conf : ConnectArgs) where
  -- The one handler of the server.
  abbrev pub user_handle : Handle (UserState W)
  user_handle self ev st = User.handle sql rand conf (some ev) st

  -- The response with the code that `rand` gives in this state.
  abbrev pub code_response : UserState W → MobileResponse
  code_response st = record {
    code = error_code success;
    icode = code_gen (rand st.world).0;
    data_ = reason_text (get_reason_by_error_code (error_code success));
  }

  -- What the handler does with a request for a code.
  abbrev pub response_event : UserState W → ℕ → Event
  response_event st sn = record {
    eid = event_id get_mobile_code_rsp;
    sn = sn;
    args = none;
    body = mobile_code_rsp_ev (code_response st);
  }

  abbrev pub remembering : Bytes → UserState W → UserState W
  remembering mobile st = record {
    m2c = store_code mobile (code_gen (rand st.world).0) st.m2c;
    world = (rand st.world).1;
  }

  -- The handler then remembers the code for the number.
  pub remembering-code :
      (mobile : Bytes) (st : UserState W)
      → find_code mobile (remembering mobile st).m2c ≡ some (code_gen (rand st.world).0)
  remembering-code mobile st =
      find_code-store_code mobile mobile (code_gen (rand st.world).0) st.m2c
      ∙ ap (λ (b : Bool). if b then some (code_gen (rand st.world).0) else find_code mobile st.m2c)
          ((bytes_eq_iff mobile mobile).1 refl)

  pub process-code :
      (m : EventHandlersMap) (self : HandlerPtr) (ev : Event) (mobile : Bytes) (st : UserState W)
      (sn : ℕ)
      → find_handlers ev.eid m ≡ some (self ∷ [])
      → ev.eid ≡ event_id get_mobile_code_req
      → ev.body ≡ mobile_code_req_ev (record { mobile = mobile })
      → process user_handle m (some ev) (st, sn)
        ≡ ok (some (response_event st sn), (remembering mobile st, (sn + 1) % 2 ^ 32))
  unfolding process_loop User.handle handle_mobile_code_req new_mobile_code_rsp_ev
  process-code m self ev mobile st sn one id body =
      let known : ev.eid ≢ event_id unknown = λ e. absurd (omega (arith, e, id)) in
      let hit : (ev.eid == event_id get_mobile_code_req) ≡ true = ground (arith, id) in
      process-last user_handle m ev (st, sn) [] self known one ∙ rw (hit, User.handle, body) refl

  -- In every server reached from the started one whose only handler of requests for a code is the
  -- user's: when a thread has run an outstanding request for a code and the responses have gone out,
  -- the client has, behind what it had, exactly one frame, with success, a code and its reason; the
  -- session reads the next header; and the code that was sent is the one that the handler now
  -- remembers for the number.
  pub code-served :
      (pf : Platform) (pb : Protobuf) {m : EventHandlersMap} {handlers : UserState W} {sn : ℕ}
      {s : Server (UserState W)}
      → Reach pf pb user_handle (started m handlers sn) s
      → (i at : ℕ) (c : Connection) (ev : Event) (self : HandlerPtr) (mobile : Bytes)
      → get_elem? s.outstanding i ≡ some ev
      → ev.args ≡ some at
      → ev.eid ≡ event_id get_mobile_code_req
      → ev.body ≡ mobile_code_req_ev (record { mobile = mobile })
      → find_handlers ev.eid s.service.subscribers ≡ some (self ∷ [])
      → s.sessions at ≡ some c
      → 10 + pb.mobile_response.byte_size (code_response s.service.handlers) < 2 ^ 32
      → (t : Server (UserState W)) × (c' : Connection) × (run pf pb user_handle
            (serves i ∷ flushes ∷ [])
            s
          ≡ ok t)
        × (t.sessions at ≡ some c')
        × IsReset c.session c'.session
        × (c'.output
            ≡ c.output
              ++ frame
                  (event_id get_mobile_code_rsp)
                  (pb.mobile_response.serialize (code_response s.service.handlers)))
        × (find_code mobile t.service.handlers.m2c ≡ some (code_response s.service.handlers).icode)
  unfolding serialized byte_size
  code-served pf pb {s = s} r i at c ev self mobile got to id body one found small =
      let st = s.service.handlers in
      let rsp = response_event st s.service.sn in
      let done = process-code s.service.subscribers self ev mobile st s.service.sn one id body in
      let reply : IsReply pb rsp = record { eid = inl refl; small = small } in
      let (t, c', ran, now, reset, output, _, kept) =
        served-answered pf pb user_handle r i at c ev rsp (remembering mobile st)
          ((s.service.sn + 1) % 2 ^ 32) got to found done reply in
      (
        t,
        c',
        ran,
        now,
        reset,
        output,
        ap (λ (u : UserState W). find_code mobile u.m2c) kept ∙ remembering-code mobile st,
      )
