-- ===== src/User.antt =====
-- `UserEventHandler` of src/user_event_handler.h and src/user_event_handler.cc: validation codes by
-- phone number, and the login that checks them and registers the user.
pub mod Login
pub mod Types
use shared_bike.Base.{
  ℕ, ◌+◌, ◌-◌, ◌%◌, Bool, true, false, Option, none, some, List, [], ◌∷◌, ◌==◌, not, if◌then◌else◌,
  Bytes, bytes_eq, Outcome, ok, fault, null_deref, bad_cast, ◌>>=◌,
}
use shared_bike.Event.{
  Event, EventBody, mobile_code_req_ev, login_req_ev, event_id, get_mobile_code_req, login_req,
  ErrorCode, success, invalid_data, process_failed, error_code, new_mobile_code_rsp_ev,
  new_login_rsp_ev,
}
use shared_bike.Dispatch.Subscribers.{HandlerPtr, EventHandlersMap, subscribe, unsubscribe}
use shared_bike.Database.{
  ConnectArgs, Mysql, new_connection, delete_connection, init, exist, insert,
}

-- `m2c_`, an `unordered_map`: one entry for a number.
abbrev pub Codes : Type 0
Codes = List (Bytes × ℕ)

unfoldable pub find_code : Bytes → Codes → Option ℕ
find_code mobile [] = none
find_code mobile ((k, v) ∷ m) = if bytes_eq k mobile then some v else find_code mobile m

-- `m2c_[mobile] = icode`
unfoldable pub store_code : Bytes → ℕ → Codes → Codes
store_code mobile icode [] = (mobile, icode) ∷ []
store_code mobile icode ((k, v) ∷ m) =
    if bytes_eq k mobile then (k, icode) ∷ m else (k, v) ∷ store_code mobile icode m

-- The handler's map, and the world of the database and of `rand`.
pub record UserState (W : Type 0) : Type 0 where
  pub m2c : Codes
  pub world : W

-- The constructor and the destructor.
unfoldable pub subscribe_all : HandlerPtr → EventHandlersMap → EventHandlersMap
subscribe_all self m =
    subscribe (event_id login_req) self (subscribe (event_id get_mobile_code_req) self m)

unfoldable pub unsubscribe_all : HandlerPtr → EventHandlersMap → EventHandlersMap
unsubscribe_all self m =
    unsubscribe (event_id login_req) self (unsubscribe (event_id get_mobile_code_req) self m)

-- `code_gen` on what `rand` returns.
unfoldable pub code_gen : ℕ → ℕ
code_gen r = r % (999999 - 100000) + 100000

-- The test of `handle_login_req`: the code is the one that was sent to the number.
unfoldable pub verified : Option ℕ → ℕ → Bool
verified none icode = false
verified (some sent) icode = icode == sent

module _ {W : Type 0} (sql : Mysql W) (rand : W → ℕ × W) (conf : ConnectArgs) where
  unfoldable pub handle_mobile_code_req : Bytes → UserState W × ℕ → Event × (UserState W × ℕ)
  unfolding code_gen
  handle_mobile_code_req mobile (st, sn) =
      let (r, w) = rand st.world in
      let icode = code_gen r in
      let (rsp, sn') = new_mobile_code_rsp_ev (error_code success) icode sn in
      (rsp, (record { m2c = store_code mobile icode st.m2c; world = w }, sn'))

  -- A user without a record gets one.
  unfoldable pub insert_missing : Option ℕ → Bytes → Bool × W → Outcome (ErrorCode × W)
  insert_missing mysql mobile (true, w) = ok (success, w)
  insert_missing mysql mobile (false, w) = do
    (inserted, w') ← insert sql mysql mobile w
    ok ((if inserted then success else process_failed), w')

  unfoldable pub find_or_insert : Option ℕ → Bytes → W → Outcome (ErrorCode × W)
  find_or_insert mysql mobile w = do
    found ← exist sql mysql mobile w
    insert_missing mysql mobile found

  abbrev closing : Option ℕ → Outcome (ErrorCode × W) → Outcome (ErrorCode × W)
  closing mysql (fault x) = fault x
  closing mysql (ok (e, w)) = ok (e, delete_connection sql mysql w)

  -- The second half of `handle_login_req`, on a connection of its own.
  unfoldable pub register : Bytes → W → Outcome (ErrorCode × W)
  register mobile w =
      let (mysql, w1) = new_connection sql w in
      let (up, (mysql', w2)) = init sql conf mysql w1 in
      closing mysql' (if up then find_or_insert mysql' mobile w2 else ok (process_failed, w2))

  unfoldable pub handle_login_req :
      Bytes → ℕ → UserState W × ℕ → Outcome (Event × (UserState W × ℕ))
  handle_login_req mobile icode (st, sn) =
      if verified (find_code mobile st.m2c) icode
      then (do
        (e, w) ← register mobile st.world
        let (rsp, sn') = new_login_rsp_ev (error_code e) sn
        ok (rsp, (record st { world = w }, sn')))
      else (let (rsp, sn') = new_login_rsp_ev (error_code invalid_data) sn in ok (rsp, (st, sn')))

  -- The casts of `handle`, which trust the event id.
  abbrev as_mobile_code_req :
      EventBody → UserState W × ℕ → Outcome (Option Event × (UserState W × ℕ))
  as_mobile_code_req (mobile_code_req_ev m) st =
      let (rsp, st') = handle_mobile_code_req m.mobile st in ok (some rsp, st')
  as_mobile_code_req _ st = fault bad_cast

  abbrev as_login_req : EventBody → UserState W × ℕ → Outcome (Option Event × (UserState W × ℕ))
  as_login_req (login_req_ev m) st = do
    (rsp, st') ← handle_login_req m.mobile m.icode st
    ok (some rsp, st')
  as_login_req _ st = fault bad_cast

  -- A null event is logged, and read all the same.
  unfoldable pub handle :
      Option Event → UserState W × ℕ → Outcome (Option Event × (UserState W × ℕ))
  handle none st = fault null_deref
  handle (some ev) st =
      if ev.eid == event_id get_mobile_code_req
      then as_mobile_code_req ev.body st
      else if ev.eid == event_id login_req
      then as_login_req ev.body st
      else ok (none, st)
