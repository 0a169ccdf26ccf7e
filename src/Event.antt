-- ===== src/Event.antt =====
-- src/eventtype.h, src/eventtype.cc, src/ievent.h, src/ievent.cc and src/events_def.h: event ids,
-- error codes with their reasons, and the events themselves.
pub mod Reason
pub mod Typing
pub mod Dump
use shared_bike.Base.{
  ℕ, ◌+◌, ◌%◌, ◌^◌, Bool, true, false, Option, none, some, List, [], ◌∷◌, ◌==◌, if◌then◌else◌, leb,
  Bytes, codes, Outcome, ok, ◌>>=◌, write_chars,
}
use shared_bike.Protobuf.{Protobuf, MobileRequest, MobileResponse, LoginRequest, LoginResponse}

pub data EventId : Type 0 where
  get_mobile_code_req get_mobile_code_rsp : EventId
  login_req login_rsp : EventId
  recharge_req recharge_rsp : EventId
  account_balance_req account_balance_rsp : EventId
  list_account_records_req list_account_records_rsp : EventId
  list_travels_req list_travels_rsp : EventId
  exit_rsp : EventId
  unknown : EventId

-- The enumerators' values.
abbrev pub event_id : EventId → ℕ
event_id get_mobile_code_req = 0x01
event_id get_mobile_code_rsp = 0x02
event_id login_req = 0x03
event_id login_rsp = 0x04
event_id recharge_req = 0x05
event_id recharge_rsp = 0x06
event_id account_balance_req = 0x07
event_id account_balance_rsp = 0x08
event_id list_account_records_req = 0x09
event_id list_account_records_rsp = 0x10
event_id list_travels_req = 0x11
event_id list_travels_rsp = 0x12
event_id exit_rsp = 0xfe
event_id unknown = 0xff

pub data ErrorCode : Type 0 where
  success invalid_msg invalid_data method_not_allowed process_failed : ErrorCode
  bike_is_taken bike_is_running bike_is_damaged : ErrorCode
  err_null : ErrorCode

abbrev pub error_code : ErrorCode → ℕ
error_code success = 200
error_code invalid_msg = 400
error_code invalid_data = 404
error_code method_not_allowed = 405
error_code process_failed = 406
error_code bike_is_taken = 407
error_code bike_is_running = 408
error_code bike_is_damaged = 409
error_code err_null = 0

pub record ErrorReason : Type 0 where
  pub code : ℕ
  pub reason : Bytes

abbrev entry : ErrorCode → Bytes → ErrorReason
entry e r = record { code = error_code e; reason = r }

-- The table `EER`, closed by `ERR_NULL`.
unfoldable pub eer : List ErrorReason
eer =
    entry success (codes "T_OK.")
    ∷ entry invalid_msg (codes "Invalid message.")
    ∷ entry invalid_data (codes "Invalid data.")
    ∷ entry method_not_allowed (codes "Method not allowed.")
    ∷ entry process_failed (codes "Process failed.")
    ∷ entry bike_is_taken (codes "Bike is taken.")
    ∷ entry bike_is_running (codes "Bike is running.")
    ∷ entry bike_is_damaged (codes "Bike is damaged.")
    ∷ entry err_null (codes "Undefined.")
    ∷ []

-- The loop over the table; `none` is a read past its end.
unfoldable pub reason_loop : List ErrorReason → ℕ → Option Bytes
reason_loop [] code = none
reason_loop (r ∷ rs) code =
    if r.code == error_code err_null
    then some r.reason
    else if r.code == code
    then some r.reason
    else reason_loop rs code

unfoldable pub get_reason_by_error_code : ℕ → Option Bytes
unfolding reason_loop eer
get_reason_by_error_code code = reason_loop eer code

-- The classes derived from `iEvent`, each with its message.
pub data EventBody : Type 0 where
  mobile_code_req_ev : MobileRequest → EventBody
  mobile_code_rsp_ev : MobileResponse → EventBody
  exit_rsp_ev : EventBody
  login_req_ev : LoginRequest → EventBody
  login_rsp_ev : LoginResponse → EventBody

-- `args_` is the address of the session that the event belongs to; a constructor leaves it unset.
pub record Event : Type 0 where
  pub eid : ℕ
  pub sn : ℕ
  pub args : Option ℕ
  pub body : EventBody

-- `return sn++` on the static counter: the number returned, and the counter after.
unfoldable pub generate_seg_no : ℕ → ℕ × ℕ
generate_seg_no sn = (sn, (sn + 1) % 2 ^ 32)

-- `iEvent(eid, generateSegNo())` with the derived class's fields, on the counter `sn`.
unfoldable pub new_event : EventId → EventBody → ℕ → Event × ℕ
unfolding generate_seg_no
new_event i body sn =
    let (own, next) = generate_seg_no sn in
    (record { eid = event_id i; sn = own; args = none; body = body }, next)

unfoldable pub new_mobile_code_req_ev : Bytes → ℕ → Event × ℕ
unfolding new_event
new_mobile_code_req_ev mobile sn =
    new_event get_mobile_code_req (mobile_code_req_ev (record { mobile = mobile })) sn

-- The reason that goes into a response; the lookup never runs past the table.
abbrev pub reason_text : Option Bytes → Bytes
reason_text none = []
reason_text (some r) = r

unfoldable pub new_mobile_code_rsp_ev : ℕ → ℕ → ℕ → Event × ℕ
unfolding new_event get_reason_by_error_code
new_mobile_code_rsp_ev code icode sn = new_event get_mobile_code_rsp (mobile_code_rsp_ev message) sn
  where
    message : MobileResponse
    message = record {
      code = code;
      icode = icode;
      data_ = reason_text (get_reason_by_error_code code);
    }

unfoldable pub new_exit_rsp_ev : ℕ → Event × ℕ
unfolding new_event
new_exit_rsp_ev sn = new_event exit_rsp exit_rsp_ev sn

unfoldable pub new_login_req_ev : Bytes → ℕ → ℕ → Event × ℕ
unfolding new_event
new_login_req_ev mobile icode sn =
    new_event login_req (login_req_ev (record { mobile = mobile; icode = icode })) sn

unfoldable pub new_login_rsp_ev : ℕ → ℕ → Event × ℕ
unfolding new_event get_reason_by_error_code
new_login_rsp_ev code sn = new_event login_rsp (login_rsp_ev message) sn
  where
    message : LoginResponse
    message = record { code = code; desc = reason_text (get_reason_by_error_code code) }

-- The virtual `ByteSize` and the bytes that `SerializeToArray` writes; the base class writes none.
unfoldable pub byte_size : Protobuf → EventBody → ℕ
byte_size pb (mobile_code_req_ev m) = pb.mobile_request.byte_size m
byte_size pb (mobile_code_rsp_ev m) = pb.mobile_response.byte_size m
byte_size pb exit_rsp_ev = 0
byte_size pb (login_req_ev m) = pb.login_request.byte_size m
byte_size pb (login_rsp_ev m) = pb.login_response.byte_size m

unfoldable pub serialized : Protobuf → EventBody → Bytes
serialized pb (mobile_code_req_ev m) = pb.mobile_request.serialize m
serialized pb (mobile_code_rsp_ev m) = pb.mobile_response.serialize m
serialized pb exit_rsp_ev = []
serialized pb (login_req_ev m) = pb.login_request.serialize m
serialized pb (login_rsp_ev m) = pb.login_response.serialize m

-- `SerializeToArray(buf + at, len)`: nothing is written where `len` is short of the message.
unfoldable pub serialize_to_array : Protobuf → EventBody → Bytes → ℕ → ℕ → Outcome (Bytes × Bool)
serialize_to_array pb body buf at len =
    if leb (byte_size pb body) len
    then (do written ← write_chars buf at (serialized pb body); ok (written, true))
    else ok (buf, false)
