-- ===== src/Dispatch/Parse.antt =====
-- `DispatchMsgService::parseEvent` of src/DispatchMsgService.cc.
use shared_bike.Base.{
  ℕ, ◌≡◌, refl, ◌≢◌, ◌⊎◌, inl, inr, Option, none, some, Bytes, take, take_all, length, ◌==◌,
  if◌then◌else◌, arith, Outcome, ok, fault, missing_return,
}
use shared_bike.Protobuf.{Protobuf, FitsLoginRequest, MobileRequest, LoginRequest}
use shared_bike.Event.{
  Event, event_id, get_mobile_code_req, login_req, new_mobile_code_req_ev, new_login_req_ev,
}

-- A function with a result type whose end is reached without a `return`.
abbrev built : Option (Event × ℕ) → Outcome (Option Event × ℕ)
built none = fault missing_return
built (some (ev, sn)) = ok (some ev, sn)

-- The event of `len` bytes of the message `msg`, and the event counter after.
unfoldable pub parse_event : Protobuf → Option Bytes → ℕ → ℕ → ℕ → Outcome (Option Event × ℕ)
parse_event pb none len eid sn = ok (none, sn)
parse_event pb (some msg) len eid sn =
    if eid == event_id get_mobile_code_req
    then built (elim (pb.mobile_request.parse (take len msg)) [
      | none ↦ none
      | some mr ↦ some (new_mobile_code_req_ev mr.mobile sn)
    ])
    else if eid == event_id login_req
    then built (elim (pb.login_request.parse (take len msg)) [
      | none ↦ none
      | some lr ↦ some (new_login_req_ev lr.mobile lr.icode sn)
    ])
    else ok (none, sn)

-- A request for a code, on the wire and back: the event that is built carries its number and the
-- event counter's value.
pub parse-mobile_request :
    (pb : Protobuf) (m : MobileRequest) (sn : ℕ)
    → let body = pb.mobile_request.serialize m in
      parse_event pb (some body) (length body) (event_id get_mobile_code_req) sn
      ≡ (let (ev, next) = new_mobile_code_req_ev m.mobile sn in ok (some ev, next))
unfolding parse_event
parse-mobile_request pb m sn = rw (
  take_all (length (pb.mobile_request.serialize m)) (pb.mobile_request.serialize m) (omega arith),
  pb.mobile_request.parse-serialize m tt,
)

-- A login request that fits its fields, on the wire and back: the event that is built carries its
-- number and its code, and the event counter's value.
pub parse-login_request :
    (pb : Protobuf) (m : LoginRequest) (sn : ℕ)
    → FitsLoginRequest m
    → let body = pb.login_request.serialize m in
      parse_event pb (some body) (length body) (event_id login_req) sn
      ≡ (let (ev, next) = new_login_req_ev m.mobile m.icode sn in ok (some ev, next))
unfolding parse_event
parse-login_request pb m sn fits = rw (
  take_all (length (pb.login_request.serialize m)) (pb.login_request.serialize m) (omega arith),
  pb.login_request.parse-serialize m fits,
)

-- A request that protobuf rejects makes `parseEvent` run off its end: undefined behaviour instead
-- of the null pointer that its caller tests for.
pub parse-malformed :
    (pb : Protobuf) (msg : Bytes) (len eid sn : ℕ)
    → ((eid ≡ event_id get_mobile_code_req) × (pb.mobile_request.parse (take len msg) ≡ none))
      ⊎ ((eid ≡ event_id login_req) × (pb.login_request.parse (take len msg) ≡ none))
    → parse_event pb (some msg) len eid sn ≡ fault missing_return
unfolding parse_event
parse-malformed pb msg len eid sn (inl (e, bad)) = rw (e, bad)
parse-malformed pb msg len eid sn (inr (e, bad)) = rw (e, bad)

-- Any other event id, the responses' own among them, parses to no event.
pub parse-unknown :
    (pb : Protobuf) (msg : Option Bytes) (len eid sn : ℕ)
    → eid ≢ event_id get_mobile_code_req
    → eid ≢ event_id login_req
    → parse_event pb msg len eid sn ≡ ok (none, sn)
unfolding parse_event
parse-unknown pb none len eid sn h k = refl
parse-unknown pb (some msg) len eid sn h k = ground arith
