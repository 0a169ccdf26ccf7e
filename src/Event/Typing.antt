-- ===== src/Event/Typing.antt =====
-- Which event id goes with which class: what the casts in the handlers rely on.
use shared_bike.Base.{ℕ, ◌≡◌, refl, Bytes}
use shared_bike.Event.{
  Event, EventBody, event_id, get_mobile_code_req, get_mobile_code_rsp, exit_rsp, login_req,
  login_rsp, mobile_code_req_ev, mobile_code_rsp_ev, exit_rsp_ev, login_req_ev, login_rsp_ev,
  new_mobile_code_req_ev, new_mobile_code_rsp_ev, new_exit_rsp_ev, new_login_req_ev,
  new_login_rsp_ev,
}

abbrev pub body_id : EventBody → ℕ
body_id (mobile_code_req_ev _) = event_id get_mobile_code_req
body_id (mobile_code_rsp_ev _) = event_id get_mobile_code_rsp
body_id exit_rsp_ev = event_id exit_rsp
body_id (login_req_ev _) = event_id login_req
body_id (login_rsp_ev _) = event_id login_rsp

-- The event's id names its class.
abbrev pub IsTyped : Event → Type 0
IsTyped e = e.eid ≡ body_id e.body

pub new_mobile_code_req_ev-IsTyped :
    (mobile : Bytes) (sn : ℕ) → IsTyped (new_mobile_code_req_ev mobile sn).0
unfolding new_mobile_code_req_ev
new_mobile_code_req_ev-IsTyped mobile sn = refl

pub new_mobile_code_rsp_ev-IsTyped :
    (code icode sn : ℕ) → IsTyped (new_mobile_code_rsp_ev code icode sn).0
unfolding new_mobile_code_rsp_ev
new_mobile_code_rsp_ev-IsTyped code icode sn = refl

pub new_exit_rsp_ev-IsTyped : (sn : ℕ) → IsTyped (new_exit_rsp_ev sn).0
unfolding new_exit_rsp_ev
new_exit_rsp_ev-IsTyped sn = refl

pub new_login_req_ev-IsTyped :
    (mobile : Bytes) (icode sn : ℕ) → IsTyped (new_login_req_ev mobile icode sn).0
unfolding new_login_req_ev
new_login_req_ev-IsTyped mobile icode sn = refl

pub new_login_rsp_ev-IsTyped : (code sn : ℕ) → IsTyped (new_login_rsp_ev code sn).0
unfolding new_login_rsp_ev
new_login_rsp_ev-IsTyped code sn = refl
