-- ===== src/Event/Dump.antt =====
-- `dump` of the events, src/events_def.cc, as the bytes that are printed; `show` is what `<<` prints
-- of a number.
use shared_bike.Base.{ℕ, [], ◌∷◌, ◌++◌, Bytes, codes}
use shared_bike.Event.{
  EventBody, mobile_code_req_ev, mobile_code_rsp_ev, exit_rsp_ev, login_req_ev, login_rsp_ev,
}

abbrev endl : Bytes
endl = 10 ∷ []

unfoldable pub dump : (ℕ → Bytes) → ℕ → EventBody → Bytes
dump show sn (mobile_code_req_ev m) =
    codes "MobileCodeReq sn = " ++ show sn ++ codes ", " ++ codes "mobile = " ++ m.mobile ++ endl
dump show sn (mobile_code_rsp_ev m) =
    codes "MobileCodeReq sn = "
    ++ show sn
    ++ codes ", "
    ++ codes "code = "
    ++ show m.code
    ++ codes ", "
    ++ codes "icode = "
    ++ show m.icode
    ++ codes ", "
    ++ codes "data = "
    ++ m.data_
    ++ endl
dump show sn exit_rsp_ev = []
dump show sn (login_req_ev m) =
    codes "mobile = " ++ m.mobile ++ codes ", " ++ codes "icode = " ++ show m.icode ++ endl
dump show sn (login_rsp_ev m) =
    codes "code = "
    ++ show m.code
    ++ codes ", "
    ++ codes "possible failed reason = "
    ++ m.desc
    ++ endl
