-- ===== src/Examples/Demos.antt =====
-- Runs of the demonstrations, and the tests of tests/test_mobile_ev.cc.
use shared_bike.Base.{◌≡◌, refl, [], Bytes, codes}
use shared_bike.Event.{
  mobile_code_rsp_ev, EventBody, new_mobile_code_rsp_ev, new_event, generate_seg_no, bike_is_taken,
  error_code, get_reason_by_error_code, reason_loop, eer,
}

abbrev data_of : EventBody → Bytes
data_of (mobile_code_rsp_ev m) = m.data_
data_of _ = []

-- `TEST(MobileCode, Request)` and `TEST(MobileCode, Response)`
mobile_code_reasons :
    (data_of (new_mobile_code_rsp_ev 200 666666 0).0.body ≡ codes "T_OK.")
    × (data_of (new_mobile_code_rsp_ev (error_code bike_is_taken) 666666 1).0.body
        ≡ codes "Bike is taken.")
    × (data_of (new_mobile_code_rsp_ev 500 666666 2).0.body ≡ codes "Undefined.")
unfolding new_mobile_code_rsp_ev new_event generate_seg_no get_reason_by_error_code reason_loop eer
mobile_code_reasons = (refl, refl, refl)
