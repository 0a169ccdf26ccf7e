-- ===== src/User/Types.antt =====
-- The casts of src/user_event_handler.cc and of `parseEvent`: an event's id names its class.
use shared_bike.Base.{
  ℕ, ◌+◌, ◌≡◌, refl, sym, ap, subst, ◌∙◌, fault, Option, none, some, some_inj, Bytes, take, ◌==◌,
  arith, inl, inr, Bool-cases, Option-cases, Outcome, Outcome-cases, ok, ◌>>=◌, ==_iff,
}
use shared_bike.Protobuf.{Protobuf}
use shared_bike.Event.{
  Event, EventBody, mobile_code_req_ev, mobile_code_rsp_ev, exit_rsp_ev, login_req_ev, login_rsp_ev,
  new_mobile_code_req_ev, new_login_req_ev, new_mobile_code_rsp_ev, new_login_rsp_ev,
}
use shared_bike.Event.Typing.{IsTyped, body_id}
use shared_bike.Dispatch.Parse.{parse_event}
use shared_bike.Database.{Mysql, ConnectArgs}
use shared_bike.User.{
  UserState, handle, handle_mobile_code_req, handle_login_req, register, verified, find_code,
}

abbrev event_of : Outcome (Option Event × ℕ) → Option Event
event_of (ok (o, _)) = o
event_of (fault x) = none

-- The event that was built, seen through the equation of its call.
IsTyped-result :
    (x ev : Event) (n sn' eid : ℕ)
    → IsTyped x
    → x.eid ≡ eid
    → ◌≡◌ {A = Outcome (Option Event × ℕ)} (ok (some x, n)) (ok (some ev, sn'))
    → IsTyped ev × (ev.eid ≡ eid)
IsTyped-result x ev n sn' eid typed own e =
    subst (λ (z : Event). IsTyped z × (z.eid ≡ eid)) (some_inj (ap event_of e)) (typed, own)

-- What `parseEvent` builds is of the class that its id names, for every message and event id.
pub parse_event-IsTyped :
    (pb : Protobuf) (msg : Option Bytes) (len eid sn sn' : ℕ) (ev : Event)
    → parse_event pb msg len eid sn ≡ ok (some ev, sn')
    → IsTyped ev × (ev.eid ≡ eid)
unfolding parse_event new_mobile_code_req_ev new_login_req_ev
parse_event-IsTyped pb none len eid sn sn' ev e = absurd (cc)
parse_event-IsTyped pb (some msg) len eid sn sn' ev e = elim (Bool-cases (eid == 1)) [
  | inl hit ↦ elim (Option-cases (pb.mobile_request.parse (take len msg))) [
    | inl bad ↦ absurd (ground (arith, e, bad))
    | inr (m, good) ↦
        IsTyped-result (new_mobile_code_req_ev m.mobile sn).0 ev
          (new_mobile_code_req_ev m.mobile sn).1 sn' eid refl (sym ((==_iff eid 1).0 hit))
          (rw (hit, good) at e)
  ]
  | inr miss ↦ elim (Bool-cases (eid == 3)) [
    | inr other ↦ absurd (ground (arith, e))
    | inl hit ↦ elim (Option-cases (pb.login_request.parse (take len msg))) [
      | inl bad ↦ absurd (ground (arith, e, bad))
      | inr (m, good) ↦
          IsTyped-result (new_login_req_ev m.mobile m.icode sn).0 ev
            (new_login_req_ev m.mobile m.icode sn).1 sn' eid refl (sym ((==_iff eid 3).0 hit))
            (rw (miss, hit, good) at e)
    ]
  ]
]

module _ {W : Type 0} (sql : Mysql W) (rand : W → ℕ × W) (conf : ConnectArgs) where
  -- The handler that looks at the class itself.
  abbrev pub handle_by_class :
      EventBody → UserState W × ℕ → Outcome (Option Event × (UserState W × ℕ))
  handle_by_class (mobile_code_req_ev m) st =
      let (rsp, st') = handle_mobile_code_req sql rand conf m.mobile st in ok (some rsp, st')
  handle_by_class (login_req_ev m) st = do
    (rsp, st') ← handle_login_req sql rand conf m.mobile m.icode st
    ok (some rsp, st')
  handle_by_class (mobile_code_rsp_ev m) st = ok (none, st)
  handle_by_class exit_rsp_ev st = ok (none, st)
  handle_by_class (login_rsp_ev m) st = ok (none, st)

  handle_class :
      (eid : ℕ) (body : EventBody) (st : UserState W × ℕ) (n : ℕ) (args : Option ℕ)
      → eid ≡ body_id body
      → handle sql rand conf (some (record { eid = eid; sn = n; args = args; body = body })) st
        ≡ handle_by_class body st
  unfolding handle
  handle_class eid (mobile_code_req_ev m) st n args e = rw e
  handle_class eid (login_req_ev m) st n args e = rw e
  handle_class eid (mobile_code_rsp_ev m) st n args e = rw e
  handle_class eid exit_rsp_ev st n args e = rw e
  handle_class eid (login_rsp_ev m) st n args e = rw e

  -- On an event whose id names its class, `handle` does what a match on the class would do: no cast
  -- of it goes wrong.
  pub handle-by_class :
      (ev : Event) (st : UserState W × ℕ)
      → IsTyped ev
      → handle sql rand conf (some ev) st ≡ handle_by_class ev.body st
  handle-by_class ev st e = handle_class ev.eid ev.body st ev.sn ev.args e

  abbrev Answers : ℕ → Event → Type 0
  Answers n rsp = IsTyped rsp × (rsp.eid ≡ n)

  abbrev rsp_of : Event → Outcome (Event × (UserState W × ℕ)) → Event
  rsp_of other (ok (rsp, _)) = rsp
  rsp_of other (fault x) = other

  abbrev some_rsp_of : Event → Outcome (Option Event × (UserState W × ℕ)) → Event
  some_rsp_of other (ok (some rsp, _)) = rsp
  some_rsp_of other _ = other

  login-Answers :
      (mobile : Bytes) (icode : ℕ) (st : UserState W) (sn : ℕ) (rsp : Event) (st' : UserState W × ℕ)
      → handle_login_req sql rand conf mobile icode (st, sn) ≡ ok (rsp, st')
      → Answers 4 rsp
  unfolding handle_login_req new_login_rsp_ev
  login-Answers mobile icode st sn rsp st' e =
      elim (Bool-cases (verified (find_code mobile st.m2c) icode)) [
        | inr wrong ↦ subst (Answers 4) (ap (rsp_of rsp) (rw wrong at e)) (refl, refl)
        | inl right ↦ elim (Outcome-cases (register sql rand conf mobile st.world)) [
          | inr (x, bad) ↦ absurd (ground (arith, e))
          | inl ((c, w), good) ↦
              subst (Answers 4) (ap (rsp_of rsp) (rw (right, good) at e)) (refl, refl)
        ]
      ]

  class-Answers :
      (body : EventBody) (st st' : UserState W × ℕ) (rsp : Event)
      → handle_by_class body st ≡ ok (some rsp, st')
      → Answers (body_id body + 1) rsp
  unfolding handle_mobile_code_req new_mobile_code_rsp_ev
  class-Answers (mobile_code_req_ev m) (st, sn) st' rsp e =
      subst (Answers 2) (ap (some_rsp_of rsp) e) (refl, refl)
  class-Answers (login_req_ev m) (st, sn) st' rsp e =
      elim (Outcome-cases (handle_login_req sql rand conf m.mobile m.icode (st, sn))) [
        | inr (x, bad) ↦ absurd (ground (arith, e))
        | inl ((own, st1), good) ↦
            subst (Answers 4) (ap (some_rsp_of rsp) (rw good at e))
              (login-Answers m.mobile m.icode st sn own st1 good)
      ]
  class-Answers (mobile_code_rsp_ev m) st st' rsp e = absurd (ground arith)
  class-Answers exit_rsp_ev st st' rsp e = absurd (ground arith)
  class-Answers (login_rsp_ev m) st st' rsp e = absurd (ground arith)

  -- A response is of the class that its id names, and its id is the request's next one.
  pub handle-IsTyped :
      (ev rsp : Event) (st st' : UserState W × ℕ)
      → IsTyped ev
      → handle sql rand conf (some ev) st ≡ ok (some rsp, st')
      → IsTyped rsp × (rsp.eid ≡ ev.eid + 1)
  handle-IsTyped ev rsp st st' typed e =
      let (own, next) = class-Answers ev.body st st' rsp (sym (handle-by_class ev st typed) ∙ e) in
      (own, next ∙ ap (λ (n : ℕ). n + 1) (sym typed))
