-- ===== src/Server/HangUp.antt =====
-- A client of src/NetworkInterface.cc that hangs up before its response.
use shared_bike.Base.{
  ◌⊎◌, ℕ, ◌≡◌, refl, sym, ap, ◌∙◌, subst, true, false, inl, inr, some, none, List, [], ◌∷◌, ◌++◌,
  ◌==◌, ==_refl, arith, get_elem?, Outcome, ok, fault,
}
use shared_bike.Protobuf.{Protobuf}
use shared_bike.Event.{Event, event_id, get_mobile_code_rsp, login_rsp}
use shared_bike.Session.{session_free}
use shared_bike.Dispatch.Process.{Handle, process, svc-responds}
use shared_bike.Network.{Platform, Connection, Callback, closed, close_connection}
use shared_bike.Network.Response.{Sessions, handle_error, handle_all_response_event}
use shared_bike.Network.Response.Flush.{IsReply}
use shared_bike.Server.{Server, serves, flushes, hangs_up, put, step}
use shared_bike.Base.{use_after_free, ◌⊎◌}
use shared_bike.Network.Response.{on_session, handle_response_event}
use shared_bike.Server.{run}

module _ (pf : Platform) (pb : Protobuf) where
  on_session-freed :
      (ev : Event) (at : ℕ) (f : Connection → Outcome Callback) (ss : Sessions)
      → ev.args ≡ some at
      → ss at ≡ none
      → on_session ev.args f ss ≡ fault use_after_free
  unfolding on_session
  on_session-freed ev at f ss to gone = rw (to, on_session, gone) refl

  -- A response whose session was freed.
  reply-freed :
      (ev : Event) (at : ℕ) (ss : Sessions)
      → (ev.eid ≡ event_id get_mobile_code_rsp) ⊎ (ev.eid ≡ event_id login_rsp)
      → ev.args ≡ some at
      → ss at ≡ none
      → handle_response_event pf pb ev ss ≡ fault use_after_free
  unfolding handle_response_event
  reply-freed ev at ss (inl code) to gone =
      let is : (ev.eid == event_id get_mobile_code_rsp) ≡ true = ground (arith, code) in
      rw (is, handle_response_event) (on_session-freed ev at _ ss to gone)
  reply-freed ev at ss (inr login) to gone =
      let not_code : (ev.eid == event_id get_mobile_code_rsp) ≡ false = ground (arith, login) in
      let is : (ev.eid == event_id login_rsp) ≡ true = ground (arith, login) in
      rw (not_code, handle_response_event, is) (on_session-freed ev at _ ss to gone)

-- When a client hangs up whose event is outstanding, in an open server where no response waits, then
-- the answer of a thread makes the next `handleAllResponseEvent` use the freed session.
pub hang_up-use_after_free :
    {S : Type 0} (pf : Platform) (pb : Protobuf) (handle : Handle S) (s : Server S) (i at : ℕ)
    (c : Connection) (ev rsp : Event) (st : S) (next_sn : ℕ)
    → s.service.svr_exit ≡ false
    → s.service.response_events ≡ []
    → s.sessions at ≡ some c
    → get_elem? s.outstanding i ≡ some ev
    → ev.args ≡ some at
    → process handle s.service.subscribers (some ev) (s.service.handlers, s.service.sn)
      ≡ ok (some rsp, (st, next_sn))
    → IsReply pb rsp
    → run pf pb handle (hangs_up at ∷ serves i ∷ flushes ∷ []) s ≡ fault use_after_free
unfolding run step
hang_up-use_after_free pf pb handle s i at c ev rsp st next_sn open_ empty found got to done reply =
    let (t, out, e, (args, eid, _), queued, _, _) =
      svc-responds handle s.service ev (some rsp) st next_sn open_ done in
    let kind : (out.eid ≡ event_id get_mobile_code_rsp) ⊎ (out.eid ≡ event_id login_rsp) =
      subst (λ n. (n ≡ event_id get_mobile_code_rsp) ⊎ (n ≡ event_id login_rsp)) (sym eid)
        reply.eid in
    let ss : Sessions = put at none s.sessions in
    let gone : ss at ≡ none = let own : (at == at) ≡ true = ==_refl at in rw own refl in
    let only : t.response_events ≡ out ∷ [] =
      queued ∙ ap (λ (l : List Event). l ++ out ∷ []) empty in
    let bad : handle_all_response_event pf pb t.response_events ss ≡ fault use_after_free =
      ap (λ l. handle_all_response_event pf pb l ss) only
      ∙ (unfold handle_all_response_event in
          rw (reply-freed pf pb out at ss kind (args ∙ to) gone) refl) in
    let closes : handle_error c ≡ ok closed =
      unfold handle_error close_connection session_free in refl in
    rw (run, step, found, closes, got, e, bad) refl
