-- ===== src/Assembled/Codes.antt =====
-- Requests for a validation code, through the server of src/ with its pool and its
-- `UserEventHandler`.
use shared_bike.Base.{
  ◌^◌, ◌<◌, ℕ, ◌+◌, ◌%◌, ◌≡◌, refl, sym, ap, ◌∙◌, subst, Bool-cases, inl, inr, some, Option-cases,
  [], ◌∷◌, ◌++◌, Bytes, get_elem?, Outcome, Outcome-cases, ok, fault,
}
use shared_bike.Wire.{frame}
use shared_bike.Protobuf.{Protobuf}
use shared_bike.Event.{
  Event, event_id, get_mobile_code_req, get_mobile_code_rsp, mobile_code_req_ev, byte_size,
  serialized,
}
use shared_bike.Dispatch.Subscribers.{HandlerPtr, EventHandlersMap, find_handlers}
use shared_bike.Dispatch.Process.{Service, Handle, svc, process}
use shared_bike.Network.{Platform, Connection, listener_cb, handle_request}
use shared_bike.Network.Request.Chunks.{receive}
use shared_bike.Network.Response.{handle_all_response_event, handle_error}
use shared_bike.Network.Response.Flush.{IsReply, IsReset}
use shared_bike.ThreadPool.{Ptr, Task, Cells, CycleAnswers, running}
use shared_bike.Database.{Mysql, ConnectArgs}
use shared_bike.User.{UserState, find_code}
use shared_bike.Server.{Server, Act, connects, arrives, serves, flushes, hangs_up, step}
use shared_bike.Server.Safety.{started}
use shared_bike.Server.Safety
use shared_bike.Server.Codes.{
  user_handle, code_response, response_event, remembering, remembering-code, process-code,
}
use shared_bike.Assembled.{Assembled, Move, moves}
use shared_bike.Assembled.Safety.{assembled, Reach, Reach-Implements, assembled-answered}

module _ {S : Type 0} (pf : Platform) (pb : Protobuf) (handle : Handle S) where
  abbrev Keeps : EventHandlersMap → Outcome (Server S) → Type 0
  Keeps m (ok t) = t.service.subscribers ≡ m
  Keeps m (fault x) = Unit {0}

  abbrev SvcKeeps : EventHandlersMap → Outcome (Service S) → Type 0
  SvcKeeps m (ok t) = t.subscribers ≡ m
  SvcKeeps m (fault x) = Unit {0}

  svc-SvcKeeps : (s : Service S) (ev : Event) → SvcKeeps s.subscribers (svc handle s ev)
  unfolding svc
  svc-SvcKeeps s ev = elim (Bool-cases (s.svr_exit)) [
    | inl shut ↦ rw (shut, svc) refl
    | inr open_ ↦ elim (Outcome-cases (process handle s.subscribers (some ev) (s.handlers, s.sn))) [
      | inl (r, e) ↦ rw (open_, svc, e) refl
      | inr (x, e) ↦ rw (open_, svc, e) tt
    ]
  ]

  -- No act subscribes or unsubscribes.
  step-Keeps : (act : Act) (s : Server S) → Keeps s.service.subscribers (step pf pb handle act s)
  unfolding step
  step-Keeps (connects at fd bev ip) s = elim (Outcome-cases (listener_cb fd bev ip)) [
    | inl (c, e) ↦ rw (e, step) refl
    | inr (x, e) ↦ rw (e, step) tt
  ]
  step-Keeps (arrives at piece accepted) s = elim (Option-cases (s.sessions at)) [
    | inl missing ↦ rw (missing, step) refl
    | inr (c, found) ↦
        elim (Outcome-cases (handle_request pf pb at s.service.sn (receive c piece))) [
          | inl (h, e) ↦ rw (found, step, e) refl
          | inr (x, e) ↦ rw (found, step, e) tt
        ]
  ]
  step-Keeps (serves i) s = elim (Option-cases (get_elem? s.outstanding i)) [
    | inl missing ↦ rw (missing, step) refl
    | inr (ev, got) ↦ elim (Outcome-cases (svc handle s.service ev)) [
      | inl (t, e) ↦
          rw (got, step, e) (subst (SvcKeeps s.service.subscribers) e (svc-SvcKeeps s.service ev))
      | inr (x, e) ↦ rw (got, step, e) tt
    ]
  ]
  step-Keeps flushes s =
      elim (Outcome-cases (handle_all_response_event pf pb s.service.response_events s.sessions)) [
        | inl (ss, e) ↦ rw (e, step) refl
        | inr (x, e) ↦ rw (e, step) tt
      ]
  step-Keeps (hangs_up at) s = elim (Option-cases (s.sessions at)) [
    | inl missing ↦ rw (missing, step) refl
    | inr (c, found) ↦ elim (Outcome-cases (handle_error c)) [
      | inl (cb, e) ↦ rw (found, step, e) refl
      | inr (x, e) ↦ rw (found, step, e) tt
    ]
  ]

  server_subscribers :
      {m : EventHandlersMap} {handlers : S} {sn : ℕ} {s : Server S}
      → Safety.Reach pf pb handle (started m handlers sn) s
      → s.service.subscribers ≡ m
  server_subscribers Safety.Reach.here = refl
  server_subscribers (Safety.Reach.next {s} {t} act r enabled e) =
      subst (Keeps s.service.subscribers) e (step-Keeps act s) ∙ server_subscribers r

  -- The subscriptions are those of the start.
  pub reached_subscribers :
      {c : Cells} {ids : ℕ} {m : EventHandlersMap} {handlers : S} {sn : ℕ} {w : Assembled S}
      → Reach pf pb handle (assembled c ids m handlers sn) w
      → w.service.subscribers ≡ m
  reached_subscribers r =
      let (s, reach, imp) = Reach-Implements pf pb handle r in
      ap (λ v. v.subscribers) (sym imp.service) ∙ server_subscribers reach

module _ {W : Type 0} (sql : Mysql W) (rand : W → ℕ × W) (conf : ConnectArgs) where
  -- A thread that runs the task of a request for a code, and the responses that go out.
  pub code-answered :
      (pf : Platform) (pb : Protobuf) {c : Cells} {ids : ℕ} {m : EventHandlersMap}
      {handlers : UserState W} {sn : ℕ} {w : Assembled (UserState W)}
      → Reach pf pb (user_handle sql rand conf) (assembled c ids m handlers sn) w
      → (self : HandlerPtr) → find_handlers (event_id get_mobile_code_req) m ≡ some (self ∷ [])
      → (i : ℕ) (a : CycleAnswers) (t : Ptr) (task : Task) (ev : Event) (at : ℕ) (conn : Connection)
        (mobile : Bytes)
      → get_elem? w.system.pcs i ≡ some (running t)
      → w.system.pool.cells t ≡ some task
      → w.events task.ctx ≡ some ev
      → ev.args ≡ some at
      → ev.eid ≡ event_id get_mobile_code_req
      → ev.body ≡ mobile_code_req_ev (record { mobile = mobile })
      → w.sessions at ≡ some conn
      → 10 + pb.mobile_response.byte_size (code_response sql rand conf w.service.handlers) < 2 ^ 32
      → (v : Assembled (UserState W)) × (conn' : Connection) × (moves pf pb
            (user_handle sql rand conf)
            (Move.takes_turn i a ∷ Move.flushes ∷ [])
            w
          ≡ ok v)
        × (v.sessions at ≡ some conn')
        × IsReset conn.session conn'.session
        × (conn'.output
            ≡ conn.output
              ++ frame
                  (event_id get_mobile_code_rsp)
                  (pb.mobile_response.serialize (code_response sql rand conf w.service.handlers)))
        × (find_code mobile v.service.handlers.m2c
            ≡ some (code_response sql rand conf w.service.handlers).icode)
  unfolding serialized byte_size
  code-answered pf pb {w = w} r self one i a t task ev at conn mobile runs holds stands to id body
        found small =
      let st = w.service.handlers in
      let rsp = response_event sql rand conf st w.service.sn in
      let here : find_handlers ev.eid w.service.subscribers ≡ some (self ∷ []) =
        (λ k. find_handlers (id k) (reached_subscribers pf pb (user_handle sql rand conf) r k))
        ∙ one in
      let done =
        process-code sql rand conf w.service.subscribers self ev mobile st w.service.sn here id
          body in
      let reply : IsReply pb rsp = record { eid = inl refl; small = small } in
      let (v, conn', ran, now, reset, output, _, kept) =
        assembled-answered pf pb (user_handle sql rand conf) r i a t task ev rsp at conn
          (remembering sql rand conf mobile st) ((w.service.sn + 1) % 2 ^ 32) runs holds stands to
          found done reply in
      (
        v,
        conn',
        ran,
        now,
        reset,
        output,
        ap (λ (u : UserState W). find_code mobile u.m2c) kept
            ∙ remembering-code sql rand conf mobile st,
      )
