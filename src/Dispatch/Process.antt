-- ===== src/Dispatch/Process.antt =====
-- `process` and `svc` of src/DispatchMsgService.cc. The subscribed handlers are virtual calls: here
-- a function of the handler's address on a state of theirs, and on the static event counter.
use shared_bike.Base.{
  ℕ, ◌≡◌, refl, ◌∙◌, ◌≢◌, ◌⊎◌, Bool, true, false, Option, none, some, List, [], ◌∷◌, ◌++◌, ◌==◌,
  if◌then◌else◌, inl, inr, arith, Outcome, Outcome-cases, ok, ◌>>=◌,
}
use shared_bike.Event.{Event, event_id, unknown, exit_rsp, exit_rsp_ev, new_exit_rsp_ev}
use shared_bike.Dispatch.Subscribers.{HandlerPtr, EventHandlers, EventHandlersMap, find_handlers}

pub record Service (S : Type 0) : Type 0 where
  pub svr_exit : Bool
  pub subscribers : EventHandlersMap
  pub response_events : List Event
  pub handlers : S
  pub sn : ℕ

-- `iEventHandler::handle` of every handler; a response of NULL is `none`.
abbrev pub Handle : Type 0 → Type 0
Handle S = HandlerPtr → Event → S × ℕ → Outcome (Option Event × (S × ℕ))

module _ {S : Type 0} (handle : Handle S) where
  -- The loop over the handlers: each response replaces the one before it.
  unfoldable pub process_loop :
      EventHandlers → Event → Option Event → S × ℕ → Outcome (Option Event × (S × ℕ))
  process_loop [] ev rsp st = ok (rsp, st)
  process_loop (h ∷ hs) ev rsp st = do (rsp', st') ← handle h ev st; process_loop hs ev rsp' st'

  unfoldable pub process :
      EventHandlersMap → Option Event → S × ℕ → Outcome (Option Event × (S × ℕ))
  process m none st = ok (none, st)
  process m (some ev) st =
      if ev.eid == event_id unknown then ok (none, st) else elim (find_handlers ev.eid m) [
        | none ↦ ok (none, st)
        | some hs ↦ process_loop hs ev none st
      ]

  -- The response that goes out: the handlers' own, or an `ExitRspEv`, with the event's session.
  unfoldable pub respond : Event → Option Event → ℕ → Event × ℕ
  respond ev none sn =
      let (exit, next) = new_exit_rsp_ev sn in (record exit { args = ev.args }, next)
  respond ev (some rsp) sn = (record rsp { args = ev.args }, sn)

  unfoldable pub svc : Service S → Event → Outcome (Service S)
  svc s ev = if s.svr_exit then ok s else (do
    (rsp, (st, sn)) ← process s.subscribers (some ev) (s.handlers, s.sn)
    let (out, next) = respond ev rsp sn
    ok (record s { response_events = s.response_events ++ out ∷ []; handlers = st; sn = next }))

  process_loop-append :
      (hs ks : EventHandlers) (ev : Event) (rsp : Option Event) (st : S × ℕ)
      → process_loop (hs ++ ks) ev rsp st
        ≡ (process_loop hs ev rsp st >>= λ (r, st'). process_loop ks ev r st')
  unfolding process_loop
  process_loop-append [] ks ev rsp st = refl
  process_loop-append (h ∷ hs) ks ev rsp st = elim (Outcome-cases (handle h ev st)) [
    | inl ((r, st'), e) ↦ rw (e, process_loop) (process_loop-append hs ks ev r st')
    | inr (x, e) ↦ rw (e, process_loop)
  ]

  process_loop_one :
      (h : HandlerPtr) (ev : Event) (rsp : Option Event) (st : S × ℕ)
      → process_loop (h ∷ []) ev rsp st ≡ handle h ev st
  unfolding process_loop
  process_loop_one h ev rsp st = elim (Outcome-cases (handle h ev st)) [
    | inl (r, e) ↦ rw (e, process_loop)
    | inr (x, e) ↦ rw (e, process_loop)
  ]

  only_last :
      (hs : EventHandlers) (h : HandlerPtr) (ev : Event) (st : S × ℕ)
      → (process_loop hs ev none st >>= λ (r, st'). process_loop (h ∷ []) ev r st')
        ≡ (process_loop hs ev none st >>= λ (_, st'). handle h ev st')
  only_last hs h ev st = elim (Outcome-cases (process_loop hs ev none st)) [
    | inl ((r, st'), e) ↦ rw e (process_loop_one h ev r st')
    | inr (x, e) ↦ rw e
  ]

  process-known :
      (m : EventHandlersMap) (ev : Event) (st : S × ℕ) (hs : EventHandlers)
      → ev.eid ≢ event_id unknown
      → find_handlers ev.eid m ≡ some hs
      → process m (some ev) st ≡ process_loop hs ev none st
  unfolding process
  process-known m ev st hs ne e =
      let known : (ev.eid == event_id unknown) ≡ false = ground arith in rw (known, e, process)

  -- For an event of a known id that has subscribers, every one of them runs on it, in order of
  -- subscription, and the response is that of the last one alone: what the others return is
  -- dropped.
  pub process-last :
      (m : EventHandlersMap) (ev : Event) (st : S × ℕ) (hs : EventHandlers) (h : HandlerPtr)
      → ev.eid ≢ event_id unknown
      → find_handlers ev.eid m ≡ some (hs ++ h ∷ [])
      → process m (some ev) st ≡ (process_loop hs ev none st >>= λ (_, st'). handle h ev st')
  process-last m ev st hs h ne e =
      process-known m ev st (hs ++ h ∷ []) ne e
      ∙ (process_loop-append hs (h ∷ []) ev none st ∙ only_last hs h ev st)

  -- An event with no subscriber, or of the unknown id, reaches no handler.
  pub process-nobody :
      (m : EventHandlersMap) (ev : Event) (st : S × ℕ)
      → (ev.eid ≡ event_id unknown) ⊎ (find_handlers ev.eid m ≡ none)
      → process m (some ev) st ≡ ok (none, st)
  unfolding process
  process-nobody m ev st (inl e) = rw e
  process-nobody m ev st (inr e) = ground arith

  -- `out` is what goes back for the event `ev` that the handlers answered with `rsp`.
  abbrev pub Answers : Event → Option Event → Event → Type 0
  Answers ev none out =
      (out.args ≡ ev.args) × (out.eid ≡ event_id exit_rsp) × (out.body ≡ exit_rsp_ev)
  Answers ev (some r) out = (out.args ≡ ev.args) × (out.eid ≡ r.eid) × (out.body ≡ r.body)

  respond-Answers :
      (ev : Event) (rsp : Option Event) (sn : ℕ) → Answers ev rsp (respond ev rsp sn).0
  unfolding respond new_exit_rsp_ev
  respond-Answers ev none sn = (refl, refl, refl)
  respond-Answers ev (some r) sn = (refl, refl, refl)

  -- While the service is open and the handlers return, `svc` queues exactly one response behind
  -- those that wait. It carries the event's session, and is the handlers' response, or an exit
  -- response where they return none. The subscriptions stay.
  pub svc-responds :
      (s : Service S) (ev : Event) (rsp : Option Event) (st : S) (sn : ℕ)
      → s.svr_exit ≡ false
      → process s.subscribers (some ev) (s.handlers, s.sn) ≡ ok (rsp, (st, sn))
      → (t : Service S) × (out : Event) × (svc s ev ≡ ok t)
        × Answers ev rsp out
        × (t.response_events ≡ s.response_events ++ out ∷ [])
        × (t.handlers ≡ st)
        × (t.subscribers ≡ s.subscribers)
  unfolding svc
  svc-responds s ev rsp st sn open_ e = (
    record s {
      response_events = s.response_events ++ (respond ev rsp sn).0 ∷ [];
      handlers = st;
      sn = (respond ev rsp sn).1;
    },
    (respond ev rsp sn).0,
    rw (open_, e, svc),
    respond-Answers ev rsp sn,
    refl,
    refl,
    refl,
  )

  -- Once the service is closing, events are dropped without a response.
  pub svc-closed : (s : Service S) (ev : Event) → s.svr_exit ≡ true → svc s ev ≡ ok s
  unfolding svc
  svc-closed s ev e = rw e
