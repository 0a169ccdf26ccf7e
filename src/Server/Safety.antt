-- ===== src/Server/Safety.antt =====
-- The server of src/, from its start: what no order of connections, requests, answers and responses
-- can bring about, and what an answered request comes to.
use shared_bike.Base.{
  ◌⊎◌, ℕ, ◌+◌, ◌≡◌, refl, ap, ◌∙◌, subst, true, false, inl, inr, some, none, [], ◌∷◌, ◌++◌, arith,
  get_elem?, Outcome-cases, ok, fault, missing_return,
}
use shared_bike.Protobuf.{Protobuf}
use shared_bike.Event.{Event}
use shared_bike.Dispatch.Process.{Handle, process}
use shared_bike.Network.{Platform, Connection}
use shared_bike.Network.Response.Flush.{IsReply, IsReset, Answered, After, any_for}
use shared_bike.Server.{Server, Act, serves, flushes, remove, step}
use shared_bike.Server.Count.{count_for, count_for-remove, one_for-own}
use shared_bike.Server.Invariant.{awaiting, ServerInv, Ends, awaiting_le}
use shared_bike.Server.Steps.{Enabled, serve-Inv, flush-Inv, step-Inv}
use shared_bike.Wire.{frame}
use shared_bike.Event.{serialized}
use shared_bike.Base.{append-nil}
use shared_bike.Network.Response.Flush.{frames_for}
use shared_bike.Dispatch.Subscribers.{EventHandlersMap}
use shared_bike.Server.{run}
use shared_bike.Server.Count.{any_for-append, frames_for-last}

-- The service is open, and there is no session yet.
abbrev pub started : {S : Type 0} → EventHandlersMap → S → ℕ → Server S
started m handlers sn = record {
  sessions = λ at. none;
  outstanding = [];
  lost = [];
  service = record {
    svr_exit = false;
    subscribers = m;
    response_events = [];
    handlers = handlers;
    sn = sn;
  };
}

module _ {S : Type 0} (pf : Platform) (pb : Protobuf) (handle : Handle S) where
  pub data Reach (start : Server S) : Server S → Type 0 where
    here : Reach start start
    next :
        {s t : Server S} (act : Act)
        → Reach start s
        → Enabled pf pb handle act s
        → step pf pb handle act s ≡ ok t
        → Reach start t

  started-Inv :
      (m : EventHandlersMap) (handlers : S) (sn : ℕ) → ServerInv pb (started m handlers sn)
  started-Inv m handlers sn = record {
    sound = λ at c h. cc;
    tally = λ at. omega arith;
    addressed = tt;
    replies = tt;
    open_ = refl;
  }

  pub Reach-Inv :
      {m : EventHandlersMap} {handlers : S} {sn : ℕ} {s : Server S}
      → Reach (started m handlers sn) s
      → ServerInv pb s
  Reach-Inv {m} {handlers} {sn} here = started-Inv m handlers sn
  Reach-Inv (next {s} {t} act r enabled e) =
      subst (Ends pb) e (step-Inv pf pb handle act s enabled (Reach-Inv r))

  -- From the started server, whatever bytes the clients send and in whatever order sessions connect,
  -- requests arrive, threads answer and responses go out, each act runs without a fault, or ends in
  -- the missing return of `parseEvent`: no session is used after it was freed, and no buffer is
  -- exceeded. A new session gets memory that is not in use, and its client's address has at most 31
  -- chars; the handlers answer each event with a message that fits the length field; and no session
  -- hangs up while it awaits a response.
  pub server-no_fault :
      {m : EventHandlersMap} {handlers : S} {sn : ℕ} {s : Server S}
      → Reach (started m handlers sn) s
      → (act : Act) → Enabled pf pb handle act s
      → ((t : Server S) × (step pf pb handle act s ≡ ok t))
        ⊎ (step pf pb handle act s ≡ fault missing_return)
  server-no_fault {s = s} r act enabled =
      let end = step-Inv pf pb handle act s enabled (Reach-Inv r) in
      elim (Outcome-cases (step pf pb handle act s)) [
        | inl (t, e) ↦ inl (t, e)
        | inr (x, e) ↦ inr (e ∙ ap fault (subst (Ends pb) e end))
      ]

  -- In every server reached from the started one in a run where new sessions got memory that was
  -- not in use, a client's address had at most 31 chars, each event that was run was answered,
  -- without a fault and with a message that fits the length field, and no session hung up while it
  -- awaited a response: a session that awaits its response has exactly one event, which is with a
  -- thread, among the responses or refused by the pool, and any other address has none.
  pub one_event :
      {m : EventHandlersMap} {handlers : S} {sn : ℕ} {s : Server S}
      → Reach (started m handlers sn) s
      → (at : ℕ)
      → count_for at s.outstanding + count_for at s.service.response_events + count_for at s.lost
        ≡ awaiting (s.sessions at)
  one_event r at = let inv = Reach-Inv r in inv.tally at

  -- In every server reached from the started one, when a thread has answered an event that is
  -- outstanding and the responses have gone out, its session's output has grown by exactly the frame
  -- of that answer, its unread input stays, it reads the next header, and the handlers are as the
  -- answer left them.
  pub served-answered :
      {m : EventHandlersMap} {handlers : S} {sn : ℕ} {s : Server S}
      → Reach (started m handlers sn) s
      → (i at : ℕ) (c : Connection) (ev rsp : Event) (st : S) (next_sn : ℕ)
      → get_elem? s.outstanding i ≡ some ev
      → ev.args ≡ some at
      → s.sessions at ≡ some c
      → process handle s.service.subscribers (some ev) (s.service.handlers, s.service.sn)
        ≡ ok (some rsp, (st, next_sn))
      → IsReply pb rsp
      → (t : Server S) × (c' : Connection) × (run pf pb handle (serves i ∷ flushes ∷ []) s ≡ ok t)
        × (t.sessions at ≡ some c')
        × IsReset c.session c'.session
        × (c'.output ≡ c.output ++ frame rsp.eid (serialized pb rsp.body))
        × (c'.input ≡ c.input)
        × (t.service.handlers ≡ st)
  unfolding run step
  served-answered {s = s} r i at c ev rsp st next_sn got to found done reply =
      let inv = Reach-Inv r in
      let evs = s.service.response_events in
      let (t, out, e, args, eid, body, queued, kept, inv') =
        serve-Inv pf pb handle i s ev rsp st next_sn inv got done reply in
      let (ss, e', each, _) =
        flush-Inv pf pb handle (record s { outstanding = remove s.outstanding i; service = t })
          inv' in
      let (c', now, output, input, aft) =
        subst (λ o. Answered pb t.response_events at o (ss at)) found (each at) in
      let none_yet : count_for at evs ≡ 0 = omega (
        arith,
        inv.tally at,
        awaiting_le (s.sessions at),
        count_for-remove at s.outstanding i ev got,
        one_for-own at ev to,
      ) in
      let own : frames_for pb at t.response_events ≡ frame rsp.eid (serialized pb rsp.body) =
        ap (frames_for pb at) queued
        ∙ (frames_for-last pb at evs out none_yet (args ∙ to)
            ∙ (append-nil (frame out.eid (serialized pb out.body))
                ∙ (λ k. frame (eid k) (serialized pb (body k))))) in
      let hit : any_for at t.response_events ≡ true =
        ap (any_for at) queued ∙ any_for-append at evs out (args ∙ to) in
      (
        record s {
          sessions = ss;
          outstanding = remove s.outstanding i;
          service = record t { response_events = [] };
        },
        c',
        rw (run, step, got, e, e') refl,
        now,
        subst (λ b. After b c.session c'.session) hit aft,
        output ∙ ap (◌++◌ c.output) own,
        input,
        kept,
      )
