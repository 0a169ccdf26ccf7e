-- ===== src/Assembled/Safety.antt =====
-- The server of src/ with its pool, from its start: it does what the server whose pool is a list of
-- events does, whatever order its callbacks and its threads run in.
use shared_bike.Base.{
  arith, Outcome-cases, ◌⊎◌, some_inj, false, ℕ, ◌≡◌, refl, sym, ap, ◌∙◌, subst, inl, inr, none,
  some, [], ◌∷◌, ◌++◌, get_elem?, ok, fault, missing_return,
}
use shared_bike.Wire.{frame}
use shared_bike.Protobuf.{Protobuf}
use shared_bike.Event.{Event, serialized}
use shared_bike.Dispatch.Subscribers.{EventHandlersMap}
use shared_bike.Dispatch.Process.{Handle, process}
use shared_bike.Network.{Platform, Connection}
use shared_bike.Network.Response.Flush.{IsReply, IsReset}
use shared_bike.ThreadPool.{Ptr, Task, Cells, CycleAnswers, running}
use shared_bike.ThreadPool.System.Safety.{initial_system, initial-Inv, initial-looping}
use shared_bike.Server.{run, Server, Act, step}
use shared_bike.Server.Safety.{started}
use shared_bike.Server.Safety
use shared_bike.Assembled.{Assembled, Move, takes_turn, flushes, move, moves}
use shared_bike.Assembled.Refines.{Implements}
use shared_bike.Assembled.Steps.{serving_turn, Matches, Replies, CanMove, Follows}
use shared_bike.Assembled.Matches.{flushes-same, move-Matches}

-- The pool that `thread_pool_init` starts, the service open, and no session yet.
abbrev pub assembled : {S : Type 0} → Cells → ℕ → EventHandlersMap → S → ℕ → Assembled S
assembled c ids m handlers sn = record {
  sessions = λ at. none;
  system = initial_system c ids;
  events = λ at. none;
  service = record {
    svr_exit = false;
    subscribers = m;
    response_events = [];
    handlers = handlers;
    sn = sn;
  };
}

pub assembled-Implements :
    {S : Type 0} (c : Cells) (ids : ℕ) (m : EventHandlersMap) (handlers : S) (sn : ℕ)
    → Implements (assembled c ids m handlers sn) (started m handlers sn)
assembled-Implements c ids m handlers sn = record {
  queue = [];
  accepted = [];
  sessions = refl;
  service = refl;
  pool = initial-Inv c ids;
  all_svc = record {
    queued = λ t h. cc;
    run = λ i t h. let e = initial-looping 4 i (running t) h in absurd (cc);
  };
  stand = tt;
  held = λ n. omega arith;
}

module _ {S : Type 0} (pf : Platform) (pb : Protobuf) (handle : Handle S) where
  pub data Reach (start : Assembled S) : Assembled S → Type 0 where
    here : Reach start start
    next :
        {w v : Assembled S} (m : Move)
        → Reach start w
        → CanMove pf pb handle m w
        → move pf pb handle m w ≡ ok v
        → Reach start v

  Follows-Reach :
      {start s t : Server S}
      → Safety.Reach pf pb handle start s
      → Follows pf pb handle s t
      → Safety.Reach pf pb handle start t
  Follows-Reach r (inl e) = subst (Safety.Reach pf pb handle _) (sym e) r
  Follows-Reach r (inr (act, enabled, e)) = Safety.Reach.next act r enabled e

  -- Every state that the server with its pool reaches is one that the server of the list reaches.
  pub Reach-Implements :
      {c : Cells} {ids : ℕ} {m : EventHandlersMap} {handlers : S} {sn : ℕ} {w : Assembled S}
      → Reach (assembled c ids m handlers sn) w
      → (s : Server S) × Safety.Reach pf pb handle (started m handlers sn) s × Implements w s
  Reach-Implements {c} {ids} {m} {handlers} {sn} here =
      (started m handlers sn, Safety.Reach.here, assembled-Implements c ids m handlers sn)
  Reach-Implements (next {w} {v} act r can e) =
      let (s, reach, imp) = Reach-Implements r in
      elim (move-Matches pf pb handle imp (Safety.Reach-Inv pf pb handle reach) act can) [
        | inl (v', t, e', follows, imp') ↦
            let same : v' ≡ v = ground (arith, e, e') in
            (t, Follows-Reach reach follows, subst (λ u. Implements u t) same imp')
        | inr bad ↦ let clash = sym e ∙ bad in absurd (cc)
      ]

  -- As long as sessions, tasks and events get memory that is not in use, a client's address has at
  -- most 31 chars, the handlers answer each event that a thread runs with a message that fits the
  -- length field, and no session hangs up while it awaits a response, the server with its pool
  -- refines the server whose pool is a list of the accepted events: every state that it reaches by
  -- such moves implements one that the other reaches, and such a move there is one act of the other
  -- or none, after which it implements the other again, or it ends in the missing return of
  -- `parseEvent`.
  pub Reach-Matches :
      {c : Cells} {ids : ℕ} {m : EventHandlersMap} {handlers : S} {sn : ℕ} {w : Assembled S}
      → Reach (assembled c ids m handlers sn) w
      → (act : Move) → CanMove pf pb handle act w
      → (s : Server S) × Safety.Reach pf pb handle (started m handlers sn) s
        × Implements w s
        × Matches pf pb handle act w s
  Reach-Matches r act can =
      let (s, reach, imp) = Reach-Implements r in
      (s, reach, imp, move-Matches pf pb handle imp (Safety.Reach-Inv pf pb handle reach) act can)

  -- From its start, whatever bytes the clients send, and in whatever order the callbacks of the
  -- network thread and the steps of the pool's threads run and whatever their pthread calls return,
  -- each move of the server runs without a fault, or ends in the missing return of `parseEvent`: no
  -- task, no event and no session is used after it was freed. Sessions, tasks and events get memory
  -- that is not in use, a client's address has at most 31 chars, the handlers answer each event that
  -- a thread runs with a message that fits the length field, and no session hangs up while it awaits
  -- a response.
  pub assembled-no_fault :
      {c : Cells} {ids : ℕ} {m : EventHandlersMap} {handlers : S} {sn : ℕ} {w : Assembled S}
      → Reach (assembled c ids m handlers sn) w
      → (act : Move) → CanMove pf pb handle act w
      → ((v : Assembled S) × (move pf pb handle act w ≡ ok v))
        ⊎ (move pf pb handle act w ≡ fault missing_return)
  assembled-no_fault r act can =
      let (_, _, _, matches) = Reach-Matches r act can in
      elim (matches) [ inl (v, _, e, _, _) ↦ inl (v, e) | inr bad ↦ inr bad ]

  run_second :
      (a b : Act) (s u t : Server S)
      → step pf pb handle a s ≡ ok u
      → run pf pb handle (a ∷ b ∷ []) s ≡ ok t
      → step pf pb handle b u ≡ ok t
  unfolding run
  run_second a b s u t first both = elim (Outcome-cases (step pf pb handle b u)) [
    | inl (t', e) ↦ let same : ok t' ≡ ok t = rw (first, e) at both in e ∙ same
    | inr (x, e) ↦ let clash : fault x ≡ ok t = rw (first, e) at both in absurd (cc)
  ]

  -- In every state that the server with its pool reaches in a run where sessions, tasks and events
  -- got memory that was not in use, a client's address had at most 31 chars, the handlers answered
  -- each event that a thread ran with a message that fits the length field, and no session hung up
  -- while it awaited a response: when a thread that runs the task of an event goes on, the handlers
  -- answer that event with such a message, and the responses go out, the client of the event's
  -- session has, behind what it had, exactly the frame of the handlers' answer; its unread input
  -- stays, and its session reads the next header; and the handlers are as their answer left them.
  pub assembled-answered :
      {c : Cells} {ids : ℕ} {m : EventHandlersMap} {handlers : S} {sn : ℕ} {w : Assembled S}
      → Reach (assembled c ids m handlers sn) w
      → (i : ℕ) (a : CycleAnswers) (t : Ptr) (task : Task) (ev rsp : Event) (at : ℕ)
        (conn : Connection) (st : S) (next_sn : ℕ)
      → get_elem? w.system.pcs i ≡ some (running t)
      → w.system.pool.cells t ≡ some task
      → w.events task.ctx ≡ some ev
      → ev.args ≡ some at
      → w.sessions at ≡ some conn
      → process handle w.service.subscribers (some ev) (w.service.handlers, w.service.sn)
        ≡ ok (some rsp, (st, next_sn))
      → IsReply pb rsp
      → (v : Assembled S) × (conn' : Connection) × (moves pf pb handle
            (takes_turn i a ∷ flushes ∷ [])
            w
          ≡ ok v)
        × (v.sessions at ≡ some conn')
        × IsReset conn.session conn'.session
        × (conn'.output ≡ conn.output ++ frame rsp.eid (serialized pb rsp.body))
        × (conn'.input ≡ conn.input)
        × (v.service.handlers ≡ st)
  unfolding moves
  assembled-answered {w = w} r i a t task ev rsp at conn st next_sn runs holds stands to found done
        reply =
      let (s, reach, imp) = Reach-Implements r in
      let inv = Safety.Reach-Inv pf pb handle reach in
      let own : (t' : Ptr) (task' : Task) (ev' : Event)
          → get_elem? w.system.pcs i ≡ some (running t')
          → w.system.pool.cells t' ≡ some task'
          → w.events task'.ctx ≡ some ev'
          → ev' ≡ ev =
        λ t' task' ev' h1 h2 h3.
          let same_t : running t' ≡ running t = some_inj (sym h1 ∙ runs) in
          let same : t' ≡ t = ground arith in
          let same_task : task' ≡ task =
            some_inj (sym h2 ∙ (ap w.system.pool.cells same ∙ holds)) in
          some_inj (sym h3 ∙ (ap (λ z. w.events z.ctx) same_task ∙ stands)) in
      let can : CanMove pf pb handle (takes_turn i a) w = λ t' task' ev' h1 h2 h3.
        subst (Replies pf pb handle w.service) (sym (own t' task' ev' h1 h2 h3))
          (rsp, st, next_sn, done, reply) in
      let (
        task',
        ev',
        j,
        w',
        u,
        holds',
        stands',
        got,
        (rsp', st', sn', done', reply'),
        moved,
        stepped,
        imp',
      ) =
        serving_turn pf pb handle imp i a t runs can inv.open_ in
      let same : ev' ≡ ev = own t task' ev' runs holds' stands' in
      let (z, conn', ran, now, reset, out, inp, kept) =
        Safety.served-answered pf pb handle reach j at conn ev rsp st next_sn (got ∙ ap some same)
          to (ap (λ ss. ss at) imp.sessions ∙ found)
          ((λ k.
              process handle (imp.service k).subscribers (some ev)
                ((imp.service k).handlers, (imp.service k).sn))
            ∙ done)
          reply in
      let next = run_second (Act.serves j) Act.flushes s u z stepped ran in
      let inv' = Safety.Reach-Inv pf pb handle (
        Safety.Reach.next (Act.serves j) reach (ev', rsp', st', sn', got, done', reply') stepped) in
      let (v, sent, same_sessions, same_service) = flushes-same pf pb handle imp' inv' z next in
      (
        v,
        conn',
        rw (moved, sent, moves),
        ap (λ ss. ss at) same_sessions ∙ now,
        reset,
        out,
        inp,
        ap (λ z. z.handlers) same_service ∙ kept,
      )
