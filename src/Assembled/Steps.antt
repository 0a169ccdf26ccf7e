-- ===== src/Assembled/Steps.antt =====
-- Each move of the server with its pool, of src/, is one of the server whose pool is a list of events,
-- or none.
use shared_bike.Base.{
  ◌⊎◌, ℕ, ◌≤◌, ◌≡◌, refl, sym, ap, ◌∙◌, subst, ◌≢◌, inl, false, none, some, some_inj, arith, length,
  get_elem?, set, ok, fault, missing_return,
}
use shared_bike.Protobuf.{Protobuf}
use shared_bike.Event.{Event}
use shared_bike.Dispatch.Process.{Service, Handle, process, svc-responds}
use shared_bike.Dispatch.Process
use shared_bike.Network.{Platform}
use shared_bike.Network.Response.Flush.{IsReply}
use shared_bike.ThreadPool.{Ptr, null, svc, Task, CycleAnswers, Pc, running}
use shared_bike.ThreadPool.Work.{work}
use shared_bike.ThreadPool.Queue.{deref-ok}
use shared_bike.ThreadPool.System.{turns}
use shared_bike.ThreadPool.System
use shared_bike.ThreadPool.System.Fifo.{ctx_at, ctx_of}
use shared_bike.ThreadPool.System.Turn.{thread_pool_cycle-Turn}
use shared_bike.Server.{Server, Act, serves, remove, step}
use shared_bike.Server.Invariant.{awaiting}
use shared_bike.Server.Steps.{Enabled}
use shared_bike.Assembled.{
  Assembled, Move, connects, arrives, takes_turn, flushes, hangs_up, run_task, call_handler, move,
}
use shared_bike.Assembled.Contexts.{
  busy_at, busy-get, one_own, one, count-find, count-remove, StandAt-get, StandAt-remove,
}
use shared_bike.Assembled.Refines.{Implements, Turn-Implements}

module _ {S : Type 0} (pf : Platform) (pb : Protobuf) (handle : Handle S) where
  -- The handlers answer an event with a message.
  abbrev pub Replies : Service S → Event → Type 0
  Replies v ev =
      (rsp : Event) × (st : S) × (sn : ℕ) × (process handle v.subscribers (some ev)
          (v.handlers, v.sn)
        ≡ ok (some rsp, (st, sn)))
      × IsReply pb rsp

  -- What a move needs: memory that is not in use, a client address of at most 31 chars, handlers that
  -- answer the event of the task that a thread runs, and that no session hangs up while it awaits a
  -- response.
  abbrev pub CanMove : Move → Assembled S → Type 0
  CanMove (connects at fd bev ip) w = (w.sessions at ≡ none) × (length ip ≤ 31)
  CanMove (arrives at piece event_at fresh a) w =
      (fresh ≢ null) × (w.system.pool.cells fresh ≡ none) × (w.events event_at ≡ none)
  CanMove (takes_turn i a) w =
      (t : Ptr) (task : Task) (ev : Event)
      → get_elem? w.system.pcs i ≡ some (running t)
      → w.system.pool.cells t ≡ some task
      → w.events task.ctx ≡ some ev
      → Replies w.service ev
  CanMove flushes w = Unit {0}
  CanMove (hangs_up at) w = awaiting (w.sessions at) ≡ 0

  -- One enabled act, or none.
  abbrev pub Follows : Server S → Server S → Type 0
  Follows s t =
      (t ≡ s) ⊎ ((act : Act) × Enabled pf pb handle act s × (step pf pb handle act s ≡ ok t))

  -- The move and what it implements, or the missing return of `parseEvent`.
  abbrev pub Matches : Move → Assembled S → Server S → Type 0
  Matches m w s =
      ((w' : Assembled S) × (t : Server S) × (move pf pb handle m w ≡ ok w')
        × Follows s t
        × Implements w' t)
      ⊎ (move pf pb handle m w ≡ fault missing_return)

  module _ {w : Assembled S} {s : Server S} (imp : Implements w s) where
    -- A thread that runs no task: only the pool changes.
    pub idle_turn :
        (i : ℕ) (a : CycleAnswers) (pc : Pc)
        → get_elem? w.system.pcs i ≡ some pc
        → run_task pf pb handle (some pc) w ≡ ok w.service
        → ((n : ℕ) → busy_at n w.system.pool.cells pc ≡ 0)
        → Matches (takes_turn i a) w s
    unfolding move System.step
    idle_turn i a pc at idle none_busy =
        let (pc', r, ys, e, turn) =
          thread_pool_cycle-Turn a w.system.pool imp.queue pc imp.pool.queue
            (imp.pool.holding i pc at) in
        inl (
          record w { system = record { pool = r; pcs = set w.system.pcs i pc' } },
          s,
          rw (at, idle, move, System.step, e),
          inl refl,
          Turn-Implements imp i pc pc' r ys w.service imp.accepted at turn
              (λ n. omega (arith, none_busy n)) s imp.sessions imp.service imp.stand,
        )

    -- The event of the task that a thread runs is outstanding.
    pub run_event :
        (i : ℕ) (t : Ptr)
        → get_elem? w.system.pcs i ≡ some (running t)
        → (task : Task) × (ev : Event) × (j : ℕ) × (w.system.pool.cells t ≡ some task)
          × (t ≢ null)
          × (task.handler ≡ svc)
          × (w.events task.ctx ≡ some ev)
          × (get_elem? s.outstanding j ≡ some ev)
          × (get_elem? imp.accepted j ≡ some task.ctx)
    run_event i t at =
        let (ne, _, (task, holds)) = imp.pool.holding i (running t) at in
        let (ctx, works) = imp.all_svc.run i t at in
        let does : (task.handler, task.ctx) ≡ (svc, ctx) = some_inj (sym (ap work holds) ∙ works) in
        let own : ctx_at w.system.pool.cells t ≡ task.ctx = ap (λ o. ctx_of (work o)) holds in
        let runs : 1 ≤ busy_at task.ctx w.system.pool.cells (running t) =
          omega (arith, ap (one task.ctx) own, one_own task.ctx) in
        let (j, here) = count-find task.ctx imp.accepted (
          omega (
            arith,
            runs,
            imp.held task.ctx,
            busy-get task.ctx w.system.pool.cells w.system.pcs i (running t) at,
          )) in
        let (ev, got, stands) =
          StandAt-get w.events imp.accepted s.outstanding j task.ctx imp.stand here in
        (task, ev, j, holds, ne, ap (λ u. u.0) does, stands, got, here)

    -- A thread that runs a task: it serves the event of the task.
    pub serving_turn :
        (i : ℕ) (a : CycleAnswers) (t : Ptr)
        → get_elem? w.system.pcs i ≡ some (running t)
        → CanMove (takes_turn i a) w
        → s.service.svr_exit ≡ false
        → (task : Task) × (ev : Event) × (j : ℕ) × (w' : Assembled S) × (u : Server S)
          × (w.system.pool.cells t ≡ some task)
          × (w.events task.ctx ≡ some ev)
          × (get_elem? s.outstanding j ≡ some ev)
          × Replies s.service ev
          × (move pf pb handle (takes_turn i a) w ≡ ok w')
          × (step pf pb handle (serves j) s ≡ ok u)
          × Implements w' u
    unfolding move run_task call_handler System.step step
    serving_turn i a t at can open_ =
        let (task, ev, j, holds, ne, does, stands, got, here) = run_event i t at in
        let replies : Replies s.service ev =
          subst (λ v. Replies v ev) (sym imp.service) (can t task ev at holds stands) in
        let (rsp, st, sn, done, reply) = replies in
        let (v, _, served, _, _, _, _) =
          svc-responds handle s.service ev (some rsp) st sn open_ done in
        let called : Process.svc handle w.service ev ≡ ok v =
          ap (λ x. Process.svc handle x ev) (sym imp.service) ∙ served in
        let (pc', r, ys, e, turn) =
          thread_pool_cycle-Turn a w.system.pool imp.queue (running t) imp.pool.queue
            (imp.pool.holding i (running t) at) in
        let u = record s { outstanding = remove s.outstanding j; service = v } in
        (
          task,
          ev,
          j,
          record w { system = record { pool = r; pcs = set w.system.pcs i pc' }; service = v },
          u,
          holds,
          stands,
          got,
          replies,
          rw (
            at,
            run_task,
            deref-ok w.system.pool.cells t task holds ne,
            does,
            call_handler,
            stands,
            called,
            System.step,
            e,
          ),
          rw (got, step, served),
          Turn-Implements imp i (running t) pc' r ys v (remove imp.accepted j) at turn
              (λ n.
                let own : ctx_at w.system.pool.cells t ≡ task.ctx =
                  ap (λ o. ctx_of (work o)) holds in
                omega (arith, count-remove n imp.accepted j task.ctx here, ap (one n) own))
              u imp.sessions refl (StandAt-remove w.events imp.accepted s.outstanding j imp.stand),
        )
