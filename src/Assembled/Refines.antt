-- ===== src/Assembled/Refines.antt =====
-- What relates the server with its pool, of src/, to the server whose pool is the list of the events
-- that it has accepted.
use shared_bike.Base.{
  ℕ, ◌+◌, ◌≤◌, ◌≡◌, sym, ap, ◌∙◌, subst, ◌≢◌, Bool, true, false, Bool-cases, inl, inr, Option, none,
  some, List, [], ◌∷◌, ◌==◌, ==_iff, ==_refl, arith, if◌then◌else◌, get_elem?, set,
}
use shared_bike.Event.{Event}
use shared_bike.Dispatch.Process.{Service}
use shared_bike.Network.Response.{Sessions}
use shared_bike.ThreadPool.{Ptr, svc, PostAnswers, Pool, Pc}
use shared_bike.ThreadPool.Work.{work}
use shared_bike.ThreadPool.Queue.{has, has-append, accepts}
use shared_bike.ThreadPool.System.{System}
use shared_bike.ThreadPool.System.Turn.{Turn}
use shared_bike.ThreadPool.System.Invariant.{Inv, Turn-Inv}
use shared_bike.ThreadPool.System.Steps.{queue_after, running-ne}
use shared_bike.ThreadPool.System.Fifo.{contexts}
use shared_bike.Server.{Server, enqueued_to}
use shared_bike.Assembled.{Assembled}
use shared_bike.Assembled.Contexts.{
  busy_at, count, count-append, busy, busy-frame, StandAt, StandAt-new, StandAt-append,
}
use shared_bike.Assembled.Posts.{Posted, contexts_after}
use shared_bike.Assembled.Turns.{AllSvc, Turn-count, Turn-busy, Turn-AllSvc}

-- The threads run `svc` on events that the abstract server has outstanding, each once, and so will
-- those that take the queued tasks. `accepted` are the contexts of the outstanding events.
pub record Implements {S : Type 0} (w : Assembled S) (s : Server S) : Type 0 where
  pub queue : List Ptr
  pub accepted : List ℕ
  pub sessions : s.sessions ≡ w.sessions
  pub service : s.service ≡ w.service
  pub pool : Inv w.system queue
  pub all_svc : AllSvc w.system queue
  pub stand : StandAt w.events accepted s.outstanding
  pub held :
      (n : ℕ)
      → count n (contexts w.system.pool.cells queue) + busy n w.system.pool.cells w.system.pcs
        ≤ count n accepted

-- The queue after a post has tasks of `svc` alone.
post-AllSvc :
    (b : Bool) (s : System) (xs : List Ptr) (fresh ctx : ℕ) (r : Pool)
    → Inv s xs
    → s.pool.cells fresh ≡ none
    → work (r.cells fresh) ≡ some (svc, ctx)
    → ((t : Ptr) → t ≢ fresh → work (r.cells t) ≡ work (s.pool.cells t))
    → AllSvc s xs
    → AllSvc (record s { pool = r }) (queue_after b xs fresh)
post-AllSvc b s xs fresh ctx r inv new own others all = record {
  queued = λ t h. elim (Bool-cases (t == fresh)) [
    | inl here ↦ (ctx, ap (λ z. work (r.cells z)) ((==_iff t fresh).0 here) ∙ own)
    | inr other ↦
        let ne : t ≢ fresh = ground arith in
        let (n, e) = all.queued t (queued b t other h) in (n, others t ne ∙ e)
  ];
  run = λ i t h. let (n, e) = all.run i t h in (n, others t (running-ne inv fresh new i t h) ∙ e);
}
  where
    queued :
        (b : Bool) (t : Ptr)
        → (t == fresh) ≡ false
        → has t (queue_after b xs fresh) ≡ true
        → has t xs ≡ true
    queued true t other h = ground (arith, other, h, has-append t xs (fresh ∷ []))
    queued false t other h = h

held_after :
    (b : Bool) (ns ms : List ℕ) (ctx n k : ℕ)
    → count n ns + k ≤ count n ms
    → count n (contexts_after b ns ctx) + k ≤ count n (contexts_after b ms ctx)
held_after true ns ms ctx n k h =
    omega (arith, h, count-append n ns (ctx ∷ []), count-append n ms (ctx ∷ []))
held_after false ns ms ctx n k h = h

stand_after :
    (b : Bool) (events : ℕ → Option Event) (ns : List ℕ) (es : List Event) (ctx : ℕ) (ev : Event)
    → events ctx ≡ none
    → StandAt events ns es
    → StandAt
        (λ p. if p == ctx then some ev else events p)
        (contexts_after b ns ctx)
        (enqueued_to (some ev) b es)
stand_after false events ns es ctx ev new all = StandAt-new events ctx ev new ns es all
stand_after true events ns es ctx ev new all =
    StandAt-append (λ p. if p == ctx then some ev else events p) ns es ctx ev
      (StandAt-new events ctx ev new ns es all) (rw (==_refl ctx))

module _ {S : Type 0} {w : Assembled S} {s : Server S} (imp : Implements w s) where
  -- The server after a post.
  pub post-Implements :
      (fresh ctx : ℕ) (a : PostAnswers) (r : Pool) (ev : Event)
      → Posted w.system imp.queue fresh ctx a r
      → w.system.pool.cells fresh ≡ none
      → w.events ctx ≡ none
      → (ss : Sessions) (v : Service S) (t : Server S) → t.sessions ≡ ss
      → t.service ≡ v
      → t.outstanding ≡ enqueued_to (some ev) (accepts a w.system.pool) s.outstanding
      → Implements
          (record w {
            sessions = ss;
            service = v;
            system = record (w.system) { pool = r };
            events = λ p. if p == ctx then some ev else w.events p;
          })
          t
  post-Implements fresh ctx a r ev posted new unused ss v t ss_eq v_eq out =
      let b = accepts a w.system.pool in
      record {
        queue = queue_after b imp.queue fresh;
        accepted = contexts_after b imp.accepted ctx;
        sessions = ss_eq;
        service = v_eq;
        pool = posted.pool;
        all_svc =
            post-AllSvc b w.system imp.queue fresh ctx r imp.pool new posted.own posted.others
              imp.all_svc;
        stand =
            subst (StandAt _ _) (sym out)
              (stand_after b w.events imp.accepted s.outstanding ctx ev unused imp.stand);
        held = λ n.
            let same =
              busy-frame n w.system.pool.cells r.cells w.system.pcs
                (λ j t h. posted.others t (running-ne imp.pool fresh new j t h)) in
            let now = ap (count n) posted.queued in
            omega (
              arith,
              now,
              same,
              held_after b (contexts w.system.pool.cells imp.queue) imp.accepted ctx n
                  (busy n w.system.pool.cells w.system.pcs) (imp.held n),
            );
      }

  -- The server after a step of thread `i`, which leaves the service `v` and the events at `accepted`.
  pub Turn-Implements :
      (i : ℕ) (pc pc' : Pc) (r : Pool) (ys : List Ptr) (v : Service S) (accepted : List ℕ)
      → get_elem? w.system.pcs i ≡ some pc
      → Turn w.system.pool r imp.queue ys pc pc'
      → ((n : ℕ) → count n imp.accepted ≤ count n accepted + busy_at n w.system.pool.cells pc)
      → (t : Server S) → t.sessions ≡ w.sessions
      → t.service ≡ v
      → StandAt w.events accepted t.outstanding
      → Implements
          (record w { system = record { pool = r; pcs = set w.system.pcs i pc' }; service = v })
          t
  Turn-Implements i pc pc' r ys v accepted at turn less t ss sv stand = record {
    queue = ys;
    accepted = accepted;
    sessions = ss;
    service = sv;
    pool = Turn-Inv imp.pool i pc pc' r ys at turn;
    all_svc = Turn-AllSvc imp.pool i at turn imp.all_svc;
    stand = stand;
    held =
        λ n. omega (arith, less n, imp.held n, Turn-count turn n, Turn-busy imp.pool i at turn n);
  }

  -- The server after a change of its sessions and of its service alone.
  pub same-Implements :
      (ss : Sessions) (v : Service S) (t : Server S)
      → t.sessions ≡ ss
      → t.service ≡ v
      → t.outstanding ≡ s.outstanding
      → Implements (record w { sessions = ss; service = v }) t
  same-Implements ss v t ss_eq v_eq out = record {
    queue = imp.queue;
    accepted = imp.accepted;
    sessions = ss_eq;
    service = v_eq;
    pool = imp.pool;
    all_svc = imp.all_svc;
    stand = subst (StandAt w.events imp.accepted) (sym out) imp.stand;
    held = imp.held;
  }
