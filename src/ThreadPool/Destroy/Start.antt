-- ===== src/ThreadPool/Destroy/Start.antt =====
-- The pool of src/threadpool/thread_pool.cc at the call of `thread_pool_destroy`.
use shared_bike.Base.{
  ℕ, ◌≡◌, refl, sym, ap, ◌∙◌, subst, ◌≢◌, inl, inr, true, false, Bool-cases, Option-cases, none,
  some, List, [], arith, ◌==◌, ==_iff, get_elem?, set, ok,
}
use shared_bike.ThreadPool.{
  Cells, write, default_threads_num, Ptr, null, thread_pool_exit_handler, Task, Pool, Pc,
}
use shared_bike.ThreadPool.Work.{thread_task_post-SameWork}
use shared_bike.ThreadPool.Queue.{Chain-write, has, accepts, post_status}
use shared_bike.ThreadPool.System.{Action, System, turns, step}
use shared_bike.ThreadPool.System.Turn.{Turn, thread_pool_cycle-Turn}
use shared_bike.ThreadPool.System.Invariant.{HoldsTask-frame, allocated, Inv, Turn-Inv}
use shared_bike.ThreadPool.System.Steps.{running-ne, filled, Enabled, queue_after}
use shared_bike.ThreadPool.Destroy.{thread_pool_destroy, runs_exit}
use shared_bike.ThreadPool.Destroy.Keeps.{
  thread_task_post-Keeps, KeepsThreads, thread_pool_cycle-Keeps, total_halted,
}
use shared_bike.ThreadPool.Destroy.Invariant.{ClosingInv, same_exit}
use shared_bike.ThreadPool.System.{enqueues}
use shared_bike.ThreadPool.System.Safety.{Reach, here, next, initial_system, initial-Inv}
use shared_bike.ThreadPool.System.Steps.{enqueue_lem, enqueue-filled}

-- The pool is for the default number of threads, and no task ends one.
pub record IsReady (s : System) : Type 0 where
  pub threads : s.pool.threads ≡ default_threads_num
  pub none_ends : (a : Ptr) → runs_exit (s.pool.cells a) ≡ false

Turn-IsReady :
    (s : System) (xs ys : List Ptr) (pc pc' : Pc) (i : ℕ) (r : Pool)
    → IsReady s
    → Turn s.pool r xs ys pc pc'
    → r.threads ≡ s.pool.threads
    → IsReady (record { pool = r; pcs = set s.pcs i pc' })
Turn-IsReady s xs ys pc pc' i r ready turn same = record {
  threads = same ∙ ready.threads;
  none_ends = λ a. elim (turn.works a) [
    | inl unset ↦ ap runs_exit unset
    | inr work_same ↦ same_exit _ _ work_same ∙ ready.none_ends a
  ];
}

filled-none_ends :
    (fresh ctx : ℕ) (p : Pool)
    → ((a : Ptr) → runs_exit (p.cells a) ≡ false)
    → (a : Ptr) → runs_exit ((filled fresh ctx p).cells a) ≡ false
unfolding write
filled-none_ends fresh ctx p old a = elim (Bool-cases (a == fresh)) [
  | inl own ↦ rw own refl
  | inr other ↦ rw other (old a)
]

-- An action runs as `step-Inv` says, and leaves the pool ready.
step-IsReady :
    (act : Action) (s : System) (xs : List Ptr)
    → Enabled act s
    → Inv s xs
    → IsReady s
    → (t : System) × (ys : List Ptr) × (step act s ≡ ok t) × Inv t ys × IsReady t
unfolding step
step-IsReady (enqueues fresh ctx a) s xs (ne, new) inv ready =
    let p = filled fresh ctx s.pool in
    let (r, posted, inv') = enqueue_lem fresh ctx a s xs ne new inv in
    let same = thread_task_post-SameWork a p fresh (post_status (accepts a s.pool)) r posted in
    (
      record s { pool = r },
      queue_after (accepts a s.pool) xs fresh,
      rw (enqueue-filled fresh ctx a s.pool ne, posted),
      inv',
      record {
        threads =
            subst (KeepsThreads p.threads) posted (thread_task_post-Keeps a p fresh)
            ∙ ready.threads;
        none_ends =
            λ b. same_exit _ _ (same b) ∙ filled-none_ends fresh ctx s.pool ready.none_ends b;
      },
    )
step-IsReady (turns i a) s xs h inv ready = elim (Option-cases (get_elem? s.pcs i)) [
  | inl missing ↦ (s, xs, rw (missing, step), inv, ready)
  | inr (pc, at) ↦
      let (pc', r, ys, e, turn) =
        thread_pool_cycle-Turn a s.pool xs pc inv.queue (inv.holding i pc at) in
      (
        record { pool = r; pcs = set s.pcs i pc' },
        ys,
        rw (at, step, e),
        Turn-Inv inv i pc pc' r ys at turn,
        Turn-IsReady s xs ys pc pc' i r ready turn
            (subst (KeepsThreads s.pool.threads) e (thread_pool_cycle-Keeps a pc s.pool)),
      )
]

pub Reach-IsReady :
    {c : Cells} {ids : ℕ} {s : System}
    → ((a : Ptr) → runs_exit (c a) ≡ false)
    → Reach (initial_system c ids) s
    → (xs : List Ptr) × Inv s xs × IsReady s
Reach-IsReady {c} {ids} clean here =
    ([], initial-Inv c ids, record { threads = refl; none_ends = clean })
Reach-IsReady clean (next {s} {t} act r enabled e) =
    let (xs, inv, ready) = Reach-IsReady clean r in
    let (t', ys, e', inv', ready') = step-IsReady act s xs enabled inv ready in
    let same : t' ≡ t = ground arith in
    (ys, subst (λ u. Inv u ys) same inv', subst IsReady same ready')

-- The task on the stack, before the first post.
pub destroy-start :
    (s : System) (xs : List Ptr) (task : Ptr) (lock_at unset : ℕ)
    → task ≢ null
    → s.pool.cells task ≡ none
    → Inv s xs
    → IsReady s
    → ClosingInv (total_halted s.pcs) (thread_pool_destroy task lock_at unset s) xs
unfolding thread_pool_destroy write
destroy-start s xs task lock_at unset ne new inv ready =
    let out : has task xs ≡ false =
      allocated s.pool.cells s.pool.first xs task inv.queue.chain new in
    let t : Task = record {
      next = null;
      id = 0;
      ctx = lock_at;
      handler = thread_pool_exit_handler;
    } in
    let elsewhere = λ (a : Ptr) (other : a ≢ task).
      let e : write s.pool.cells task (some t) a ≡ s.pool.cells a = ground arith in e in
    let pool' : Inv (thread_pool_destroy task lock_at unset s).system xs = record {
      queue = record {
        chain = Chain-write s.pool.cells s.pool.first xs task _ out inv.queue.chain;
        end = inv.queue.end;
      };
      counted = inv.counted;
      limited = inv.limited;
      capacity = inv.capacity;
      crew = inv.crew;
      holding = λ i pc at.
          HoldsTask-frame s.pool (thread_pool_destroy task lock_at unset s).system.pool xs xs pc
            (inv.holding i pc at)
            λ u e out'. (out', elsewhere u (running-ne inv task new i u (at ∙ ap some e)));
      apart = inv.apart;
    } in
    record {
      pool = pool';
      valid = ne;
      crew = ready.threads ∙ sym inv.crew;
      own = let e : write s.pool.cells task (some t) task ≡ some t = ground arith in ap runs_exit e;
      only = λ a h. elim (Bool-cases (a == task)) [
        | inl own ↦ (==_iff a task).0 own
        | inr other ↦
            let e : write s.pool.cells task (some t) a ≡ s.pool.cells a = ground arith in
            let clash : true ≡ false = sym h ∙ (ap runs_exit e ∙ ready.none_ends a) in cc
      ];
      quiet = record { unqueued = out; idle = λ i at. running-ne inv task new i task at refl };
      tally = omega arith;
      late = tt;
    }
