-- ===== src/ThreadPool/Destroy/Invariant.antt =====
-- What holds while `thread_pool_destroy` of src/threadpool/thread_pool.cc runs against the threads.
use shared_bike.Base.{
  ℕ, ◌+◌, ◌≤◌, ◌≡◌, refl, sym, ap, ◌∙◌, subst, ◌≢◌, Bool, true, false, not, Option, none, some,
  List, arith, length, ◌==◌, if◌then◌else◌, get_elem?, ok,
}
use shared_bike.ThreadPool.{Ptr, null, Handler, Task, Pool, running, PostAnswers, thread_task_post}
use shared_bike.ThreadPool.Work.{work, SameWork, thread_task_post-SameWork}
use shared_bike.ThreadPool.Queue.{has, CanPost, accepts, post_lem, post_status}
use shared_bike.ThreadPool.System.{System}
use shared_bike.ThreadPool.System.Invariant.{Inv}
use shared_bike.ThreadPool.System.Steps.{enqueue-Inv, accepts_room, queue_after}
use shared_bike.ThreadPool.Destroy.{
  DestroyPc, posting, spinning, gave_up, freed, Closing, after_post, is_exit, runs_exit, Move, move,
}
use shared_bike.ThreadPool.Destroy.Keeps.{KeepsThreads, thread_task_post-Keeps, total_halted}

-- The caller waits for its task.
abbrev pub waits : DestroyPc → ℕ → Bool
waits spinning lock = not (lock == 0)
waits posting lock = false
waits gave_up lock = false
waits freed lock = false

-- One more thread has run the task than the caller has counted.
abbrev pub uncounted : DestroyPc → ℕ → ℕ
uncounted spinning lock = if lock == 0 then 1 else 0
uncounted posting lock = 0
uncounted gave_up lock = 0
uncounted freed lock = 0

-- The task on the stack is neither queued nor run.
pub record IsQuiet (s : System) (xs : List Ptr) (task : Ptr) : Type 0 where
  pub unqueued : has task xs ≡ false
  pub idle : (i : ℕ) → get_elem? s.pcs i ≢ some (running task)

abbrev pub QuietUnless : Bool → System → List Ptr → Ptr → Type 0
QuietUnless true s xs task = Unit {0}
QuietUnless false s xs task = IsQuiet s xs task

abbrev pub FreedLate : DestroyPc → System → ℕ → Type 0
FreedLate freed s n = s.pool.threads ≤ n
FreedLate posting s n = Unit {0}
FreedLate spinning s n = Unit {0}
FreedLate gave_up s n = Unit {0}

-- The pool is as in `Inv`. The task of the caller is the only one that ends a thread; while the
-- caller does not wait, no thread has it; and as many threads have stopped as the caller counted,
-- and `gone` more.
pub record ClosingInv (gone : ℕ) (c : Closing) (xs : List Ptr) : Type 0 where
  pub pool : Inv c.system xs
  pub valid : c.task ≢ null
  pub crew : c.system.pool.threads ≡ length c.system.pcs
  pub own : runs_exit (c.system.pool.cells c.task) ≡ true
  pub only : (a : Ptr) → runs_exit (c.system.pool.cells a) ≡ true → a ≡ c.task
  pub quiet : QuietUnless (waits c.at c.lock) c.system xs c.task
  pub tally : gone + c.n + uncounted c.at c.lock ≤ total_halted c.system.pcs
  pub late : FreedLate c.at c.system c.n

exit_of_work : Option (Handler × ℕ) → Bool
exit_of_work none = false
exit_of_work (some (h, ctx)) = is_exit h

runs_exit-work : (t : Option Task) → runs_exit t ≡ exit_of_work (work t)
unfolding exit_of_work
runs_exit-work none = refl
runs_exit-work (some t) = refl

-- Tasks of the same work end a thread alike.
pub same_exit : (t u : Option Task) → work u ≡ work t → runs_exit u ≡ runs_exit t
same_exit t u e = runs_exit-work u ∙ (ap exit_of_work e ∙ sym (runs_exit-work t))

pub runs_exit-some : (o : Option Task) → runs_exit o ≡ true → (t : Task) × (o ≡ some t)
runs_exit-some none h = cc
runs_exit-some (some t) h = (t, refl)

-- A move runs without a fault and keeps the invariant.
abbrev pub Moves : ℕ → Move → Closing → Type 0
Moves gone m c = (c' : Closing) × (ys : List Ptr) × (move m c ≡ ok c') × ClosingInv gone c' ys

after_post-Inv :
    {gone : ℕ} (b : Bool) (c : Closing) (xs : List Ptr) (r : Pool)
    → ClosingInv gone c xs
    → c.at ≡ posting
    → SameWork c.system.pool.cells r.cells
    → r.threads ≡ c.system.pool.threads
    → IsQuiet c.system xs c.task
    → Inv (record (c.system) { pool = r }) (queue_after b xs c.task)
    → ClosingInv gone (after_post c (post_status b, r)) (queue_after b xs c.task)
after_post-Inv true c xs r k at same threads quiet inv = record {
  pool = inv;
  valid = k.valid;
  crew = threads ∙ k.crew;
  own = same_exit _ _ (same c.task) ∙ k.own;
  only = λ a h. k.only a (sym (same_exit _ _ (same a)) ∙ h);
  quiet = tt;
  tally = omega (arith, k.tally);
  late = tt;
}
after_post-Inv false c xs r k at same threads quiet inv = record {
  pool = inv;
  valid = k.valid;
  crew = threads ∙ k.crew;
  own = same_exit _ _ (same c.task) ∙ k.own;
  only = λ a h. k.only a (sym (same_exit _ _ (same a)) ∙ h);
  quiet = record { unqueued = quiet.unqueued; idle = quiet.idle };
  tally = omega (arith, k.tally);
  late = tt;
}

-- The caller's next post.
pub post-Inv :
    {gone : ℕ} (a : PostAnswers) (c : Closing) (xs : List Ptr)
    → ClosingInv gone c xs
    → c.at ≡ posting
    → IsQuiet c.system xs c.task
    → (r : Pool) × (thread_task_post a c.system.pool c.task
        ≡ ok (post_status (accepts a c.system.pool), r))
      × ClosingInv gone
          (after_post c (post_status (accepts a c.system.pool), r))
          (queue_after (accepts a c.system.pool) xs c.task)
post-Inv a c xs k at quiet =
    let p = c.system.pool in
    let (t, holds) = runs_exit-some (p.cells c.task) k.own in
    let can : CanPost p xs c.task t = record {
      queue = k.pool.queue;
      valid = k.valid;
      holds = holds;
      outside = quiet.unqueued;
    } in
    let (r, posted, result) = post_lem a p xs c.task t can in
    let inv =
      enqueue-Inv (accepts a p) c.system xs p r c.task k.pool
        (λ i t h e. quiet.idle i (h ∙ ap (λ u. some (running u)) e)) refl refl (λ t ne. refl)
        (accepts_room a p) result in
    (
      r,
      posted,
      after_post-Inv (accepts a p) c xs r k at
          (thread_task_post-SameWork a p c.task (post_status (accepts a p)) r posted)
          (subst (KeepsThreads p.threads) posted (thread_task_post-Keeps a p c.task)) quiet inv,
    )
