-- ===== src/ThreadPool/Destroy/Safety.antt =====
-- `thread_pool_destroy` of src/threadpool/thread_pool.cc in every run: against the threads of a pool
-- that `thread_pool_init` started and any posts have used.
use shared_bike.Base.{
  ℕ, ◌+◌, ◌≤◌, ◌≡◌, refl, sym, ap, ◌∙◌, subst, ◌≢◌, inl, inr, Bool, true, false, not, Bool-cases,
  Option-cases, none, some, List, [], ◌∷◌, arith, length, ◌==◌, ltb, if◌then◌else◌, get_elem?, ok,
}
use shared_bike.ThreadPool.{
  Cells, Ptr, null, Pc, looping, asleep, running, stopped, stopped_asleep, PostAnswers,
}
use shared_bike.ThreadPool.Queue.{has, accepts, post_status}
use shared_bike.ThreadPool.System.{System}
use shared_bike.ThreadPool.System.Steps.{queue_after}
use shared_bike.ThreadPool.Destroy.{
  thread_pool_destroy, moves, DestroyPc, posting, spinning, gave_up, freed, Closing, after_post,
  destroy_step, runs_exit, needs_pool, is_freed, Move, caller, thread, move,
}
use shared_bike.ThreadPool.Destroy.Keeps.{halted, total_halted, all_halted}
use shared_bike.ThreadPool.Destroy.Invariant.{
  waits, uncounted, IsQuiet, QuietUnless, FreedLate, ClosingInv, Moves, post-Inv,
}
use shared_bike.ThreadPool.Destroy.Moves.{thread_step-Inv}
use shared_bike.ThreadPool.System.Safety.{Reach, initial_system}
use shared_bike.ThreadPool.Queue.{IsQueue}
use shared_bike.ThreadPool.Destroy.Keeps.{total_halted-le}
use shared_bike.ThreadPool.Destroy.Start.{Reach-IsReady, destroy-start}

QuietUnless-false :
    (b : Bool) (s : System) (xs : List Ptr) (task : Ptr)
    → b ≡ false
    → QuietUnless b s xs task
    → IsQuiet s xs task
QuietUnless-false true s xs task e q = cc
QuietUnless-false false s xs task e q = q

freed_late :
    (at : DestroyPc) (s : System) (n : ℕ)
    → is_freed at ≡ true
    → FreedLate at s n
    → s.pool.threads ≤ n
freed_late posting s n e h = cc
freed_late spinning s n e h = cc
freed_late gave_up s n e h = cc
freed_late freed s n e h = h

halted-needs : (pc : Pc) → halted pc ≡ 1 → needs_pool (some pc) ≡ false
halted-needs looping h = absurd (omega (arith, h))
halted-needs asleep h = absurd (omega (arith, h))
halted-needs (running t) h = refl
halted-needs stopped h = refl
halted-needs stopped_asleep h = refl

module _ {gone : ℕ} {c : Closing} {xs : List Ptr} (k : ClosingInv gone c xs) where
  -- Once the pool is freed, each thread has stopped.
  stopped_by_then :
      (i : ℕ) (pc : Pc) → is_freed c.at ≡ true → get_elem? c.system.pcs i ≡ some pc → halted pc ≡ 1
  stopped_by_then i pc done at =
      all_halted c.system.pcs i pc
        (omega (arith, k.crew, k.tally, freed_late c.at c.system c.n done k.late)) at

  thread_idle : (i : ℕ) → is_freed c.at ≡ true → needs_pool (get_elem? c.system.pcs i) ≡ false
  thread_idle i done = elim (Option-cases (get_elem? c.system.pcs i)) [
    | inl missing ↦ ap needs_pool missing
    | inr (pc, at) ↦ ap needs_pool at ∙ halted-needs pc (stopped_by_then i pc done at)
  ]

  destroy_step-Inv :
      (a : PostAnswers) (at : DestroyPc)
      → c.at ≡ at
      → (c' : Closing) × (ys : List Ptr) × (destroy_step a at c ≡ ok c') × ClosingInv gone c' ys
  unfolding destroy_step
  destroy_step-Inv a posting e =
      let quiet : IsQuiet c.system xs c.task =
        QuietUnless-false (waits c.at c.lock) c.system xs c.task (ap (λ q. waits q c.lock) e)
          k.quiet in
      elim (Bool-cases (ltb c.n c.system.pool.threads)) [
        | inl more ↦
            let (r, posted, k') = post-Inv a c xs k e quiet in
            (
              after_post c (post_status (accepts a c.system.pool), r),
              queue_after (accepts a c.system.pool) xs c.task,
              rw (more, destroy_step, posted) refl,
              k',
            )
        | inr done ↦ (
          record c { at = freed },
          xs,
          rw (done, destroy_step) refl,
          record {
            pool = k.pool;
            valid = k.valid;
            crew = k.crew;
            own = k.own;
            only = k.only;
            quiet = quiet;
            tally = omega (arith, k.tally);
            late = ground (arith, done);
          },
        )
      ]
  destroy_step-Inv a spinning e = elim (Bool-cases (c.lock == 0)) [
    | inr waiting ↦ (c, xs, rw (waiting, destroy_step) refl, k)
    | inl over ↦ (
      record c { n = c.n + 1; at = posting },
      xs,
      rw (over, destroy_step) refl,
      record {
        pool = k.pool;
        valid = k.valid;
        crew = k.crew;
        own = k.own;
        only = k.only;
        quiet =
            QuietUnless-false (waits c.at c.lock) c.system xs c.task
              (ap (λ q. waits q c.lock) e ∙ ap not over) k.quiet;
        tally =
            let one : uncounted c.at c.lock ≡ 1 =
              ap (λ q. uncounted q c.lock) e ∙ ap (λ (b : Bool). if b then 1 else 0) over in
            omega (arith, k.tally, one);
        late = tt;
      },
    )
  ]
  destroy_step-Inv a gave_up e = (c, xs, refl, k)
  destroy_step-Inv a freed e = (c, xs, refl, k)

  move-Inv : (m : Move) → Moves gone m c
  unfolding move
  move-Inv (caller a) = destroy_step-Inv a c.at refl
  move-Inv (thread i a) = elim (Bool-cases (is_freed c.at)) [
    | inr before ↦ rw (before, move) (thread_step-Inv k i a)
    | inl after ↦ rw (after, move) (rw (thread_idle i after) (thread_step-Inv k i a))
  ]

pub moves-Inv :
    {gone : ℕ} (ms : List Move) (c : Closing) (xs : List Ptr)
    → ClosingInv gone c xs
    → (c' : Closing) × (ys : List Ptr) × (moves ms c ≡ ok c') × ClosingInv gone c' ys
unfolding moves
moves-Inv [] c xs k = (c, xs, refl, k)
moves-Inv (m ∷ ms) c xs k =
    let (d, ys, e, k') = move-Inv k m in
    let (c', zs, e', k'') = moves-Inv ms d ys k' in (c', zs, rw (moves, e) e', k'')

pub ok_inj : (c d : Closing) → ok c ≡ ok d → c ≡ d
ok_inj c d h = cc

-- `thread_pool_destroy` never runs against a pool that is gone: called on a pool that
-- `thread_pool_init` started and that any posts and threads have used, with its task on a stack that
-- is no part of the heap, where no task is an exit task before, every order of the moves of the
-- caller and of the threads, the steps of threads after the `free` included, runs without a fault,
-- whatever the pthread calls return.
pub destroy-no_fault :
    {c : Cells} {ids : ℕ} {s : System}
    → ((a : Ptr) → runs_exit (c a) ≡ false)
    → Reach (initial_system c ids) s
    → (task : Ptr) (lock_at unset : ℕ) → task ≢ null
    → s.pool.cells task ≡ none
    → (ms : List Move)
    → (c' : Closing) × (moves ms (thread_pool_destroy task lock_at unset s) ≡ ok c')
destroy-no_fault {s = s} clean r task lock_at unset ne new ms =
    let (xs, inv, ready) = Reach-IsReady clean r in
    let (c', _, e, _) =
      moves-Inv ms (thread_pool_destroy task lock_at unset s) xs
        (destroy-start s xs task lock_at unset ne new inv ready) in
    (c', e)

-- What a run that has freed the pool has reached.
module _ {c : Cells} {ids : ℕ} {s : System} (clean : (a : Ptr) → runs_exit (c a) ≡ false)
    (r : Reach (initial_system c ids) s) (task : Ptr) (lock_at unset : ℕ) (ne : task ≢ null)
    (new : s.pool.cells task ≡ none) (ms : List Move) (c' : Closing)
    (run : moves ms (thread_pool_destroy task lock_at unset s) ≡ ok c') (done : c'.at ≡ freed) where
  reached : (ys : List Ptr) × ClosingInv (total_halted s.pcs) c' ys
  reached =
      let (xs, inv, ready) = Reach-IsReady clean r in
      let (d, ys, e, k) =
        moves-Inv ms (thread_pool_destroy task lock_at unset s) xs
          (destroy-start s xs task lock_at unset ne new inv ready) in
      let same : d ≡ c' = ok_inj d c' (sym e ∙ run) in
      (ys, subst (λ b. ClosingInv (total_halted s.pcs) b ys) same k)

  later : c'.system.pool.threads ≤ c'.n
  later = let (ys, k) = reached in freed_late c'.at c'.system c'.n (ap is_freed done) k.late

  -- When `thread_pool_destroy` has freed the pool, in any run of it and of the threads of a started
  -- pool, every thread has left `thread_pool_cycle`, and the task on the caller's stack is not queued.
  pub destroy-all_stopped :
      (total_halted c'.system.pcs ≡ length c'.system.pcs)
      × ((ys : List Ptr) × IsQueue c'.system.pool ys × (has c'.task ys ≡ false))
  destroy-all_stopped =
      let (ys, k) = reached in
      let quiet =
        QuietUnless-false (waits c'.at c'.lock) c'.system ys c'.task
          (ap (λ q. waits q c'.lock) done) k.quiet in
      (
        omega (arith, k.crew, k.tally, later, total_halted-le c'.system.pcs),
        (ys, k.pool.queue, quiet.unqueued),
      )

  -- In any run of it and of the threads of a started pool, `thread_pool_destroy` comes to free the
  -- pool only if no thread of it had stopped before the call.
  pub destroy-needs_all : total_halted s.pcs ≡ 0
  destroy-needs_all =
      let (ys, k) = reached in omega (arith, k.crew, k.tally, later, total_halted-le c'.system.pcs)
