-- ===== src/ThreadPool/Destroy/Moves.antt =====
-- Every move of the caller of `thread_pool_destroy` and of a thread keeps the invariant.
use shared_bike.Base.{
  ℕ, ◌≤◌, ◌≡◌, refl, sym, ap, ◌∙◌, subst, ◌≢◌, inl, inr, Bool, true, false, Bool-cases,
  Option-cases, some, List, arith, length-set, get_elem?, set, Outcome, ok,
}
use shared_bike.ThreadPool.{
  Ptr, Handler, svc, thread_pool_exit_handler, Task, Pool, Pc, looping, asleep, running, stopped,
  stopped_asleep, CycleAnswers, thread_pool_cycle, finish_task,
}
use shared_bike.ThreadPool.Queue.{deref-ok, has}
use shared_bike.ThreadPool.System.{System, step}
use shared_bike.ThreadPool.System.Turn.{Turn, thread_pool_cycle-Turn}
use shared_bike.ThreadPool.System.Invariant.{Turn-Inv, get-set_cases}
use shared_bike.ThreadPool.Destroy.{
  DestroyPc, posting, spinning, gave_up, freed, Closing, is_exit, runs_exit, exits_at, thread_step,
}
use shared_bike.ThreadPool.Destroy.Keeps.{
  KeepsThreads, KeepsHalted, halted, thread_pool_cycle-Keeps, thread_pool_cycle-halted,
  total_halted-set,
}
use shared_bike.ThreadPool.Destroy.Invariant.{
  waits, uncounted, IsQuiet, QuietUnless, FreedLate, ClosingInv, same_exit, runs_exit-some,
}

quiet_still :
    (b : Bool) (s t : System) (xs ys : List Ptr) (task : Ptr)
    → QuietUnless b s xs task
    → (IsQuiet s xs task → IsQuiet t ys task)
    → QuietUnless b t ys task
quiet_still true s t xs ys task q f = tt
quiet_still false s t xs ys task q f = f q

quiet_now :
    (b : Bool) (s : System) (xs : List Ptr) (task : Ptr)
    → IsQuiet s xs task
    → QuietUnless b s xs task
quiet_now true s xs task q = tt
quiet_now false s xs task q = q

late_still :
    (at : DestroyPc) (s t : System) (n : ℕ)
    → t.pool.threads ≡ s.pool.threads
    → FreedLate at s n
    → FreedLate at t n
late_still posting s t n e h = tt
late_still spinning s t n e h = tt
late_still gave_up s t n e h = tt
late_still freed s t n e h = omega (arith, e, h)

uncounted_le : (at : DestroyPc) (lock : ℕ) → uncounted at lock ≤ 1
uncounted_le posting lock = omega arith
uncounted_le spinning lock = ground arith
uncounted_le gave_up lock = omega arith
uncounted_le freed lock = omega arith

-- Where a thread stands and what it runs, for a thread that is about to end.
exits-running :
    (s : System) (pc : Pc)
    → exits_at s (some pc) ≡ true
    → (t : Ptr) × (pc ≡ running t) × (runs_exit (s.pool.cells t) ≡ true)
exits-running s looping h = cc
exits-running s asleep h = cc
exits-running s (running t) h = (t, refl, h)
exits-running s stopped h = cc
exits-running s stopped_asleep h = cc

pub runs_exit-handler :
    (t : Task) → runs_exit (some t) ≡ true → t.handler ≡ thread_pool_exit_handler
runs_exit-handler t h = is_exit-eq t.handler h
  where
    is_exit-eq : (k : Handler) → is_exit k ≡ true → k ≡ thread_pool_exit_handler
    is_exit-eq svc h = cc
    is_exit-eq thread_pool_exit_handler h = refl

same_step :
    (q q' : Pc) (r r' : Pool)
    → ◌≡◌ {A = Outcome (Pc × Pool)} (ok (q, r)) (ok (q', r'))
    → (q ≡ q') × (r ≡ r')
same_step q q' r r' h = (cc, cc)

module _ {gone : ℕ} {c : Closing} {xs : List Ptr} (k : ClosingInv gone c xs) where
  -- The thread `i` goes from `pc` to `pc'` and ends no thread.
  Turn-Closing :
      (i : ℕ) (pc pc' : Pc) (r : Pool) (ys : List Ptr)
      → get_elem? c.system.pcs i ≡ some pc
      → exits_at c.system (some pc) ≡ false
      → Turn c.system.pool r xs ys pc pc'
      → r.threads ≡ c.system.pool.threads
      → halted pc ≤ halted pc'
      → ClosingInv gone (record c { system = record { pool = r; pcs = set c.system.pcs i pc' } }) ys
  Turn-Closing i pc pc' r ys at stays turn threads mono = record {
    pool = Turn-Inv k.pool i pc pc' r ys at turn;
    valid = k.valid;
    crew = threads ∙ (k.crew ∙ sym (length-set c.system.pcs i pc'));
    own = ap runs_exit (turn.keeps c.task other) ∙ k.own;
    only = λ a h. elim (turn.works a) [
      | inl unset ↦ let clash : false ≡ true = ap runs_exit (sym unset) ∙ h in cc
      | inr same ↦ k.only a (sym (same_exit _ _ same) ∙ h)
    ];
    quiet = quiet_still (waits c.at c.lock) c.system _ xs ys c.task k.quiet (λ q. record {
      unqueued = turn.shrinks c.task q.unqueued;
      idle = λ j h. elim (get-set_cases c.system.pcs i j pc' (running c.task) h) [
        | inl (_, e) ↦
            let e' = turn.starts c.task (sym e) in ground (arith, q.unqueued, ap (has c.task) e')
        | inr (_, old) ↦ q.idle j old
      ];
    });
    tally = omega (arith, k.tally, mono, total_halted-set c.system.pcs i pc pc' at);
    late = late_still c.at c.system _ c.n threads k.late;
  }
    where
      other : pc ≢ running c.task
      other e =
          let clash : true ≡ false =
            sym k.own ∙ (ap (λ q. exits_at c.system (some q)) (sym e) ∙ stays) in
          cc

  -- The thread `i` runs the caller's task, and is gone.
  exit-Closing :
      (i : ℕ) (r : Pool) (ys : List Ptr)
      → get_elem? c.system.pcs i ≡ some (running c.task)
      → Turn c.system.pool r xs ys (running c.task) stopped
      → r ≡ c.system.pool
      → ClosingInv gone
          (record c { system = record { pool = r; pcs = set c.system.pcs i stopped }; lock = 0 })
          ys
  exit-Closing i r ys at turn same = record {
    pool = Turn-Inv k.pool i (running c.task) stopped r ys at turn;
    valid = k.valid;
    crew = ap (λ (p : Pool). p.threads) same ∙ (k.crew ∙ sym (length-set c.system.pcs i stopped));
    own = ap (λ (p : Pool). runs_exit (p.cells c.task)) same ∙ k.own;
    only = λ a h. k.only a (ap (λ (p : Pool). runs_exit (p.cells a)) (sym same) ∙ h);
    quiet = quiet_now (waits c.at 0) _ ys c.task (record {
      unqueued = let (_, out, _) = k.pool.holding i (running c.task) at in turn.shrinks c.task out;
      idle = λ j h. elim (get-set_cases c.system.pcs i j stopped (running c.task) h) [
        | inl (_, e) ↦ cc
        | inr (ne, old) ↦ ne (k.pool.apart j i c.task old at)
      ];
    });
    tally = omega (
      arith,
      k.tally,
      uncounted_le c.at 0,
      total_halted-set c.system.pcs i (running c.task) stopped at,
    );
    late = late_still c.at c.system _ c.n (ap (λ (p : Pool). p.threads) same) k.late;
  }

  -- A step of a thread that runs the caller's task.
  pub cycle-exits :
      (a : CycleAnswers)
      → thread_pool_cycle a (running c.task) c.system.pool ≡ ok (stopped, c.system.pool)
  unfolding thread_pool_cycle finish_task
  cycle-exits a =
      let (t, holds) = runs_exit-some (c.system.pool.cells c.task) k.own in
      let kind = runs_exit-handler t (ap runs_exit (sym holds) ∙ k.own) in
      rw (deref-ok c.system.pool.cells c.task t holds k.valid, thread_pool_cycle, kind) refl

  -- A step of a thread, wherever the caller stands.
  pub thread_step-Inv :
      (i : ℕ) (a : CycleAnswers)
      → (c' : Closing) × (ys : List Ptr) × (thread_step i a c ≡ ok c') × ClosingInv gone c' ys
  unfolding thread_step step
  thread_step-Inv i a = elim (Option-cases (get_elem? c.system.pcs i)) [
    | inl missing ↦ (c, xs, rw (missing, thread_step, step) refl, k)
    | inr (pc, at) ↦
        let (pc', r, ys, e, turn) =
          thread_pool_cycle-Turn a c.system.pool xs pc k.pool.queue (k.pool.holding i pc at) in
        elim (Bool-cases (exits_at c.system (some pc))) [
          | inr stays ↦ (
            record c { system = record { pool = r; pcs = set c.system.pcs i pc' } },
            ys,
            rw (at, thread_step, step, e, stays) refl,
            Turn-Closing i pc pc' r ys at stays turn
                (subst (KeepsThreads c.system.pool.threads) e
                  (thread_pool_cycle-Keeps a pc c.system.pool))
                (subst (KeepsHalted pc) e (thread_pool_cycle-halted a pc c.system.pool)),
          )
          | inl ends ↦
              let (t, is, runs) = exits-running c.system pc ends in
              let own : pc ≡ running c.task = is ∙ ap running (k.only t runs) in
              let both : ◌≡◌ {A = Outcome (Pc × Pool)} (ok (pc', r)) (ok (stopped, c.system.pool)) =
                sym e ∙ (ap (λ q. thread_pool_cycle a q c.system.pool) own ∙ cycle-exits a) in
              let (end, same) = same_step pc' stopped r c.system.pool both in
              let turn' : Turn c.system.pool r xs ys (running c.task) stopped =
                subst (λ q. Turn c.system.pool r xs ys q stopped) own
                  (subst (Turn c.system.pool r xs ys pc) end turn) in
              (
                record c {
                  system = record { pool = r; pcs = set c.system.pcs i stopped };
                  lock = 0;
                },
                ys,
                rw (at, thread_step, step, e, ends)
                    (ap
                      (λ q. ok (record c {
                        system = record { pool = r; pcs = set c.system.pcs i q };
                        lock = 0;
                      }))
                      end),
                exit-Closing i r ys (at ∙ ap some own) turn' same,
              )
        ]
  ]
