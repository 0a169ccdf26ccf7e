-- ===== src/ThreadPool/Destroy/Keeps.antt =====
-- What a step of a thread of src/threadpool/thread_pool.cc never changes: the number of threads that
-- the pool is for, and that a thread has stopped.
use shared_bike.Base.{
  ℕ, ◌%◌, ◌^◌, zero, suc, ◌+◌, ◌≤◌, ◌≡◌, refl, sym, ap, ◌∙◌, inl, inr, Bool-cases, some, List, [],
  ◌∷◌, arith, length, ◌==◌, Outcome, Outcome-cases, ok, fault, get_elem?, set, some_inj, subst,
}
use shared_bike.ThreadPool.{
  next_slot, first_slot, leb_ℤ, write, thread_cond_signal, PostAnswers, Slot, thread_task_post,
  append_task, store_last, null, Handler, svc, thread_pool_exit_handler, Ptr, Pool, Pc, looping,
  asleep, running, stopped, stopped_asleep, CycleAnswers, deref, thread_mutex_lock,
  thread_cond_wait, thread_task_free, take_task, pick_task, finish_task, thread_pool_cycle,
}

-- A call that returns a pool for as many threads.
abbrev pub KeepsThreads {ℓ} : {A : Type ℓ} → ℕ → Outcome (A × Pool) → Type 0
KeepsThreads n (ok (_, r)) = r.threads ≡ n
KeepsThreads n (fault x) = Unit {0}

abbrev KeepsPool : ℕ → Outcome Pool → Type 0
KeepsPool n (ok r) = r.threads ≡ n
KeepsPool n (fault x) = Unit {0}

take_task-Keeps : (p : Pool) → KeepsThreads p.threads (take_task p)
unfolding take_task
take_task-Keeps p = elim (Outcome-cases (deref p.cells p.first)) [
  | inr (x, e) ↦ rw (e, take_task) tt
  | inl (t, e) ↦
      rw (e, take_task)
        (elim (Bool-cases (t.next == null)) [ inl empty ↦ rw empty refl | inr rest ↦ rw rest refl ])
]

pick_task-Keeps : (a : CycleAnswers) (p : Pool) → KeepsThreads p.threads (pick_task a p)
unfolding pick_task
pick_task-Keeps a p = elim (Bool-cases (p.first == null)) [
  | inl none_there ↦ rw (none_there, pick_task) refl
  | inr some_there ↦ elim (Outcome-cases (take_task p)) [
    | inr (x, e) ↦ rw (some_there, pick_task, e) tt
    | inl ((t, q), e) ↦
        let same : q.threads ≡ p.threads = subst (KeepsThreads p.threads) e (take_task-Keeps p) in
        rw (some_there, pick_task, e) same
  ]
]

finish_task-Keeps : (h : Handler) (t : Ptr) (p : Pool) → KeepsThreads p.threads (finish_task h t p)
unfolding finish_task thread_task_free
finish_task-Keeps thread_pool_exit_handler t p = refl
finish_task-Keeps svc t p = elim (Outcome-cases (deref p.cells t)) [
  | inr (x, e) ↦ rw (e, finish_task) tt
  | inl (n, e) ↦
      rw (e, finish_task)
        (elim (Bool-cases (t == null)) [
          | inl none_there ↦ rw none_there refl
          | inr some_there ↦ rw some_there refl
        ])
]

pub thread_pool_cycle-Keeps :
    (a : CycleAnswers) (pc : Pc) (p : Pool) → KeepsThreads p.threads (thread_pool_cycle a pc p)
unfolding thread_pool_cycle thread_mutex_lock thread_cond_wait
thread_pool_cycle-Keeps a looping p = elim (Bool-cases (a.lock == 0)) [
  | inl locked ↦ rw (locked, thread_pool_cycle) (pick_task-Keeps a _)
  | inr failed ↦ rw (failed, thread_pool_cycle) refl
]
thread_pool_cycle-Keeps a asleep p = elim (Bool-cases (a.wait == 0)) [
  | inl woken ↦ rw (woken, thread_pool_cycle) (pick_task-Keeps a p)
  | inr failed ↦ rw (failed, thread_pool_cycle) refl
]
thread_pool_cycle-Keeps a (running t) p = elim (Outcome-cases (deref p.cells t)) [
  | inr (x, e) ↦ rw (e, thread_pool_cycle) tt
  | inl (n, e) ↦ rw (e, thread_pool_cycle) (finish_task-Keeps n.handler t p)
]
thread_pool_cycle-Keeps a stopped p = refl
thread_pool_cycle-Keeps a stopped_asleep p = refl

store_last-Keeps : (task : Ptr) (p : Pool) (s : Slot) → KeepsPool p.threads (store_last task p s)
unfolding store_last
store_last-Keeps task p first_slot = refl
store_last-Keeps task p (next_slot q) = elim (Outcome-cases (deref p.cells q)) [
  | inr (x, e) ↦ rw (e, store_last) tt
  | inl (t, e) ↦ rw (e, store_last) refl
]

append_task-Keeps :
    (signal : ℕ) (p : Pool) (task : Ptr) → KeepsThreads p.threads (append_task signal p task)
unfolding append_task thread_cond_signal
append_task-Keeps signal p task = elim (Outcome-cases (deref p.cells task)) [
  | inr (x, e) ↦ rw (e, append_task) tt
  | inl (t, e) ↦ elim (Bool-cases (signal == 0)) [
    | inr lost ↦ rw (e, append_task, lost) refl
    | inl sent ↦
        let q = record p {
          cells = write p.cells task (some (record t { id = p.thread_pool_task_id; next = null }));
          thread_pool_task_id = (p.thread_pool_task_id + 1) % 2 ^ 64;
        } in
        elim (Outcome-cases (store_last task q q.last)) [
          | inr (x, bad) ↦ rw (e, append_task, sent, bad) tt
          | inl (r, stored) ↦
              let same : r.threads ≡ p.threads =
                subst (KeepsPool p.threads) stored (store_last-Keeps task q q.last) in
              rw (e, append_task, sent, stored) same
        ]
  ]
]

pub thread_task_post-Keeps :
    (a : PostAnswers) (p : Pool) (task : Ptr) → KeepsThreads p.threads (thread_task_post a p task)
unfolding thread_task_post thread_mutex_lock
thread_task_post-Keeps a p task = elim (Bool-cases (a.lock == 0)) [
  | inr failed ↦ rw (failed, thread_task_post) refl
  | inl locked ↦
      rw (locked, thread_task_post)
        (elim (Bool-cases (leb_ℤ p.max_queue p.waiting)) [
          | inl full ↦ rw full refl
          | inr room ↦ rw room (append_task-Keeps a.signal p task)
        ])
]

-- A thread that has left `thread_pool_cycle`.
abbrev pub halted : Pc → ℕ
halted looping = 0
halted asleep = 0
halted (running _) = 0
halted stopped = 1
halted stopped_asleep = 1

abbrev pub KeepsHalted : Pc → Outcome (Pc × Pool) → Type 0
KeepsHalted pc (ok (pc', _)) = halted pc ≤ halted pc'
KeepsHalted pc (fault x) = Unit {0}

halted_any : (pc : Pc) (o : Outcome (Pc × Pool)) → halted pc ≡ 0 → KeepsHalted pc o
halted_any pc (ok (pc', r)) e = omega (arith, e)
halted_any pc (fault x) e = tt

pub thread_pool_cycle-halted :
    (a : CycleAnswers) (pc : Pc) (p : Pool) → KeepsHalted pc (thread_pool_cycle a pc p)
unfolding thread_pool_cycle
thread_pool_cycle-halted a looping p = halted_any looping _ refl
thread_pool_cycle-halted a asleep p = halted_any asleep _ refl
thread_pool_cycle-halted a (running t) p = halted_any (running t) _ refl
thread_pool_cycle-halted a stopped p = omega arith
thread_pool_cycle-halted a stopped_asleep p = omega arith

abbrev pub total_halted : List Pc → ℕ
total_halted [] = 0
total_halted (pc ∷ pcs) = halted pc + total_halted pcs

pub total_halted-set :
    (pcs : List Pc) (i : ℕ) (pc pc' : Pc)
    → get_elem? pcs i ≡ some pc
    → total_halted (set pcs i pc') + halted pc ≡ total_halted pcs + halted pc'
total_halted-set [] i pc pc' h = cc
total_halted-set (x ∷ pcs) zero pc pc' h = let e : x ≡ pc = some_inj h in rw e (omega arith)
total_halted-set (x ∷ pcs) (suc i) pc pc' h = omega (arith, total_halted-set pcs i pc pc' h)

halted_le : (pc : Pc) → halted pc ≤ 1
halted_le looping = omega arith
halted_le asleep = omega arith
halted_le (running t) = omega arith
halted_le stopped = omega arith
halted_le stopped_asleep = omega arith

pub total_halted-le : (pcs : List Pc) → total_halted pcs ≤ length pcs
total_halted-le [] = omega arith
total_halted-le (pc ∷ pcs) = omega (arith, halted_le pc, total_halted-le pcs)

-- If as many threads have stopped as there are, each has.
pub all_halted :
    (pcs : List Pc) (i : ℕ) (pc : Pc)
    → length pcs ≤ total_halted pcs
    → get_elem? pcs i ≡ some pc
    → halted pc ≡ 1
all_halted [] i pc le h = cc
all_halted (x ∷ pcs) zero pc le h =
    let e : x ≡ pc = some_inj h in
    ap halted (sym e) ∙ omega (arith, le, halted_le x, total_halted-le pcs)
all_halted (x ∷ pcs) (suc i) pc le h =
    all_halted pcs i pc (omega (arith, le, halted_le x, total_halted-le pcs)) h
