-- ===== src/ThreadPool/System/Turn.antt =====
-- One step of one thread, as a change of the queue and of the count of waiting tasks.
use shared_bike.Base.{
  ℕ, ◌+◌, ◌≤◌, ◌≡◌, refl, ap, ◌∙◌, ◌≢◌, false, ◌⊎◌, none, some, List, [], ◌∷◌, inl, inr, Bool-cases,
  arith, ◌==◌, ok, length,
}
use shared_bike.Base.Int.{pos_part, neg_part, decrement, decrement_parts}
use shared_bike.ThreadPool.{
  Ptr, null, Cells, Task, Handler, svc, thread_pool_exit_handler, Pool, CycleAnswers, Pc, looping,
  asleep, running, stopped, stopped_asleep, write, thread_mutex_lock, thread_mutex_unlock,
  thread_cond_wait, pick_task, finish_task, thread_pool_cycle,
}
use shared_bike.ThreadPool.Work.{work}
use shared_bike.ThreadPool.Queue.{has, IsQueue, deref-ok, take_task_lem, Chain-write}

-- A thread that has counted a task off and has not taken one yet.
abbrev pub owes : Pc → ℕ
owes looping = 0
owes asleep = 1
owes (running _) = 0
owes stopped = 0
owes stopped_asleep = 1

-- What a running thread needs of its task: it is allocated and not queued.
abbrev pub HoldsTask : Pool → List Ptr → Pc → Type 0
HoldsTask p xs looping = Unit {0}
HoldsTask p xs asleep = Unit {0}
HoldsTask p xs (running t) = (t ≢ null) × (has t xs ≡ false) × ((n : Task) × (p.cells t ≡ some n))
HoldsTask p xs stopped = Unit {0}
HoldsTask p xs stopped_asleep = Unit {0}

-- A thread went from `pc` to `pc'`, the pool from `p` to `r`, and the queue from `xs` to `ys`.
pub record Turn (p r : Pool) (xs ys : List Ptr) (pc pc' : Pc) : Type 0 where
  pub queue : IsQueue r ys
  pub balance :
      pos_part r.waiting + neg_part p.waiting + length xs + owes pc'
      ≡ pos_part p.waiting + neg_part r.waiting + length ys + owes pc
  pub lower : pos_part r.waiting + neg_part p.waiting ≤ pos_part p.waiting + neg_part r.waiting
  pub max_queue : r.max_queue ≡ p.max_queue
  pub starts : (t : Ptr) → pc' ≡ running t → xs ≡ t ∷ ys
  pub shrinks : (t : Ptr) → has t xs ≡ false → has t ys ≡ false
  pub keeps : (t : Ptr) → pc ≢ running t → r.cells t ≡ p.cells t
  pub held : HoldsTask r ys pc'
  pub moves : (xs ≡ ys) ⊎ ((x : Ptr) × (xs ≡ x ∷ ys))
  pub works : (a : Ptr) → (r.cells a ≡ none) ⊎ (work (r.cells a) ≡ work (p.cells a))

abbrev pub TakesTurn : CycleAnswers → Pool → List Ptr → Pc → Type 0
TakesTurn a p xs pc =
    (pc' : Pc) × (r : Pool) × (ys : List Ptr) × (thread_pool_cycle a pc p ≡ ok (pc', r))
    × Turn p r xs ys pc pc'

-- The pool before the pick is `p` or `p` with its count lowered; `q` is the one that picks.
pick_task-Turn :
    (a : CycleAnswers) (p q : Pool) (pc : Pc) (xs : List Ptr)
    → IsQueue q xs
    → q.cells ≡ p.cells
    → q.max_queue ≡ p.max_queue
    → pos_part q.waiting + neg_part p.waiting + 1
      ≡ pos_part p.waiting + neg_part q.waiting + owes pc
    → owes pc ≤ 1
    → (pc' : Pc) × (r : Pool) × (ys : List Ptr) × (pick_task a q ≡ ok (pc', r))
      × Turn p r xs ys pc pc'
unfolding pick_task
pick_task-Turn a p q pc [] iq cells max count small = (
  asleep,
  q,
  [],
  rw iq.chain,
  record {
    queue = iq;
    balance = omega arith;
    lower = omega arith;
    max_queue = max;
    starts = λ t e. cc;
    shrinks = λ t h. h;
    keeps = λ t n. rw cells;
    held = tt;
    moves = inl refl;
    works = λ a. inr (rw cells);
  },
)
pick_task-Turn a p q pc (x ∷ xs) iq cells max count small =
    let (r, taken, rq, w, m, c, new) = take_task_lem q x xs iq in
    let (e, ne, _, (u, holds, _)) = iq.chain in
    let some_first : (q.first == null) ≡ false = ground arith in
    let counted =
      λ (pc' : Pc) (none_owed : owes pc' ≡ 0) (kind : (t : Ptr) → pc' ≡ running t → x ≡ t)
          (held : HoldsTask r xs pc').
        let turn : Turn p r (x ∷ xs) xs pc pc' = record {
          queue = rq;
          balance = rw w (omega arith);
          lower = rw w (omega arith);
          max_queue = m ∙ max;
          starts = λ t k. ap (λ y. y ∷ xs) (kind t k);
          shrinks = λ t h. ground arith;
          keeps = λ t n. ap (λ (f : Cells). f t) (c ∙ cells);
          held = held;
          moves = inr (x, refl);
          works = λ a. inr (ap (λ (f : Cells). work (f a)) (c ∙ cells));
        } in
        turn in
    elim (Bool-cases (a.unlock == 0)) [
      | inl free ↦ (
        running x,
        r,
        xs,
        rw (some_first, taken, pick_task, thread_mutex_unlock, free),
        counted (running x) refl (λ t k. cc) (ne, new, (u, ap (λ (f : Cells). f x) c ∙ holds)),
      )
      | inr stuck ↦ (
        stopped,
        r,
        xs,
        rw (some_first, taken, pick_task, thread_mutex_unlock, stuck),
        counted stopped refl (λ t k. cc) tt,
      )
    ]

-- A thread that stays where it is, or stops there.
idle-Turn :
    (p : Pool) (xs : List Ptr) (pc pc' : Pc)
    → IsQueue p xs
    → owes pc ≡ owes pc'
    → ((t : Ptr) → pc' ≢ running t)
    → HoldsTask p xs pc'
    → Turn p p xs xs pc pc'
idle-Turn p xs pc pc' q o n h = record {
  queue = q;
  balance = omega arith;
  lower = omega arith;
  max_queue = refl;
  starts = λ t e. absurd (n t e);
  shrinks = λ t h. h;
  keeps = λ t m. refl;
  held = h;
  moves = inl refl;
  works = λ a. inr refl;
}

finish_task-Turn :
    (h : Handler) (p : Pool) (xs : List Ptr) (t : Ptr) (n : Task)
    → IsQueue p xs
    → t ≢ null
    → has t xs ≡ false
    → p.cells t ≡ some n
    → (pc' : Pc) × (r : Pool) × (ys : List Ptr) × (finish_task h t p ≡ ok (pc', r))
      × Turn p r xs ys (running t) pc'
unfolding finish_task
finish_task-Turn thread_pool_exit_handler p xs t n q ne out holds =
    (stopped, p, xs, refl, idle-Turn p xs (running t) stopped q refl (λ t e. cc) tt)
finish_task-Turn svc p xs t n q ne out holds = (
  looping,
  record p { cells = write (write p.cells t (some (record n { next = null }))) t none },
  xs,
  rw (deref-ok p.cells t n holds ne, finish_task) (ground arith),
  record {
    queue = record {
      chain = Chain-write _ p.first xs t none out (Chain-write p.cells p.first xs t _ out q.chain);
      end = q.end;
    };
    balance = omega arith;
    lower = omega arith;
    max_queue = refl;
    starts = λ u e. cc;
    shrinks = λ u h. h;
    keeps = λ u m. let other : t ≢ u = λ e. m (ap running e) in unfold write in ground arith;
    held = tt;
    moves = inl refl;
    works = λ a. elim (Bool-cases (a == t)) [
      | inl here ↦ inl (unfold write in ground arith)
      | inr other ↦ inr (unfold write in ground arith)
    ];
  },
)

-- On a well-formed queue, and with the task of a running thread allocated and not queued, a step of
-- a thread ends without a fault, and its effect is a `Turn`.
pub thread_pool_cycle-Turn :
    (a : CycleAnswers) (p : Pool) (xs : List Ptr) (pc : Pc)
    → IsQueue p xs
    → HoldsTask p xs pc
    → TakesTurn a p xs pc
unfolding thread_pool_cycle thread_mutex_lock thread_cond_wait
thread_pool_cycle-Turn a p xs looping q h = elim (Bool-cases (a.lock == 0)) [
  | inl locked ↦
      rw (locked, thread_pool_cycle)
        (let q' : IsQueue (record p { waiting = decrement p.waiting }) xs = record {
          chain = q.chain;
          end = q.end;
        } in
          pick_task-Turn a p (record p { waiting = decrement p.waiting }) looping xs q' refl refl
            (omega (arith, decrement_parts p.waiting)) (omega arith))
  | inr failed ↦
      rw (failed, thread_pool_cycle)
        (stopped, p, xs, refl, idle-Turn p xs looping stopped q refl (λ t e. cc) tt)
]
thread_pool_cycle-Turn a p xs asleep q h = elim (Bool-cases (a.wait == 0)) [
  | inl woken ↦
      rw (woken, thread_pool_cycle)
        (pick_task-Turn a p p asleep xs q refl refl (omega arith) (omega arith))
  | inr failed ↦
      rw (failed, thread_pool_cycle)
        (stopped_asleep, p, xs, refl, idle-Turn p xs asleep stopped_asleep q refl (λ t e. cc) tt)
]
thread_pool_cycle-Turn a p xs (running t) q (ne, out, (n, holds)) =
    rw (deref-ok p.cells t n holds ne, thread_pool_cycle)
      (finish_task-Turn n.handler p xs t n q ne out holds)
thread_pool_cycle-Turn a p xs stopped q h =
    (stopped, p, xs, refl, idle-Turn p xs stopped stopped q refl (λ t e. cc) tt)
thread_pool_cycle-Turn a p xs stopped_asleep q h = (
  stopped_asleep,
  p,
  xs,
  refl,
  idle-Turn p xs stopped_asleep stopped_asleep q refl (λ t e. cc) tt,
)
