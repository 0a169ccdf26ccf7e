-- ===== src/ThreadPool/Work.antt =====
-- What a task is to do, its handler and context, through the writes of src/threadpool/thread_pool.cc
-- that link tasks: a post changes it for no task.
use shared_bike.Base.{
  ℕ, ◌+◌, ◌%◌, ◌^◌, ◌≡◌, refl, sym, ap, subst, ◌∙◌, ◌==◌, Bool-cases, Option, none, some, inl, inr,
  Outcome, Outcome-cases, ok, fault, arith, ==_iff,
}
use shared_bike.Base.Int.{leb_ℤ}
use shared_bike.ThreadPool.{
  Ptr, null, Task, Handler, Cells, Slot, first_slot, next_slot, Pool, Status, PostAnswers, write,
  deref, store_last, append_task, thread_cond_signal, thread_mutex_lock, thread_task_post,
}

abbrev pub work : Option Task → Option (Handler × ℕ)
work none = none
work (some t) = some (t.handler, t.ctx)

abbrev pub SameWork : Cells → Cells → Type 0
SameWork c d = (a : Ptr) → work (d a) ≡ work (c a)

write-SameWork :
    (c : Cells) (p : Ptr) (t n : Task)
    → c p ≡ some t
    → work (some n) ≡ work (some t)
    → SameWork c (write c p (some n))
unfolding write
write-SameWork c p t n holds same a = elim (Bool-cases (a == p)) [
  | inl here ↦ rw here (same ∙ ap work (sym holds ∙ ap c (sym ((==_iff a p).0 here))))
  | inr other ↦ rw other
]

deref-some : (c : Cells) (p : Ptr) (t : Task) → deref c p ≡ ok t → c p ≡ some t
unfolding deref
deref-some c p t e = ground arith

-- A call that returns a pool with the same work.
abbrev Keeps : Cells → Outcome Pool → Type 0
Keeps c (ok r) = SameWork c r.cells
Keeps c (fault x) = Unit {0}

store_last-Keeps : (task : Ptr) (p : Pool) (s : Slot) → Keeps p.cells (store_last task p s)
unfolding store_last
store_last-Keeps task p first_slot = λ a. refl
store_last-Keeps task p (next_slot q) = elim (Outcome-cases (deref p.cells q)) [
  | inr (x, e) ↦ rw (e, store_last) tt
  | inl (t, e) ↦
      rw (e, store_last)
        (write-SameWork p.cells q t (record t { next = task }) (deref-some p.cells q t e) refl)
]

abbrev KeepsPost : Cells → Outcome (Status × Pool) → Type 0
KeepsPost c (ok (s, r)) = SameWork c r.cells
KeepsPost c (fault x) = Unit {0}

append_task-Keeps :
    (signal : ℕ) (p : Pool) (task : Ptr) → KeepsPost p.cells (append_task signal p task)
unfolding append_task thread_cond_signal
append_task-Keeps signal p task = elim (Outcome-cases (deref p.cells task)) [
  | inr (x, e) ↦ rw (e, append_task) tt
  | inl (t, e) ↦
      let q = record p {
        cells = write p.cells task (some (record t { id = p.thread_pool_task_id; next = null }));
        thread_pool_task_id = (p.thread_pool_task_id + 1) % 2 ^ 64;
      } in
      let marked : SameWork p.cells q.cells =
        write-SameWork p.cells task t (record t { id = p.thread_pool_task_id; next = null })
          (deref-some p.cells task t e) refl in
      elim (Bool-cases (signal == 0)) [
        | inr lost ↦ rw (e, append_task, lost) marked
        | inl sent ↦ elim (Outcome-cases (store_last task q q.last)) [
          | inr (x, bad) ↦ rw (e, append_task, sent, bad) tt
          | inl (r, stored) ↦
              let linked : SameWork q.cells r.cells =
                subst (Keeps q.cells) stored (store_last-Keeps task q q.last) in
              rw (e, append_task, sent, stored) (λ a. linked a ∙ marked a)
        ]
      ]
]

thread_task_post-Keeps :
    (a : PostAnswers) (p : Pool) (task : Ptr) → KeepsPost p.cells (thread_task_post a p task)
unfolding thread_task_post thread_mutex_lock
thread_task_post-Keeps a p task = elim (Bool-cases (a.lock == 0)) [
  | inr failed ↦ rw (failed, thread_task_post) (λ b. refl)
  | inl locked ↦
      rw (locked, thread_task_post)
        (elim (Bool-cases (leb_ℤ p.max_queue p.waiting)) [
          | inl full ↦ rw full (λ b. refl)
          | inr room ↦ rw room (append_task-Keeps a.signal p task)
        ])
]

-- Whatever its outcome, a post leaves every task its handler and its context.
pub thread_task_post-SameWork :
    (a : PostAnswers) (p : Pool) (task : Ptr) (s : Status) (r : Pool)
    → thread_task_post a p task ≡ ok (s, r)
    → SameWork p.cells r.cells
thread_task_post-SameWork a p task s r e =
    subst (KeepsPost p.cells) e (thread_task_post-Keeps a p task)
