-- ===== src/ThreadPool/System.antt =====
-- The pool's threads and the callers of `thread_task_post`, interleaved in any order: the state is
-- the pool with the place where each thread stands, and an action is one post or one step of one
-- thread, with the results of its pthread calls.
pub mod Turn
pub mod Invariant
pub mod Steps
pub mod Safety
pub mod Fifo
use shared_bike.Base.{
  ℕ, ◌<◌, ◌≤◌, ◌+◌, suc, Option, none, some, List, [], ◌∷◌, get_elem?, set, Outcome, ok, ◌>>=◌,
}
use shared_bike.ThreadPool.{
  t_error, Status, Ptr, null, Task, Handler, svc, Pool, PostAnswers, CycleAnswers, Pc, looping,
  asleep, running, stopped, stopped_asleep, deref, write, thread_task_alloc, thread_task_post,
  thread_pool_cycle,
}

pub record System : Type 0 where
  pub pool : Pool
  pub pcs : List Pc

-- `task->handler = ...; task->ctx = ...` in the caller.
unfoldable pub fill_task : Ptr → Handler → ℕ → Pool → Outcome Pool
unfolding write
fill_task task h ctx p = do
  t ← deref p.cells task
  ok (record p { cells = write p.cells task (some (record t { handler = h; ctx = ctx })) })

-- `DispatchMsgService::enqueue` of the event at an address, NULL as `none`, where `calloc` returns
-- `fresh`. Its -1 for a null event is T_ERROR's value.
unfoldable pub enqueue : Ptr → PostAnswers → Option ℕ → Pool → Outcome (Status × Pool)
enqueue fresh a none p = ok (t_error, p)
enqueue fresh a (some ctx) p = do
  let (task, allocated) = thread_task_alloc fresh 0 p
  filled ← fill_task task svc ctx allocated
  thread_task_post a filled task

pub data Action : Type 0 where
  -- `DispatchMsgService::enqueue` of the event at `ctx`, where `calloc` returns `fresh`
  enqueues : (fresh ctx : ℕ) → PostAnswers → Action
  -- a step of the thread with this index
  turns : ℕ → CycleAnswers → Action

unfoldable pub step : Action → System → Outcome System
step (enqueues fresh ctx a) s = do
  (_, posted) ← enqueue fresh a (some ctx) s.pool
  ok (record s { pool = posted })
step (turns i a) s = elim (get_elem? s.pcs i) [
  | none ↦ ok s
  | some pc ↦ do
    (pc', p) ← thread_pool_cycle a pc s.pool
    ok (record { pool = p; pcs = set s.pcs i pc' })
]

unfoldable pub run : List Action → System → Outcome System
unfolding step
run [] s = ok s
run (a ∷ rest) s = do t ← step a s; run rest t
