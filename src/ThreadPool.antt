-- ===== src/ThreadPool.antt =====
-- src/threadpool/: thread.h, thread_mutex.cc, thread_cond.cc, thread_pool.h and thread_pool.cc.
-- Tasks live on a heap of cells, and `queue.last` is the address of the pointer that the next task
-- goes to: `&queue.first` or `&task->next`. What pthread calls return is an argument.
pub mod Queue
pub mod Work
pub mod System
pub mod Lifecycle
pub mod Destroy
use shared_bike.Base.{
  ℕ, ◌+◌, ◌%◌, ◌^◌, Bool, true, false, Option, none, some, ◌==◌, if◌then◌else◌, Outcome, ok, fault,
  null_deref, use_after_free, ◌>>=◌,
}
use shared_bike.Base.Int.{ℤ, pos, increment, decrement, leb_ℤ}

pub data Status : Type 0 where
  t_ok t_error : Status

-- `err == 0 ? T_OK : T_ERROR`, the shape of the wrappers.
abbrev pub status_of : ℕ → Status
status_of err = if err == 0 then t_ok else t_error

unfoldable pub thread_mutex_lock : ℕ → Status
thread_mutex_lock err = status_of err

unfoldable pub thread_mutex_unlock : ℕ → Status
thread_mutex_unlock err = status_of err

unfoldable pub thread_mutex_destroy : ℕ → Status
thread_mutex_destroy err = if err == 0 then t_ok else t_error

unfoldable pub thread_cond_create : ℕ → Status
thread_cond_create err = status_of err

unfoldable pub thread_cond_destroy : ℕ → Status
thread_cond_destroy err = status_of err

unfoldable pub thread_cond_signal : ℕ → Status
thread_cond_signal err = status_of err

unfoldable pub thread_cond_wait : ℕ → Status
thread_cond_wait err = status_of err

-- The results of the four pthread calls in `thread_mutex_create`; the last one is only reported.
pub record MutexAnswers : Type 0 where
  pub attr_init : ℕ
  pub attr_settype : ℕ
  pub mutex_init : ℕ
  pub attr_destroy : ℕ

unfoldable pub thread_mutex_create : MutexAnswers → Status
thread_mutex_create a =
    if a.attr_init == 0
    then (if a.attr_settype == 0 then (if a.mutex_init == 0 then t_ok else t_error) else t_error)
    else t_error

abbrev pub Ptr : Type 0
Ptr = ℕ

abbrev pub null : Ptr
null = 0

-- The two functions that the program puts into tasks.
pub data Handler : Type 0 where
  svc : Handler
  thread_pool_exit_handler : Handler

pub record Task : Type 0 where
  pub next : Ptr
  pub id : ℕ
  pub ctx : ℕ
  pub handler : Handler

pub data Slot : Type 0 where
  first_slot : Slot
  next_slot : Ptr → Slot

abbrev pub Cells : Type 0
Cells = Ptr → Option Task

unfoldable pub write : Cells → Ptr → Option Task → Cells
write c p t q = if q == p then t else c q

pub record Pool : Type 0 where
  pub cells : Cells
  pub first : Ptr
  pub last : Slot
  pub waiting : ℤ
  pub threads : ℕ
  pub max_queue : ℤ
  pub thread_pool_task_id : ℕ

abbrev pub default_threads_num : ℕ
default_threads_num = 4

abbrev pub default_queue_num : ℕ
default_queue_num = 65535

-- `task->...` on a pointer.
unfoldable pub deref : Cells → Ptr → Outcome Task
deref c p =
    if p == null
    then fault null_deref
    else elim (c p) [ none ↦ fault use_after_free | some t ↦ ok t ]

-- `thread_task_alloc`: `fresh` is what `calloc` returns; a task is zeroed but for `ctx`, which
-- points behind it.
unfoldable pub thread_task_alloc : Ptr → ℕ → Pool → Ptr × Pool
unfolding write
thread_task_alloc fresh task_size p =
    if fresh == null
    then (null, p)
    else (fresh, record p { cells = write p.cells fresh (some task) })
  where
    task : Task
    task = record { next = null; id = 0; ctx = fresh + task_size; handler = svc }

unfoldable pub thread_task_free : Ptr → Pool → Pool
unfolding write
thread_task_free t p = if t == null then p else record p { cells = write p.cells t none }

-- `*tp->queue.last = task`
unfoldable pub store_last : Ptr → Pool → Slot → Outcome Pool
unfolding write deref
store_last task p first_slot = ok (record p { first = task })
store_last task p (next_slot q) = do
  t ← deref p.cells q
  ok (record p { cells = write p.cells q (some (record t { next = task })) })

pub record PostAnswers : Type 0 where
  pub lock : ℕ
  pub signal : ℕ

-- The part of `thread_task_post` behind the overflow test.
unfoldable pub append_task : ℕ → Pool → Ptr → Outcome (Status × Pool)
unfolding store_last thread_cond_signal
append_task signal p task = do
  t ← deref p.cells task
  let t' = record t { id = p.thread_pool_task_id; next = null }
  let q = record p {
    cells = write p.cells task (some t');
    thread_pool_task_id = (p.thread_pool_task_id + 1) % 2 ^ 64;
  }
  elim (thread_cond_signal signal) [
    | t_error ↦ ok (t_error, q)
    | t_ok ↦ do
      r ← store_last task q q.last
      ok (t_ok, record r { last = next_slot task; waiting = increment r.waiting })
  ]

unfoldable pub thread_task_post : PostAnswers → Pool → Ptr → Outcome (Status × Pool)
unfolding thread_mutex_lock
thread_task_post a p task = elim (thread_mutex_lock a.lock) [
  | t_error ↦ ok (t_error, p)
  | t_ok ↦ if leb_ℤ p.max_queue p.waiting then ok (t_error, p) else append_task a.signal p task
]

-- The dequeue of `thread_pool_cycle`; `queue.first` is not NULL there.
unfoldable pub take_task : Pool → Outcome (Ptr × Pool)
unfolding deref
take_task p = do
  t ← deref p.cells p.first
  let q = record p { first = t.next }
  ok (p.first, if q.first == null then record q { last = first_slot } else q)

-- Where a thread stands in `thread_pool_cycle`.
pub data Pc : Type 0 where
  looping : Pc  -- at the head of the `for`
  asleep : Pc  -- in `thread_cond_wait`
  running : Ptr → Pc  -- in the handler of a task
  stopped : Pc  -- returned, or left by `pthread_exit`
  stopped_asleep : Pc  -- returned because `thread_cond_wait` failed

pub record CycleAnswers : Type 0 where
  pub lock : ℕ
  pub wait : ℕ
  pub unlock : ℕ

-- From the test of the inner `while` to the end of the critical section.
unfoldable pub pick_task : CycleAnswers → Pool → Outcome (Pc × Pool)
unfolding thread_mutex_unlock
pick_task a p = if p.first == null then ok (asleep, p) else (do
  (t, q) ← take_task p
  ok (elim (thread_mutex_unlock a.unlock) [ t_ok ↦ running t | t_error ↦ stopped ], q))

-- What follows the call of the task's handler.
unfoldable pub finish_task : Handler → Ptr → Pool → Outcome (Pc × Pool)
unfolding thread_task_free write
finish_task thread_pool_exit_handler t p = ok (stopped, p)
finish_task svc t p = do
  task ← deref p.cells t
  ok (
    looping,
    thread_task_free t (record p { cells = write p.cells t (some (record task { next = null })) }),
  )

-- One step of one thread: to its next wait, handler or exit. The mutex is held throughout a step
-- that touches the queue, so steps of different threads do not overlap.
unfoldable pub thread_pool_cycle : CycleAnswers → Pc → Pool → Outcome (Pc × Pool)
unfolding thread_mutex_lock thread_cond_wait
thread_pool_cycle a looping p = elim (thread_mutex_lock a.lock) [
  | t_error ↦ ok (stopped, p)
  | t_ok ↦ pick_task a (record p { waiting = decrement p.waiting })
]
thread_pool_cycle a asleep p = elim (thread_cond_wait a.wait) [
  | t_error ↦ ok (stopped_asleep, p)
  | t_ok ↦ pick_task a p
]
thread_pool_cycle a (running t) p = do task ← deref p.cells t; finish_task task.handler t p
thread_pool_cycle a stopped p = ok (stopped, p)
thread_pool_cycle a stopped_asleep p = ok (stopped_asleep, p)
