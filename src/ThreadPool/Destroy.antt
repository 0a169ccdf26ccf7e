-- ===== src/ThreadPool/Destroy.antt =====
-- `thread_pool_destroy` of src/threadpool/thread_pool.cc, interleaved with the pool's threads: it
-- posts one task from its stack for each thread, and waits until a thread has run it.
pub mod Keeps
pub mod Invariant
pub mod Moves
pub mod Start
pub mod Release
pub mod Safety
pub mod Progress
use shared_bike.Base.{
  ℕ, ◌+◌, Bool, true, false, Option, none, some, List, [], ◌∷◌, ltb, ◌==◌, if◌then◌else◌, get_elem?,
  Outcome, ok, fault, use_after_free, ◌>>=◌,
}
use shared_bike.ThreadPool.{
  Ptr, null, Handler, svc, thread_pool_exit_handler, Task, Pool, Pc, looping, asleep, running,
  stopped, stopped_asleep, Status, t_ok, t_error, PostAnswers, CycleAnswers, write,
  thread_task_post,
}
use shared_bike.ThreadPool.System.{System, turns, step}

-- Where the caller stands: at the test of the `for`, in the `while`, returned because a post
-- failed, or at the end, with the pool freed.
pub data DestroyPc : Type 0 where
  posting spinning gave_up freed : DestroyPc

-- `n` and `lock` are the locals of those names, and `task` the address of the local task.
pub record Closing : Type 0 where
  pub system : System
  pub task : Ptr
  pub lock : ℕ
  pub n : ℕ
  pub at : DestroyPc

-- `memset`, `task.handler = ...` and `task.ctx = &lock`; `lock` itself is unset.
unfoldable pub thread_pool_destroy : Ptr → ℕ → ℕ → System → Closing
unfolding write
thread_pool_destroy task lock_at unset s = record {
  system = record s {
    pool = record (s.pool) {
      cells = write s.pool.cells task (
          some (record { next = null; id = 0; ctx = lock_at; handler = thread_pool_exit_handler }));
    };
  };
  task = task;
  lock = unset;
  n = 0;
  at = posting;
}

abbrev pub after_post : Closing → Status × Pool → Closing
after_post c (t_ok, p) = record c {
  system = record (c.system) { pool = p };
  lock = 1;
  at = spinning;
}
after_post c (t_error, p) = record c {
  system = record (c.system) { pool = p };
  lock = 1;
  at = gave_up;
}

-- One step of the caller. Behind the loop the condition variable and the mutex are destroyed, what
-- they return is ignored, and the pool is freed.
unfoldable pub destroy_step : PostAnswers → DestroyPc → Closing → Outcome Closing
destroy_step a posting c =
    if ltb c.n c.system.pool.threads
    then (do posted ← thread_task_post a c.system.pool c.task; ok (after_post c posted))
    else ok (record c { at = freed })
destroy_step a spinning c = ok (if c.lock == 0 then record c { n = c.n + 1; at = posting } else c)
destroy_step a gave_up c = ok c
destroy_step a freed c = ok c

abbrev pub is_exit : Handler → Bool
is_exit svc = false
is_exit thread_pool_exit_handler = true

abbrev pub runs_exit : Option Task → Bool
runs_exit none = false
runs_exit (some t) = is_exit t.handler

-- The thread is about to run `thread_pool_exit_handler`.
abbrev pub exits_at : System → Option Pc → Bool
exits_at s (some (running t)) = runs_exit (s.pool.cells t)
exits_at s _ = false

abbrev pub exits : System → ℕ → Bool
exits s i = exits_at s (get_elem? s.pcs i)

-- The next step of the thread is one on the pool.
abbrev pub needs_pool : Option Pc → Bool
needs_pool (some looping) = true
needs_pool (some asleep) = true
needs_pool _ = false

-- One step of a thread. `thread_pool_exit_handler` sets the `lock` that its task points to.
unfoldable pub thread_step : ℕ → CycleAnswers → Closing → Outcome Closing
thread_step i a c = do
  s ← step (turns i a) c.system
  ok (record c { system = s; lock = if exits c.system i then 0 else c.lock })

abbrev pub is_freed : DestroyPc → Bool
is_freed freed = true
is_freed _ = false

pub data Move : Type 0 where
  caller : PostAnswers → Move
  thread : ℕ → CycleAnswers → Move

-- A thread that goes on to the pool once it is freed uses freed memory.
unfoldable pub move : Move → Closing → Outcome Closing
move (caller a) c = destroy_step a c.at c
move (thread i a) c =
    if is_freed c.at
    then (if needs_pool (get_elem? c.system.pcs i) then fault use_after_free else thread_step i a c)
    else thread_step i a c

-- A run: the moves of the caller and of the threads, in any order.
unfoldable pub moves : List Move → Closing → Outcome Closing
moves [] c = ok c
moves (m ∷ rest) c = do d ← move m c; moves rest d
