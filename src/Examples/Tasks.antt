-- ===== src/Examples/Tasks.antt =====
-- Runs of the thread pool.
use shared_bike.Base.{
  ℕ, ◌+◌, ◌≤◌, ◌≡◌, refl, arith, false, none, some, List, [], ◌∷◌, ◌==◌, if◌then◌else◌, get_elem?,
  length, Outcome, ok, fault,
}
use shared_bike.Base.Int.{pos_part, neg_part}
use shared_bike.ThreadPool.{
  Cells, Ptr, Task, Pool, looping, running, svc, next_slot, PostAnswers, write, deref, store_last,
  thread_task_alloc, append_task, thread_task_post, take_task, pick_task, thread_pool_cycle,
  thread_mutex_lock, thread_mutex_unlock, thread_cond_signal, default_queue_num,
  default_threads_num,
}
use shared_bike.ThreadPool.Queue.{IsQueue, CanPost, PostResult, accepts, post_status, post_lem}
use shared_bike.ThreadPool.Lifecycle.{initial_pool, InitAnswers}
use shared_bike.ThreadPool.System.{enqueue, System, Action, enqueues, turns, fill_task, step}
use shared_bike.ThreadPool.System.Turn.{TakesTurn, thread_pool_cycle-Turn}
use shared_bike.ThreadPool.System.Invariant.{total_owed}
use shared_bike.ThreadPool.System.Safety.{
  initial_system, Reach, here, next, no_fault, tasks_apart, IsQueue-bounded,
}

abbrev no_cells : Cells
no_cells a = none

abbrev start : System
start = initial_system no_cells 0

abbrev or_start : Outcome System → System
or_start (ok s) = s
or_start (fault x) = start

abbrev posting : Action
posting = enqueues 64 5 (record { lock = 0; signal = 0 })

abbrev taking : Action
taking = turns 0 (record { lock = 0; wait = 0; unlock = 0 })

-- One event was posted, and then taken by the first thread.
abbrev one_queued : System
one_queued = or_start (step posting start)

abbrev one_taken : System
one_taken = or_start (step taking one_queued)

queued-Reach : Reach start one_queued
unfolding step enqueue thread_task_alloc fill_task thread_task_post append_task deref store_last
    write thread_mutex_lock thread_cond_signal
queued-Reach = next posting here ((λ e. absurd (omega (arith, e))), refl) refl

taken-Reach : Reach start one_taken
unfolding step enqueue thread_task_alloc fill_task thread_task_post append_task deref store_last
    write thread_mutex_lock thread_cond_signal thread_pool_cycle pick_task take_task
    thread_mutex_unlock
taken-Reach = next taking queued-Reach tt refl

no_fault_example : (t : System) × (step taking one_queued ≡ ok t)
no_fault_example = no_fault queued-Reach taking tt

first_runs : get_elem? one_taken.pcs 0 ≡ some (running 64)
unfolding step enqueue thread_task_alloc fill_task thread_task_post append_task deref store_last
    write thread_mutex_lock thread_cond_signal thread_pool_cycle pick_task take_task
    thread_mutex_unlock
first_runs = refl

abbrev first : ℕ
first = 0

tasks_apart_example : (first ≡ first) × ((n : Task) × (one_taken.pool.cells 64 ≡ some n))
tasks_apart_example = tasks_apart taken-Reach 0 0 64 first_runs first_runs

IsQueue-bounded_example :
    (xs : List Ptr) × IsQueue one_queued.pool xs
    × (pos_part one_queued.pool.waiting + total_owed one_queued.pcs
        ≡ length xs + neg_part one_queued.pool.waiting)
    × (length xs ≤ default_queue_num + default_threads_num)
IsQueue-bounded_example = IsQueue-bounded queued-Reach

abbrev blank : Task
blank = record { next = 0; id = 0; ctx = 5; handler = svc }

abbrev one_task : Cells
one_task a = if a == 64 then some blank else none

first_task : CanPost (initial_pool one_task 0) [] 64 blank
first_task = record {
  queue = record { chain = refl; end = refl };
  valid = λ e. absurd (omega (arith, e));
  holds = refl;
  outside = refl;
}

abbrev sent : PostAnswers
sent = record { lock = 0; signal = 0 }

post_lem_example :
    (r : Pool) × (thread_task_post sent (initial_pool one_task 0) 64
      ≡ ok (post_status (accepts sent (initial_pool one_task 0)), r))
    × PostResult (accepts sent (initial_pool one_task 0)) (initial_pool one_task 0) [] 64 r
post_lem_example = post_lem sent (initial_pool one_task 0) [] 64 blank first_task

abbrev queued_pool : Pool
queued_pool = record (initial_pool one_task 0) { first = 64; last = next_slot 64 }

queued-IsQueue : IsQueue queued_pool (64 ∷ [])
queued-IsQueue = record {
  chain = (refl, (λ e. absurd (omega (arith, e))), refl, (blank, refl, refl));
  end = refl;
}

abbrev out_of_memory : InitAnswers
out_of_memory = record {
  calloc = false;
  mutex = record { attr_init = 0; attr_settype = 0; mutex_init = 0; attr_destroy = 0 };
  cond = 0;
  attr_init = 0;
  attr_detach = 0;
  create = λ n. 0;
}

thread_pool_cycle-Turn_example :
    TakesTurn (record { lock = 0; wait = 0; unlock = 0 }) queued_pool (64 ∷ []) looping
thread_pool_cycle-Turn_example =
    thread_pool_cycle-Turn (record { lock = 0; wait = 0; unlock = 0 }) queued_pool (64 ∷ []) looping
      queued-IsQueue tt
