-- ===== src/Examples/Pool.antt =====
-- Runs of the whole thread pool: the order of its tasks, and its end.
use shared_bike.Base.{
  get_elem?, ℕ, ◌≡◌, refl, arith, none, some, List, [], ◌∷◌, ◌++◌, length, Outcome, ok, fault,
  false,
}
use shared_bike.Base.Int.{increment, decrement}
use shared_bike.ThreadPool.{
  Ptr, Cells, write, deref, store_last, thread_task_alloc, append_task, thread_task_post, take_task,
  pick_task, finish_task, thread_pool_cycle, thread_mutex_lock, thread_mutex_unlock,
  thread_cond_signal,
}
use shared_bike.ThreadPool.Queue.{IsQueue, has}
use shared_bike.ThreadPool.System.{System, Action, enqueues, turns, fill_task, enqueue, step}
use shared_bike.ThreadPool.System.Safety.{initial_system, Reach, here}
use shared_bike.ThreadPool.System.Fifo.{accepted, taken, contexts, seen, fifo}
use shared_bike.ThreadPool.System.Fifo.Order.{Trace, here, next, step-fifo, taken_in_order}
use shared_bike.ThreadPool.Destroy.{
  Closing, freed, Move, caller, thread, move, moves, destroy_step, thread_step, thread_pool_destroy,
}
use shared_bike.ThreadPool.Destroy.Release.{good}
use shared_bike.ThreadPool.Destroy.Progress.{destroy-goes_on}
use shared_bike.ThreadPool.Destroy.{posting, spinning}
use shared_bike.Base.{inl, ◌+◌, ◌*◌, ◌≤◌, true, replicate}
use shared_bike.ThreadPool.{looping, thread_pool_exit_handler}
use shared_bike.ThreadPool.Destroy.Keeps.{total_halted}
use shared_bike.ThreadPool.Destroy.Safety.{destroy-no_fault, destroy-all_stopped, destroy-needs_all}

abbrev no_cells : Cells
no_cells a = none

abbrev start : System
start = initial_system no_cells 0

abbrev or_start : Outcome System → System
or_start (ok s) = s
or_start (fault x) = start

abbrev posting_5 : Action
posting_5 = enqueues 64 5 (record { lock = 0; signal = 0 })

abbrev taking : Action
taking = turns 0 (record { lock = 0; wait = 0; unlock = 0 })

abbrev one_queued : System
one_queued = or_start (step posting_5 start)

abbrev one_taken : System
one_taken = or_start (step taking one_queued)

queued-Trace : Trace start (accepted 5 ∷ []) one_queued
unfolding step enqueue thread_task_alloc fill_task thread_task_post append_task deref store_last
    write thread_mutex_lock thread_cond_signal seen
queued-Trace = next posting_5 here ((λ e. absurd (omega (arith, e))), refl) refl refl

taken-Trace : Trace start (accepted 5 ∷ taken 5 ∷ []) one_taken
unfolding step enqueue thread_task_alloc fill_task thread_task_post append_task deref store_last
    write thread_mutex_lock thread_cond_signal seen thread_pool_cycle pick_task take_task
    thread_mutex_unlock
taken-Trace = next taking queued-Trace tt refl refl

step-fifo_example :
    (t : System) × (xs ys : List Ptr) × (step taking one_queued ≡ ok t)
    × IsQueue one_queued.pool xs
    × IsQueue t.pool ys
    × (fifo (seen taking one_queued) (contexts one_queued.pool.cells xs)
        ≡ some (contexts t.pool.cells ys))
step-fifo_example = step-fifo queued-Trace taking tt

taken_in_order_example :
    (xs : List Ptr) × IsQueue one_taken.pool xs
    × (5 ∷ [] ≡ (5 ∷ []) ++ contexts one_taken.pool.cells xs)
taken_in_order_example = taken_in_order taken-Trace

-- The caller posts, a thread takes the task and runs it, and the caller counts it.
abbrev round : ℕ → List Move
round i =
    caller (record { lock = 0; signal = 0 })
    ∷ thread i (record { lock = 0; wait = 0; unlock = 0 })
    ∷ thread i (record { lock = 0; wait = 0; unlock = 0 })
    ∷ caller (record { lock = 0; signal = 0 })
    ∷ []

abbrev run_down : List Move
run_down = round 0 ++ round 1 ++ round 2 ++ round 3 ++ caller (record { lock = 0; signal = 0 }) ∷ []

abbrev or_closing : Outcome Closing → Closing
or_closing (ok c) = c
or_closing (fault x) = thread_pool_destroy 32 40 7 start

abbrev closed : Closing
closed = or_closing (moves run_down (thread_pool_destroy 32 40 7 start))

start-Reach : Reach start start
start-Reach = here

destroy-no_fault_example :
    (c' : Closing) × (moves run_down (thread_pool_destroy 32 40 7 start) ≡ ok c')
destroy-no_fault_example =
    destroy-no_fault (λ a. refl) start-Reach 32 40 7 (λ e. absurd (omega (arith, e))) refl run_down

runs : moves run_down (thread_pool_destroy 32 40 7 start) ≡ ok closed
unfolding moves move destroy_step thread_step step thread_pool_destroy thread_task_post append_task
    deref store_last write thread_mutex_lock thread_cond_signal thread_pool_cycle pick_task
    take_task finish_task thread_mutex_unlock increment decrement
runs = refl

ends : closed.at ≡ freed
unfolding moves move destroy_step thread_step step thread_pool_destroy thread_task_post append_task
    deref store_last write thread_mutex_lock thread_cond_signal thread_pool_cycle pick_task
    take_task finish_task thread_mutex_unlock increment decrement
ends = refl

destroy-all_stopped_example :
    (total_halted closed.system.pcs ≡ length closed.system.pcs)
    × ((ys : List Ptr) × IsQueue closed.system.pool ys × (has closed.task ys ≡ false))
destroy-all_stopped_example =
    destroy-all_stopped (λ a. refl) start-Reach 32 40 7 (λ e. absurd (omega (arith, e))) refl
      run_down closed runs ends

destroy-needs_all_example : total_halted start.pcs ≡ 0
destroy-needs_all_example =
    destroy-needs_all (λ a. refl) start-Reach 32 40 7 (λ e. absurd (omega (arith, e))) refl run_down
      closed runs ends

-- The caller has posted, and no thread has taken the task.
abbrev only_post : List Move
only_post = caller (record { lock = 0; signal = 0 }) ∷ []

abbrev own_task : List Ptr
own_task = 32 ∷ []

abbrev waiting : Closing
waiting = or_closing (moves only_post (thread_pool_destroy 32 40 7 start))

waiting-runs : moves only_post (thread_pool_destroy 32 40 7 start) ≡ ok waiting
unfolding moves move destroy_step thread_step step thread_pool_destroy thread_task_post append_task
    deref store_last write thread_mutex_lock thread_cond_signal thread_pool_cycle pick_task
    take_task finish_task thread_mutex_unlock increment decrement
waiting-runs = refl

waiting-at : waiting.at ≡ spinning
unfolding moves move destroy_step thread_step step thread_pool_destroy thread_task_post append_task
    deref store_last write thread_mutex_lock thread_cond_signal thread_pool_cycle pick_task
    take_task finish_task thread_mutex_unlock increment decrement
waiting-at = refl

waiting-IsQueue : IsQueue waiting.system.pool (32 ∷ [])
unfolding moves move destroy_step thread_step step thread_pool_destroy thread_task_post append_task
    deref store_last write thread_mutex_lock thread_cond_signal thread_pool_cycle pick_task
    take_task finish_task thread_mutex_unlock increment decrement
waiting-IsQueue = record {
  chain = (
    refl,
    (λ e. absurd (omega (arith, e))),
    refl,
    (record { next = 0; id = 0; ctx = 40; handler = thread_pool_exit_handler }, refl, refl),
  );
  end = refl;
}

waiting-has : has waiting.task (32 ∷ []) ≡ true
unfolding moves move destroy_step thread_step step thread_pool_destroy thread_task_post append_task
    deref store_last write thread_mutex_lock thread_cond_signal thread_pool_cycle pick_task
    take_task finish_task thread_mutex_unlock increment decrement
waiting-has = refl

waiting-idle : get_elem? waiting.system.pcs 2 ≡ some looping
unfolding moves move destroy_step thread_step step thread_pool_destroy thread_task_post append_task
    deref store_last write thread_mutex_lock thread_cond_signal thread_pool_cycle pick_task
    take_task finish_task thread_mutex_unlock increment decrement
waiting-idle = refl

destroy-goes_on_example :
    (n : ℕ) × (e : Closing) × (n ≤ 2 * length own_task)
    × (moves (replicate n (thread 2 good) ++ only_post) waiting ≡ ok e)
    × (e.at ≡ posting)
    × (e.n ≡ waiting.n + 1)
destroy-goes_on_example =
    destroy-goes_on (λ a. refl) start-Reach 32 40 7 (λ e. absurd (omega (arith, e))) refl only_post
      waiting waiting-runs waiting-at (32 ∷ []) waiting-IsQueue waiting-has 2 looping waiting-idle
      (inl refl) (record { lock = 0; signal = 0 })
