-- ===== src/ThreadPool/System/Safety.antt =====
-- The pool that `thread_pool_init` starts, after any posts and any steps of its threads.
use shared_bike.Base.{
  ℕ, zero, suc, ◌+◌, ◌≤◌, ◌≡◌, refl, subst, some, List, [], arith, ok, length, get_elem?, replicate,
}
use shared_bike.Base.Int.{pos_part, neg_part}
use shared_bike.ThreadPool.{
  Ptr, Task, Pc, looping, running, Cells, default_threads_num, default_queue_num,
}
use shared_bike.ThreadPool.Queue.{IsQueue}
use shared_bike.ThreadPool.Lifecycle.{initial_pool}
use shared_bike.ThreadPool.System.{System, Action, step}
use shared_bike.ThreadPool.System.Turn.{HoldsTask}
use shared_bike.ThreadPool.System.Invariant.{total_owed, total_owed-le, Inv}
use shared_bike.ThreadPool.System.Steps.{Enabled, step-Inv}

abbrev pub initial_system : Cells → ℕ → System
initial_system c ids = record {
  pool = initial_pool c ids;
  pcs = replicate default_threads_num looping;
}

pub data Reach (start : System) : System → Type 0 where
  here : Reach start start
  next :
      {s t : System} (act : Action)
      → Reach start s
      → Enabled act s
      → step act s ≡ ok t
      → Reach start t

pub initial-looping :
    (n i : ℕ) (pc : Pc) → get_elem? (replicate n looping) i ≡ some pc → looping ≡ pc
initial-looping zero i pc h = cc
initial-looping (suc n) zero pc h = cc
initial-looping (suc n) (suc i) pc h = initial-looping n i pc h

pub initial-Inv : (c : Cells) (ids : ℕ) → Inv (initial_system c ids) []
initial-Inv c ids = record {
  queue = record { chain = refl; end = refl };
  counted = refl;
  limited = omega arith;
  capacity = refl;
  crew = refl;
  holding = λ i pc at. subst (HoldsTask (initial_pool c ids) []) (initial-looping 4 i pc at) tt;
  apart = λ i j t ai aj. let e = initial-looping 4 i (running t) ai in cc;
}

Reach-Inv :
    {c : Cells} {ids : ℕ} {s : System} → Reach (initial_system c ids) s → (xs : List Ptr) × Inv s xs
Reach-Inv {c} {ids} here = ([], initial-Inv c ids)
Reach-Inv (next {s} {t} act r enabled e) =
    let (xs, inv) = Reach-Inv r in
    let (t', ys, e', inv') = step-Inv act s xs enabled inv in
    let same : t' ≡ t = ground arith in (ys, subst (λ u. Inv u ys) same inv')

-- From the pool that `thread_pool_init` starts, every post and every step of a thread runs without
-- a fault, whatever its pthread calls return, as long as `calloc` returns memory not in use.
pub no_fault :
    {c : Cells} {ids : ℕ} {s : System}
    → Reach (initial_system c ids) s
    → (act : Action) → Enabled act s
    → (t : System) × (step act s ≡ ok t)
no_fault {s} r act enabled =
    let (xs, inv) = Reach-Inv r in let (t, _, e, _) = step-Inv act s xs enabled inv in (t, e)

-- In every system reached from the started pool, no two threads run the same task, and a task that
-- runs is still allocated.
pub tasks_apart :
    {c : Cells} {ids : ℕ} {s : System}
    → Reach (initial_system c ids) s
    → (i j : ℕ) (t : Ptr) → get_elem? s.pcs i ≡ some (running t)
    → get_elem? s.pcs j ≡ some (running t)
    → (i ≡ j) × ((n : Task) × (s.pool.cells t ≡ some n))
tasks_apart r i j t hi hj =
    let (xs, inv) = Reach-Inv r in
    let (_, _, held) = inv.holding i (running t) hi in (inv.apart i j t hi hj, held)

-- The queue never holds more than `max_queue` tasks and one for each thread: `waiting` counts the
-- queued tasks, less those that a thread has counted off and not taken, and stays within its limit.
pub IsQueue-bounded :
    {c : Cells} {ids : ℕ} {s : System}
    → Reach (initial_system c ids) s
    → (xs : List Ptr) × IsQueue s.pool xs
      × (pos_part s.pool.waiting + total_owed s.pcs ≡ length xs + neg_part s.pool.waiting)
      × (length xs ≤ default_queue_num + default_threads_num)
IsQueue-bounded {s} r =
    let (xs, inv) = Reach-Inv r in
    let limit : pos_part s.pool.waiting + 0 ≤ default_queue_num + neg_part s.pool.waiting =
      subst (λ m. pos_part s.pool.waiting + neg_part m ≤ pos_part m + neg_part s.pool.waiting)
        inv.capacity inv.limited in
    (xs, inv.queue, inv.counted, omega (arith, inv.counted, limit, total_owed-le s.pcs, inv.crew))
