-- ===== src/ThreadPool/System/Fifo.antt =====
-- The queue of src/threadpool/thread_pool.cc and its threads, seen from outside: a queue of the
-- contexts of its tasks, first in, first out.
pub mod Steps
pub mod Order
use shared_bike.Base.{
  some_inj, ℕ, ◌≡◌, refl, sym, ap, ◌∙◌, subst, ◌≢◌, ◌⊎◌, inl, inr, Bool, true, false, Bool-cases,
  Option, Option-cases, none, some, List, [], ◌∷◌, ◌++◌, append-nil, append_assoc, arith, ◌==◌,
  ◌||◌, ==_refl, if◌then◌else◌, get_elem?, set, Outcome, ok, fault, ◌>>=◌,
}
use shared_bike.ThreadPool.{
  Ptr, null, Cells, Task, Handler, svc, Pool, Pc, Status, t_ok, t_error, PostAnswers, CycleAnswers,
  write, thread_task_post, thread_pool_cycle,
}
use shared_bike.ThreadPool.Work.{work, SameWork, thread_task_post-SameWork}
use shared_bike.ThreadPool.Queue.{has, Chain, IsQueue, accepts, post_status}
use shared_bike.ThreadPool.System.{System, Action, enqueues, turns, enqueue, step}
use shared_bike.ThreadPool.System.Turn.{Turn, thread_pool_cycle-Turn}
use shared_bike.ThreadPool.System.Invariant.{Inv, allocated, Turn-Inv}
use shared_bike.ThreadPool.System.Steps.{
  Enabled, blank, filled, queue_after, enqueue-filled, enqueue_lem,
}
use shared_bike.ThreadPool.System.Safety.{initial_system, initial-Inv}

-- What the outside sees of a step: a post that returns T_OK, or a task leaving the queue.
pub data Seen : Type 0 where
  unseen : Seen
  accepted : ℕ → Seen
  taken : ℕ → Seen

-- The specification: what a queue of contexts becomes, `none` where it has no such step.
unfoldable pub fifo : Seen → List ℕ → Option (List ℕ)
fifo unseen q = some q
fifo (accepted n) q = some (q ++ n ∷ [])
fifo (taken n) [] = none
fifo (taken n) (x ∷ q) = if x == n then some q else none

abbrev pub ctx_of : Option (Handler × ℕ) → ℕ
ctx_of none = 0
ctx_of (some (h, ctx)) = ctx

abbrev pub ctx_at : Cells → Ptr → ℕ
ctx_at c a = ctx_of (work (c a))

-- The contexts of the tasks of a queue.
abbrev pub contexts : Cells → List Ptr → List ℕ
contexts c [] = []
contexts c (x ∷ xs) = ctx_at c x ∷ contexts c xs

abbrev pub seen_post : ℕ → Outcome (Status × Pool) → Seen
seen_post ctx (ok (t_ok, _)) = accepted ctx
seen_post ctx _ = unseen

-- A task has left the queue where `queue.first` has moved.
abbrev pub seen_turn : Pool → Outcome (Pc × Pool) → Seen
seen_turn p (ok (_, r)) = if r.first == p.first then unseen else taken (ctx_at p.cells p.first)
seen_turn p (fault x) = unseen

unfoldable pub seen : Action → System → Seen
seen (enqueues fresh ctx a) s = seen_post ctx (enqueue fresh a (some ctx) s.pool)
seen (turns i a) s = elim (get_elem? s.pcs i) [
  | none ↦ unseen
  | some pc ↦ seen_turn s.pool (thread_pool_cycle a pc s.pool)
]
