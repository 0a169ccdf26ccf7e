-- ===== src/Assembled/Posts.antt =====
-- `DispatchMsgService::enqueue` on the pool of src/threadpool/: what it does to the contexts that are
-- queued, and to the work of the tasks.
use shared_bike.Base.{
  ℕ, ◌≡◌, sym, ap, ◌∙◌, ◌≢◌, Bool, true, false, none, some, some_inj, List, [], ◌∷◌, ◌++◌, ok,
}
use shared_bike.ThreadPool.{Ptr, null, svc, Pool, PostAnswers}
use shared_bike.ThreadPool.Work.{work, SameWork, thread_task_post-SameWork}
use shared_bike.ThreadPool.Queue.{accepts, post_status}
use shared_bike.ThreadPool.System.{System, enqueues, step}
use shared_bike.ThreadPool.System.Invariant.{Inv, allocated}
use shared_bike.ThreadPool.System.Steps.{filled, queue_after, enqueue-filled, enqueue_lem}
use shared_bike.ThreadPool.System.Fifo.{contexts, fifo, seen_post}
use shared_bike.ThreadPool.System.Fifo.Steps.{filled-work, filled-others, fifo_post}

-- The contexts after a post that was accepted or not.
abbrev pub contexts_after : Bool → List ℕ → ℕ → List ℕ
contexts_after true ns ctx = ns ++ ctx ∷ []
contexts_after false ns ctx = ns

fifo_contexts :
    (b : Bool) (ctx : ℕ) (r : Pool) (ns ms : List ℕ)
    → fifo (seen_post ctx (ok (post_status b, r))) ns ≡ some ms
    → ms ≡ contexts_after b ns ctx
unfolding fifo
fifo_contexts true ctx r ns ms h = sym (some_inj h)
fifo_contexts false ctx r ns ms h = sym (some_inj h)

-- The pool `r` after the event at `ctx` was posted, in a task at `fresh`, to that of `s`.
pub record Posted (s : System) (xs : List Ptr) (fresh ctx : ℕ) (a : PostAnswers) (r : Pool)
    : Type 0 where
  pub steps : step (enqueues fresh ctx a) s ≡ ok (record s { pool = r })
  pub pool : Inv (record s { pool = r }) (queue_after (accepts a s.pool) xs fresh)
  pub queued :
      contexts r.cells (queue_after (accepts a s.pool) xs fresh)
      ≡ contexts_after (accepts a s.pool) (contexts s.pool.cells xs) ctx
  pub own : work (r.cells fresh) ≡ some (svc, ctx)
  pub others : (t : Ptr) → t ≢ fresh → work (r.cells t) ≡ work (s.pool.cells t)

pub enqueues-Posted :
    (s : System) (xs : List Ptr) (fresh ctx : ℕ) (a : PostAnswers)
    → fresh ≢ null
    → s.pool.cells fresh ≡ none
    → Inv s xs
    → (r : Pool) × Posted s xs fresh ctx a r
unfolding step
enqueues-Posted s xs fresh ctx a ne new inv =
    let (r, posted, inv') = enqueue_lem fresh ctx a s xs ne new inv in
    let same : SameWork (filled fresh ctx s.pool).cells r.cells =
      thread_task_post-SameWork a (filled fresh ctx s.pool) fresh (post_status (accepts a s.pool)) r
        posted in
    (
      r,
      record {
        steps = rw (enqueue-filled fresh ctx a s.pool ne, posted);
        pool = inv';
        queued = fifo_contexts (accepts a s.pool) ctx r (contexts s.pool.cells xs) _ (
            fifo_post (accepts a s.pool) s xs fresh ctx r
              (allocated s.pool.cells s.pool.first xs fresh inv.queue.chain new) same);
        own = same fresh ∙ filled-work fresh ctx s.pool;
        others = λ t other. same t ∙ ap work (filled-others fresh ctx s.pool t other);
      },
    )
