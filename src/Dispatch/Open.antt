-- ===== src/Dispatch/Open.antt =====
-- `DispatchMsgService::open` of src/DispatchMsgService.cc.
use shared_bike.Base.{ℕ, Bool, true, false, Option, none, some, Outcome, ok, ◌>>=◌}
use shared_bike.ThreadPool.{Cells, MutexAnswers, thread_mutex_create}
use shared_bike.ThreadPool.Lifecycle.{InitAnswers, Started, thread_pool_init}
use shared_bike.Dispatch.Process.{Service}

abbrev is_some : {A : Type 0} → Option A → Bool
is_some none = false
is_some (some a) = true

-- What the queue's mutex comes to is ignored. The answer is whether there is a pool.
unfoldable pub open_service :
    {S : Type 0}
    → MutexAnswers
    → InitAnswers
    → Cells
    → ℕ
    → Service S
    → Outcome (Bool × (Started × Service S))
open_service queue_mutex a cells ids s = do
  let ignored = thread_mutex_create queue_mutex
  tp ← thread_pool_init a cells ids
  ok (is_some tp.pool, (tp, record s { svr_exit = false }))
