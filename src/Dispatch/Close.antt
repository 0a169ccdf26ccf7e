-- ===== src/Dispatch/Close.antt =====
-- `DispatchMsgService::close` and `getInstance` of src/DispatchMsgService.cc.
use shared_bike.Base.{
  ℕ, ◌≡◌, refl, ◌≢◌, Bool, true, false, Option, none, some, [], List, Outcome, ok, fault,
  null_deref, if◌then◌else◌, ◌>>=◌,
}
use shared_bike.ThreadPool.{Ptr, Cells, null}
use shared_bike.ThreadPool.System.{System}
use shared_bike.ThreadPool.System.Safety.{Reach, initial_system}
use shared_bike.ThreadPool.Destroy.{
  DestroyPc, posting, spinning, gave_up, freed, Closing, Move, thread_pool_destroy, moves,
  runs_exit,
}
use shared_bike.ThreadPool.Destroy.Safety.{destroy-no_fault}
use shared_bike.Event.{Event}
use shared_bike.Dispatch.Process.{Service, Handle, svc, svc-closed}

-- The singleton: the address that is returned, and `DMS_` after. `fresh` is what `new` returns.
unfoldable pub get_instance : Ptr → Option Ptr → Ptr × Option Ptr
get_instance fresh none = (fresh, some fresh)
get_instance fresh (some dms) = (dms, some dms)

-- `thread_pool_destroy` has returned.
abbrev pub is_returned : DestroyPc → Bool
is_returned posting = false
is_returned spinning = false
is_returned gave_up = true
is_returned freed = true

-- `close`, so far as the moves of its caller and of the threads go: behind `thread_pool_destroy`,
-- whose task is at `task` on the stack, the subscriptions are cleared. What the destruction of the
-- queue's mutex returns is ignored. The pool of a service that was not opened is NULL.
unfoldable pub close_service :
    {S : Type 0}
    → Ptr
    → ℕ
    → ℕ
    → List Move
    → Option System
    → Service S
    → Outcome (Closing × Service S)
close_service task lock_at unset ms none s = fault null_deref
close_service task lock_at unset ms (some pool) s = do
  c ← moves ms (thread_pool_destroy task lock_at unset pool)
  let closing = record s { svr_exit = true }
  ok (c, if is_returned c.at then record closing { subscribers = [] } else closing)

-- `close` of an opened service, in whatever order its caller and the threads go on, runs without a
-- fault, and from its first step on every event that a thread still runs is dropped.
pub close_service-drops :
    {S : Type 0} {c : Cells} {ids : ℕ} {pool : System}
    → ((a : Ptr) → runs_exit (c a) ≡ false)
    → Reach (initial_system c ids) pool
    → (task : Ptr) (lock_at unset : ℕ) → task ≢ null
    → pool.pool.cells task ≡ none
    → (ms : List Move) (handle : Handle S) (s : Service S)
    → (r : Closing × Service S) × (close_service task lock_at unset ms (some pool) s ≡ ok r)
      × ((ev : Event) → svc handle r.1 ev ≡ ok r.1)
unfolding close_service
close_service-drops clean reach task lock_at unset ne new ms handle s =
    let (c, e) = destroy-no_fault clean reach task lock_at unset ne new ms in
    let closing = record s { svr_exit = true } in
    (
      (c, if is_returned c.at then record closing { subscribers = [] } else closing),
      rw e refl,
      λ ev. svc-closed handle _ ev (still_closing (is_returned c.at)),
    )
  where
    still_closing :
        (b : Bool)
        → (if b
            then record s { svr_exit = true; subscribers = [] }
            else record s { svr_exit = true }).svr_exit
          ≡ true
    still_closing true = refl
    still_closing false = refl
