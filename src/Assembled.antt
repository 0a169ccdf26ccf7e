-- ===== src/Assembled.antt =====
-- The server with the pool of src/threadpool/ in it: the network thread of src/NetworkInterface.cc
-- posts tasks on the linked queue, and each thread of the pool goes through `thread_pool_cycle`, with
-- `DispatchMsgService::svc` of src/DispatchMsgService.cc as the handler of a task.
pub mod Contexts
pub mod Posts
pub mod Turns
pub mod Refines
pub mod Steps
pub mod Matches
pub mod Safety
pub mod Codes
use shared_bike.Base.{
  ℕ, Bool, true, false, Option, none, some, List, [], ◌∷◌, ◌++◌, ◌==◌, if◌then◌else◌, get_elem?,
  Bytes, Outcome, ok, fault, use_after_free, ◌>>=◌,
}
use shared_bike.Protobuf.{Protobuf}
use shared_bike.Event.{Event}
use shared_bike.Dispatch.Process.{Service, Handle}
use shared_bike.Dispatch.Process
use shared_bike.Network.{Platform, listener_cb, handle_request}
use shared_bike.Network.Request.Chunks.{receive}
use shared_bike.Network.Response.{Sessions, left_by, handle_all_response_event, handle_error}
use shared_bike.ThreadPool.{
  Handler, svc, thread_pool_exit_handler, PostAnswers, CycleAnswers, Pc, running, deref,
}
use shared_bike.ThreadPool.System.{System, enqueues, turns}
use shared_bike.ThreadPool.System
use shared_bike.Server.{put}

-- The sessions and the events are at their addresses, which are what the tasks' contexts hold.
pub record Assembled (S : Type 0) : Type 0 where
  pub sessions : Sessions
  pub system : System
  pub events : ℕ → Option Event
  pub service : Service S

pub data Move : Type 0 where
  -- a client connects: its session is at `at`
  connects : (at fd bev : ℕ) → Bytes → Move
  -- bytes arrive at a session; an event that they complete is at `event_at` and its task at `fresh`
  arrives : (at : ℕ) → Bytes → (event_at fresh : ℕ) → PostAnswers → Move
  -- a step of the thread with this index
  takes_turn : ℕ → CycleAnswers → Move
  -- `handleAllResponseEvent`
  flushes : Move
  -- end of file, a timeout or an error: `handle_error`
  hangs_up : (at : ℕ) → Move

-- `enqueue(ev)` of the event that `handle_request` made, if it made one. What it returns is ignored.
unfoldable pub post :
    {S : Type 0} → ℕ → ℕ → PostAnswers → Option Event → Assembled S → Outcome (Assembled S)
post event_at fresh a none w = ok w
post event_at fresh a (some ev) w = do
  posted ← System.step (enqueues fresh event_at a) w.system
  ok (record w { system = posted; events = λ p. if p == event_at then some ev else w.events p })

module _ {S : Type 0} (pf : Platform) (pb : Protobuf) (handle : Handle S) where
  -- `task->handler(task->ctx)`, so far as the service goes.
  unfoldable pub call_handler : Handler → ℕ → Assembled S → Outcome (Service S)
  call_handler thread_pool_exit_handler ctx w = ok w.service
  call_handler svc ctx w = elim (w.events ctx) [
    | none ↦ fault use_after_free
    | some ev ↦ Process.svc handle w.service ev
  ]

  -- The handler's part of a thread's step.
  unfoldable pub run_task : Option Pc → Assembled S → Outcome (Service S)
  unfolding call_handler
  run_task (some (running t)) w = do
    task ← deref w.system.pool.cells t
    call_handler task.handler task.ctx w
  run_task _ w = ok w.service

  unfoldable pub move : Move → Assembled S → Outcome (Assembled S)
  unfolding run_task post
  move (connects at fd bev ip) w = do
    c ← listener_cb fd bev ip
    ok (record w { sessions = put at (some c) w.sessions })
  move (arrives at piece event_at fresh a) w = elim (w.sessions at) [
    | none ↦ ok w
    | some c ↦ do
      h ← handle_request pf pb at w.service.sn (receive c piece)
      posted ← post event_at fresh a h.enqueued w
      ok (record posted {
        sessions = put at (left_by h.callback) w.sessions;
        service = record (w.service) { sn = h.sn };
      })
  ]
  move (takes_turn i a) w = do
    served ← run_task (get_elem? w.system.pcs i) w
    turned ← System.step (turns i a) w.system
    ok (record w { system = turned; service = served })
  move flushes w = do
    ss ← handle_all_response_event pf pb w.service.response_events w.sessions
    ok (record w { sessions = ss; service = record (w.service) { response_events = [] } })
  move (hangs_up at) w = elim (w.sessions at) [
    | none ↦ ok w
    | some c ↦ do cb ← handle_error c; ok (record w { sessions = put at (left_by cb) w.sessions })
  ]

  unfoldable pub moves : List Move → Assembled S → Outcome (Assembled S)
  moves [] w = ok w
  moves (m ∷ rest) w = do t ← move m w; moves rest t
