-- ===== src/Startup/Main.antt =====
-- `main` of src/main.cc up to its loop, with the constructors that it calls.
use shared_bike.Base.{
  ℕ, Bool, Option, none, some, List, [], ◌∷◌, if◌then◌else◌, Bytes, replicate, Outcome, ok, ◌>>=◌,
}
use shared_bike.ThreadPool.{Cells, MutexAnswers, looping}
use shared_bike.ThreadPool.Lifecycle.{InitAnswers, Started}
use shared_bike.Dispatch.Subscribers.{HandlerPtr, EventHandlersMap}
use shared_bike.Dispatch.Process.{Service}
use shared_bike.Dispatch.Open.{open_service}
use shared_bike.Database.{ConnectArgs, Mysql, new_connection, delete_connection, init, init_tables}
use shared_bike.User.{UserState, subscribe_all, unsubscribe_all}
use shared_bike.Assembled.{Assembled}
use shared_bike.Startup.{Environment, minus}
use shared_bike.Startup.Config.{Config, getconfig, get_iniconfig, init_logger, loadfile}
use shared_bike.Startup.Listener.{Interface, new_interface, start}

-- How `main` ends: with an exit code, or in its loop, where the pool may be NULL.
pub data Ended (W : Type 0) : Type 0 where
  exited : ℕ → W → Ended W
  without_pool : Interface → Service (UserState W) → Ended W
  serving : Interface → Assembled (UserState W) → Ended W

-- What the other calls of `main` return, and what memory that is not set holds.
pub record Calls : Type 0 where
  -- the ports of a fresh `st_env_config`
  pub unset_db_port : ℕ
  pub unset_svr_port : ℕ
  -- `svr_exit_` of a fresh `DispatchMsgService`
  pub unset_svr_exit : Bool
  -- `new UserEventHandler()`
  pub handler : HandlerPtr
  pub queue_mutex : MutexAnswers
  pub pool : InitAnswers
  -- the heap of tasks, and the counter of their ids
  pub cells : Cells
  pub ids : ℕ
  pub event_base_new : Option ℕ
  -- `evconnlistener_new_bind`, by port
  pub bind : ℕ → Option ℕ

-- The arguments of `MySqlConnection::Init`.
unfoldable pub connect_args : Config → ConnectArgs
connect_args c = record {
  host = c.db_ip;
  port = c.db_port;
  user = c.db_user;
  passwd = c.db_pwd;
  db = c.db_name;
}

-- `QueryProcessor`'s constructor and destructor: the user's handler subscribes, and unsubscribes.
unfoldable pub new_query_processor : HandlerPtr → EventHandlersMap → EventHandlersMap
unfolding subscribe_all
new_query_processor ueh m = subscribe_all ueh m

unfoldable pub delete_query_processor : HandlerPtr → EventHandlersMap → EventHandlersMap
unfolding unsubscribe_all
delete_query_processor ueh m = unsubscribe_all ueh m

-- `DispatchMsgService`'s constructor, on a state of the handlers.
unfoldable pub new_service : {S : Type 0} → Bool → S → Service S
new_service svr_exit handlers = record {
  svr_exit = svr_exit;
  subscribers = [];
  response_events = [];
  handlers = handlers;
  sn = 0;
}

-- The server once its pool is there: each thread at the head of its loop, and no session.
abbrev with_pool : {W : Type 0} → Interface → Started → Service (UserState W) → Ended W
with_pool i tp s = elim (tp.pool) [
  | none ↦ without_pool i s
  | some p ↦ serving i (record {
    sessions = λ at. none;
    system = record { pool = p; pcs = replicate tp.threads looping };
    events = λ at. none;
    service = s;
  })
]

module _ {D W : Type 0} (env : Environment D) (sql : Mysql W) (userinfo bikeinfo : Bytes)
    (calls : Calls) where
  -- From the database on. What the tables and `open` come to is ignored, and `exit;` is no call, so
  -- `main` goes on whether or not the port was bound.
  unfoldable pub main_connected : Config → Option ℕ → W → Outcome (Ended W)
  unfolding new_query_processor new_service new_interface
  main_connected c mysql w = do
    (_, w1) ← init_tables sql userinfo bikeinfo mysql w
    let service = record (new_service calls.unset_svr_exit (record { m2c = []; world = w1 })) {
      subscribers = new_query_processor calls.handler [];
    }
    (_, (tp, opened)) ← open_service calls.queue_mutex calls.pool calls.cells calls.ids service
    let (_, interface) = start calls.event_base_new (calls.bind c.svr_port) new_interface
    ok (with_pool interface tp opened)

  -- From the configuration on.
  unfoldable pub main_configured : Config → W → Outcome (Ended W)
  main_configured c w =
      let (mysql, w1) = new_connection sql w in
      let (res, (mysql', w2)) = init sql (connect_args c) mysql w1 in
      if res
      then main_connected c mysql' w2
      else ok (exited (minus 4) (delete_connection sql mysql' w2))

  unfoldable pub main : List Bytes → W → Outcome (Ended W)
  unfolding get_iniconfig getconfig
  main (_ ∷ conf ∷ log ∷ _) w =
      if init_logger env log
      then (let (loaded, config) =
            loadfile env conf (get_iniconfig calls.unset_db_port calls.unset_svr_port none) in
          if loaded then main_configured (getconfig config) w else ok (exited (minus 3) w))
      else ok (exited (minus 2) w)
  main _ w = ok (exited (minus 1) w)
