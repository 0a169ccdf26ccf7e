-- ===== src/Startup/Codes.antt =====
-- From `main` of src/main.cc to a code that a client gets.
use shared_bike.Base.{◌^◌, ◌<◌, ℕ, ◌+◌, ◌≡◌, subst, some, [], ◌∷◌, ◌++◌, List, Bytes, get_elem?, ok}
use shared_bike.Wire.{frame}
use shared_bike.Protobuf.{Protobuf}
use shared_bike.Event.{
  Event, event_id, get_mobile_code_req, get_mobile_code_rsp, mobile_code_req_ev,
}
use shared_bike.Network.{Platform, Connection}
use shared_bike.Network.Response.Flush.{IsReset}
use shared_bike.ThreadPool.{Ptr, Task, CycleAnswers, running}
use shared_bike.Database.{Mysql, ConnectArgs}
use shared_bike.User.{UserState, find_code}
use shared_bike.Server.Codes.{user_handle, code_response}
use shared_bike.Assembled.{Assembled, Move, moves}
use shared_bike.Assembled.Safety.{Reach}
use shared_bike.Assembled.Codes.{code-answered}
use shared_bike.Startup.{Environment}
use shared_bike.Startup.Listener.{Interface}
use shared_bike.Startup.Main.{Calls, serving, main}
use shared_bike.Startup.Ends.{main-IsStarted}

module _ {D W : Type 0} (env : Environment D) (sql : Mysql W) (userinfo bikeinfo : Bytes)
    (calls : Calls) (rand : W → ℕ × W) (conf : ConnectArgs) (pf : Platform) (pb : Protobuf) where
  -- When `main` has come to its loop with a pool, in every state that its server reaches in a run
  -- where sessions, tasks and events got memory that was not in use, a client's address had at most
  -- 31 chars, the handlers answered each event that a thread ran, without a fault and with a
  -- message that fits the length field, and no session hung up while it awaited a response: when a
  -- thread that runs the task of a request for a code goes on, whose response fits, and the
  -- responses go out, the client of its session has, behind what it had, exactly one frame, with
  -- success, a code and its reason; the session reads the next header; and the code that was sent
  -- is the one that the user's handler now remembers for the number.
  pub main-code_answered :
      (args : List Bytes) (world : W) (i : Interface) (start w : Assembled (UserState W))
      → main env sql userinfo bikeinfo calls args world ≡ ok (serving i start)
      → Reach pf pb (user_handle sql rand conf) start w
      → (n : ℕ) (a : CycleAnswers) (t : Ptr) (task : Task) (ev : Event) (at : ℕ) (conn : Connection)
        (mobile : Bytes)
      → get_elem? w.system.pcs n ≡ some (running t)
      → w.system.pool.cells t ≡ some task
      → w.events task.ctx ≡ some ev
      → ev.args ≡ some at
      → ev.eid ≡ event_id get_mobile_code_req
      → ev.body ≡ mobile_code_req_ev (record { mobile = mobile })
      → w.sessions at ≡ some conn
      → 10 + pb.mobile_response.byte_size (code_response sql rand conf w.service.handlers) < 2 ^ 32
      → (v : Assembled (UserState W)) × (conn' : Connection) × (moves pf pb
            (user_handle sql rand conf)
            (Move.takes_turn n a ∷ Move.flushes ∷ [])
            w
          ≡ ok v)
        × (v.sessions at ≡ some conn')
        × IsReset conn.session conn'.session
        × (conn'.output
            ≡ conn.output
              ++ frame
                  (event_id get_mobile_code_rsp)
                  (pb.mobile_response.serialize (code_response sql rand conf w.service.handlers)))
        × (find_code mobile v.service.handlers.m2c
            ≡ some (code_response sql rand conf w.service.handlers).icode)
  main-code_answered args world i start w begun r n a t task ev at conn mobile =
      let (_, _, at_start, (only, _)) =
        main-IsStarted env sql userinfo bikeinfo calls args world i start begun in
      code-answered sql rand conf pf pb
        (subst (λ z. Reach pf pb (user_handle sql rand conf) z w) at_start r) calls.handler only n a
        t task ev at conn mobile
