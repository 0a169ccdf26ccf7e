-- ===== src/Startup/Ends.antt =====
-- What `main` of src/main.cc ends in, up to its loop.
use shared_bike.Base.{
  Returns-ok, replicate, ap, ◌∙◌, ◌⊎◌, use_after_free, ℕ, ◌≡◌, refl, subst, Bool-cases, true, false,
  Option, Option-cases, none, some, inl, inr, List, [], ◌∷◌, Bytes, Outcome, Outcome-cases, ok,
  fault,
}
use shared_bike.ThreadPool.{looping}
use shared_bike.ThreadPool.Lifecycle.{
  thread_pool_init, InitEnds, thread_pool_init-InitEnds, FailsLate, Fair, thread_pool_init-Fair,
}
use shared_bike.Event.{event_id, get_mobile_code_req, login_req}
use shared_bike.Dispatch.Subscribers.{
  HandlerPtr, EventHandlersMap, find_handlers, store_handlers, subscribe,
}
use shared_bike.Dispatch.Open.{open_service}
use shared_bike.Database.{Mysql, new_connection, init, init_tables}
use shared_bike.Database.Connected.{init_tables-Returns, init-some}
use shared_bike.User.{UserState, subscribe_all}
use shared_bike.Assembled.{Assembled}
use shared_bike.Assembled.Safety.{assembled}
use shared_bike.Startup.{Environment}
use shared_bike.Startup.Config.{
  Config, read_config, getconfig, get_iniconfig, init_logger, loadfile,
}
use shared_bike.Startup.Listener.{Interface}
use shared_bike.Startup.Main.{
  new_service, new_query_processor, Ended, exited, without_pool, serving, Calls, connect_args,
  main_connected, main_configured, main,
}

-- The user's handler is the one handler of requests for a code and of logins.
abbrev pub OnlyUser : HandlerPtr → EventHandlersMap → Type 0
OnlyUser h m =
    (find_handlers (event_id get_mobile_code_req) m ≡ some (h ∷ []))
    × (find_handlers (event_id login_req) m ≡ some (h ∷ []))

subscribed-OnlyUser : (h : HandlerPtr) → OnlyUser h (subscribe_all h [])
unfolding subscribe_all subscribe find_handlers store_handlers
subscribed-OnlyUser h = (refl, refl)

-- A server that `main` leaves to its loop: the pool is the initial one, nothing has come in, no code
-- was sent, and the user's handler alone is subscribed.
abbrev pub IsStarted : {W : Type 0} → Calls → Assembled (UserState W) → Type 0
IsStarted {W} calls v =
    (w : W) × (m : EventHandlersMap) × (v
      ≡ assembled calls.cells calls.ids m (record { m2c = []; world = w }) 0)
    × OnlyUser calls.handler m

abbrev pub EndsWell : {W : Type 0} → Calls → Outcome (Ended W) → Type 0
EndsWell calls (ok (serving i v)) = IsStarted calls v
EndsWell calls (ok (exited n w)) = Unit {0}
EndsWell calls (ok (without_pool i s)) = Unit {0}
EndsWell calls (fault x) = Unit {0}

-- `main` returns, or some threads of its pool were started and the pool was freed.
abbrev pub EndsFair : {W : Type 0} → Calls → Outcome (Ended W) → Type 0
EndsFair calls (ok e) = Unit {0}
EndsFair calls (fault x) = (x ≡ use_after_free) × FailsLate calls.pool

module _ {D W : Type 0} (env : Environment D) (sql : Mysql W) (userinfo bikeinfo : Bytes)
    (calls : Calls) where
  connected-EndsWell :
      (c : Config) (mysql : Option ℕ) (w : W)
      → EndsWell calls (main_connected env sql userinfo bikeinfo calls c mysql w)
  unfolding main_connected open_service new_query_processor new_service
  connected-EndsWell c mysql w = elim (Outcome-cases (init_tables sql userinfo bikeinfo mysql w)) [
    | inr (x, e) ↦ rw (e, main_connected) tt
    | inl (r, e) ↦ elim (Outcome-cases (thread_pool_init calls.pool calls.cells calls.ids)) [
      | inr (x, e') ↦ rw (e, main_connected, open_service, e') tt
      | inl (tp, e') ↦ elim (Option-cases (tp.pool)) [
        | inl no_pool ↦ rw (e, main_connected, open_service, e', no_pool) tt
        | inr (p, has) ↦
            let initial =
              subst (InitEnds calls.cells calls.ids) e'
                (thread_pool_init-InitEnds calls.pool calls.cells calls.ids) in
            let (same, four) = initial p has in
            rw (e, main_connected, open_service, e', has)
              (
                r.1,
                subscribe_all calls.handler [],
                (λ k. record {
                  sessions = λ at. none;
                  system = record { pool = same k; pcs = replicate (four k) looping };
                  events = λ at. none;
                  service = record {
                    svr_exit = false;
                    subscribers = subscribe_all calls.handler [];
                    response_events = [];
                    handlers = record { m2c = []; world = r.1 };
                    sn = 0;
                  };
                }),
                subscribed-OnlyUser calls.handler,
              )
      ]
    ]
  ]

  configured-EndsWell :
      (c : Config) (w : W) → EndsWell calls (main_configured env sql userinfo bikeinfo calls c w)
  unfolding main_configured
  configured-EndsWell c w =
      let (mysql, w1) = new_connection sql w in
      let r = init sql (connect_args c) mysql w1 in
      elim (Bool-cases (r.0)) [
        | inl up ↦ rw (up, main_configured) (connected-EndsWell c r.1.0 r.1.1)
        | inr down ↦ rw (down, main_configured) tt
      ]

  pub main-EndsWell :
      (args : List Bytes) (w : W) → EndsWell calls (main env sql userinfo bikeinfo calls args w)
  unfolding main loadfile getconfig get_iniconfig
  main-EndsWell [] w = tt
  main-EndsWell (prog ∷ []) w = tt
  main-EndsWell (prog ∷ conf ∷ []) w = tt
  main-EndsWell (prog ∷ conf ∷ log ∷ rest) w = elim (Bool-cases (init_logger env log)) [
    | inr failed ↦ rw (failed, main) tt
    | inl logs ↦ elim (Option-cases (env.iniparser_load conf)) [
      | inl none_read ↦ rw (logs, main, loadfile, none_read) tt
      | inr (ini, read) ↦
          rw (logs, main, loadfile, read) (configured-EndsWell (read_config env ini) w)
    ]
  ]

  connected-Fair :
      (c : Config) (h : ℕ) (w : W)
      → calls.pool.calloc ≡ true
      → EndsFair calls (main_connected env sql userinfo bikeinfo calls c (some h) w)
  unfolding main_connected open_service
  connected-Fair c h w memory =
      let (r, e) =
        Returns-ok (init_tables sql userinfo bikeinfo (some h) w)
          (init_tables-Returns sql userinfo bikeinfo h w) in
      elim (Outcome-cases (thread_pool_init calls.pool calls.cells calls.ids)) [
        | inl (tp, e') ↦ rw (e, main_connected, open_service, e') tt
        | inr (x, e') ↦
            rw (e, main_connected, open_service, e')
              (subst (Fair calls.pool) e'
                (thread_pool_init-Fair calls.pool calls.cells calls.ids memory))
      ]

  configured-Fair :
      (c : Config) (w : W)
      → calls.pool.calloc ≡ true
      → EndsFair calls (main_configured env sql userinfo bikeinfo calls c w)
  unfolding main_configured
  configured-Fair c w memory =
      let (mysql, w1) = new_connection sql w in
      let r = init sql (connect_args c) mysql w1 in
      elim (Bool-cases (r.0)) [
        | inr down ↦ rw (down, main_configured) tt
        | inl up ↦
            let (h, has) = init-some sql (connect_args c) mysql w1 up in
            rw (up, main_configured, has) (connected-Fair c h r.1.1 memory)
      ]

  main-Fair :
      (args : List Bytes) (w : W)
      → calls.pool.calloc ≡ true
      → EndsFair calls (main env sql userinfo bikeinfo calls args w)
  unfolding main loadfile getconfig get_iniconfig
  main-Fair [] w memory = tt
  main-Fair (prog ∷ []) w memory = tt
  main-Fair (prog ∷ conf ∷ []) w memory = tt
  main-Fair (prog ∷ conf ∷ log ∷ rest) w memory = elim (Bool-cases (init_logger env log)) [
    | inr failed ↦ rw (failed, main) tt
    | inl logs ↦ elim (Option-cases (env.iniparser_load conf)) [
      | inl none_read ↦ rw (logs, main, loadfile, none_read) tt
      | inr (ini, read) ↦
          rw (logs, main, loadfile, read) (configured-Fair (read_config env ini) w memory)
    ]
  ]

  -- A server that `main` leaves to its loop is a started one.
  pub main-IsStarted :
      (args : List Bytes) (w : W) (i : Interface) (v : Assembled (UserState W))
      → main env sql userinfo bikeinfo calls args w ≡ ok (serving i v)
      → IsStarted calls v
  main-IsStarted args w i v e = subst (EndsWell calls) e (main-EndsWell args w)

  -- With memory for the pool, `main` returns or comes to its loop, on any arguments and whatever its
  -- calls return, or it uses the pool after it was freed, which it does only where `pthread_create`
  -- fails after it has started a thread. Where it comes to its loop with a pool, the pool is the one
  -- that `thread_pool_init` starts, with its threads at the head of their loops; there is no session,
  -- event or response yet, no code was sent, and the user's handler is the only one for requests for
  -- a code and for logins.
  pub main-ends :
      (args : List Bytes) (w : W)
      → calls.pool.calloc ≡ true
      → ((e : Ended W) × (main env sql userinfo bikeinfo calls args w ≡ ok e)
          × EndsWell calls (ok e))
        ⊎ ((main env sql userinfo bikeinfo calls args w ≡ fault use_after_free)
            × FailsLate calls.pool)
  main-ends args w memory = elim (Outcome-cases (main env sql userinfo bikeinfo calls args w)) [
    | inl (e, done) ↦ inl (e, done, subst (EndsWell calls) done (main-EndsWell args w))
    | inr (x, bad) ↦
        let (freed, late) = subst (EndsFair calls) bad (main-Fair args w memory) in
        inr (bad ∙ ap fault freed, late)
  ]
