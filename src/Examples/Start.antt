-- ===== src/Examples/Start.antt =====
-- Runs of `main` and of its loop.
use shared_bike.Base.{
  blit, write_chars, ℕ, ◌+◌, ◌≡◌, ◌⊎◌, ◌<◌, ◌^◌, refl, arith, true, some, List, [], ◌∷◌, ◌++◌,
  Bytes, codes, bytes_eq, ok, fault, use_after_free, ◌==◌, if◌then◌else◌,
}
use shared_bike.Dispatch.Open.{open_service}
use shared_bike.Dispatch.Subscribers.{subscribe, find_handlers, store_handlers, contains}
use shared_bike.ThreadPool.Lifecycle.{
  thread_pool_queue_init, thread_pool_init_default, create_threads, InitAnswers, thread_pool_init,
  FailsLate,
}
use shared_bike.ThreadPool.{thread_mutex_create, thread_cond_create}
use shared_bike.Database.{new_connection, init, execute, create_table, init_tables}
use shared_bike.User.{UserState, subscribe_all}
use shared_bike.Server.Codes.{user_handle}
use shared_bike.Assembled.{Assembled}
use shared_bike.Startup.Listener.{Interface, new_interface}
use shared_bike.Startup.Listener
use shared_bike.Startup.Config.{read_config, getconfig, get_iniconfig, init_logger, loadfile}
use shared_bike.Startup.Main.{
  new_service, Calls, Ended, serving, connect_args, new_query_processor, main_connected,
  main_configured, main,
}
use shared_bike.Startup.Ends.{EndsWell, main-ends}
use shared_bike.Examples.{plain_platform, plain_protobuf}
use shared_bike.Examples.Users.{counting_sql, local_args, rand_five, two_files}
use shared_bike.Examples.Assembly.{
  no_cells, no_error, start, busy, busy-Reached, busy_facts, asker, job,
}
use shared_bike.Wire.{frame, load_u16, load_u32}
use shared_bike.Event.{
  new_event, new_mobile_code_req_ev, generate_seg_no, get_reason_by_error_code, reason_loop, eer,
}
use shared_bike.Session.{session_init}
use shared_bike.Dispatch.Parse.{parse_event}
use shared_bike.Dispatch.Subscribers.{find_handlers}
use shared_bike.User.{UserState}
use shared_bike.Network.{
  Connection, listener_cb, handle_request, read_header, accept_header, handle_message, read_message,
  write_read_buf, accept_message,
}
use shared_bike.Network.Response.Flush.{IsReset}
use shared_bike.ThreadPool.{
  write, deref, store_last, thread_task_alloc, append_task, thread_task_post, take_task, pick_task,
  thread_pool_cycle, thread_mutex_lock, thread_mutex_unlock, thread_cond_signal,
}
use shared_bike.ThreadPool.System.{enqueue, fill_task}
use shared_bike.ThreadPool.System
use shared_bike.Server.Codes.{user_handle}
use shared_bike.Assembled.{Assembled, takes_turn, flushes, post, run_task, move, moves}
use shared_bike.Startup.Codes.{main-code_answered}
use shared_bike.Event.{event_id, get_mobile_code_rsp}
use shared_bike.User.{find_code}
use shared_bike.Server.Codes.{code_response}
use shared_bike.Examples.Service.{question}

abbrev pool_starts : InitAnswers
pool_starts = record {
  calloc = true;
  mutex = record { attr_init = 0; attr_settype = 0; mutex_init = 0; attr_destroy = 0 };
  cond = 0;
  attr_init = 0;
  attr_detach = 0;
  create = λ n. 0;
}

abbrev calls : Calls
calls = record {
  unset_db_port = 0;
  unset_svr_port = 0;
  unset_svr_exit = true;
  handler = 6;
  queue_mutex = record { attr_init = 0; attr_settype = 0; mutex_init = 0; attr_destroy = 0 };
  pool = pool_starts;
  cells = no_cells;
  ids = 0;
  event_base_new = some 1;
  bind = λ port. some port;
}

abbrev args : List Bytes
args = codes "shared_bike" ∷ codes "a.ini" ∷ codes "log.conf" ∷ []

main-ends_example :
    ((e : Ended ℕ) × (main two_files counting_sql [] [] calls args 0 ≡ ok e)
      × EndsWell calls (ok e))
    ⊎ ((main two_files counting_sql [] [] calls args 0 ≡ fault use_after_free)
        × FailsLate calls.pool)
main-ends_example = main-ends two_files counting_sql [] [] calls args 0 refl

-- Where the third `pthread_create` fails, two threads run on a pool that is gone.
abbrev two_threads : Calls
two_threads = record calls { pool = record pool_starts { create = λ n. if n == 2 then 11 else 0 } }

freed_under_threads : main two_files counting_sql [] [] two_threads args 0 ≡ fault use_after_free
unfolding main main_configured main_connected loadfile read_config getconfig get_iniconfig
    init_logger new_connection init connect_args init_tables create_table execute open_service
    thread_pool_init thread_mutex_create thread_cond_create create_threads thread_pool_init_default
    thread_pool_queue_init new_query_processor subscribe_all subscribe find_handlers store_handlers
    contains new_service Listener.start new_interface bytes_eq
freed_under_threads = refl

abbrev listening : Interface
listening = record { base = some 1; listener = some 9090 }

begun : main two_files counting_sql [] [] calls args 0 ≡ ok (serving listening start)
unfolding main main_configured main_connected loadfile read_config getconfig get_iniconfig
    init_logger new_connection init connect_args init_tables create_table execute open_service
    thread_pool_init thread_mutex_create thread_cond_create create_threads thread_pool_init_default
    thread_pool_queue_init new_query_processor subscribe_all subscribe find_handlers store_handlers
    contains new_service Listener.start new_interface bytes_eq
begun = refl

code-small :
    10
      + plain_protobuf.mobile_response.byte_size
          (code_response counting_sql rand_five local_args busy.service.handlers)
    < 2 ^ 32
unfolding move listener_cb session_init write_chars blit handle_request read_header accept_header
    handle_message read_message write_read_buf accept_message parse_event new_mobile_code_req_ev
    new_event generate_seg_no bytes_eq load_u16 load_u32 post System.step enqueue thread_task_alloc
    fill_task thread_task_post append_task deref store_last write thread_mutex_lock
    thread_cond_signal run_task thread_pool_cycle pick_task take_task thread_mutex_unlock
    get_reason_by_error_code reason_loop eer
code-small = omega arith

main-code_answered_example :
    (v : Assembled (UserState ℕ)) × (conn' : Connection) × (moves plain_platform plain_protobuf
        (user_handle counting_sql rand_five local_args)
        (takes_turn 0 no_error ∷ flushes ∷ [])
        busy
      ≡ ok v)
    × (v.sessions 9 ≡ some conn')
    × IsReset asker.session conn'.session
    × (conn'.output
        ≡ asker.output
          ++ frame (event_id get_mobile_code_rsp) (
              plain_protobuf.mobile_response.serialize
                (code_response counting_sql rand_five local_args busy.service.handlers)))
    × (find_code (codes "182") v.service.handlers.m2c
        ≡ some (code_response counting_sql rand_five local_args busy.service.handlers).icode)
main-code_answered_example =
    main-code_answered two_files counting_sql [] [] calls rand_five local_args plain_platform
      plain_protobuf args 0 listening start busy begun busy-Reached 0 no_error 64 job question 9
      asker (codes "182") busy_facts.0 busy_facts.1 busy_facts.2 refl refl refl busy_facts.3
      code-small
