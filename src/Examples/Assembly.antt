-- ===== src/Examples/Assembly.antt =====
-- A run of the server with its pool: a client connects and asks for a code, and a thread takes the
-- task of its event.
use shared_bike.Base.{
  ℕ, ◌≡◌, ◌⊎◌, refl, arith, none, some, [], ◌∷◌, ◌++◌, codes, get_elem?, bytes_eq, write_chars,
  blit, Outcome, ok, fault, missing_return,
}
use shared_bike.Wire.{frame, load_u16, load_u32}
use shared_bike.Event.{
  new_event, new_mobile_code_req_ev, new_mobile_code_rsp_ev, generate_seg_no,
  get_reason_by_error_code, reason_loop, eer, serialized,
}
use shared_bike.Session.{session_init}
use shared_bike.Dispatch.Parse.{parse_event}
use shared_bike.Dispatch.Process.{process, process_loop}
use shared_bike.Dispatch.Subscribers.{find_handlers}
use shared_bike.User
use shared_bike.User.{UserState, store_code, code_gen, handle_mobile_code_req}
use shared_bike.Network.{
  Connection, listener_cb, handle_request, read_header, accept_header, handle_message, read_message,
  write_read_buf, accept_message,
}
use shared_bike.Network.Response.Flush.{IsReset}
use shared_bike.ThreadPool.{
  Cells, Task, CycleAnswers, running, svc, null, write, deref, store_last, thread_task_alloc,
  append_task, thread_task_post, take_task, pick_task, thread_pool_cycle, thread_mutex_lock,
  thread_mutex_unlock, thread_cond_signal,
}
use shared_bike.ThreadPool.System.{enqueue, fill_task}
use shared_bike.ThreadPool.System
use shared_bike.Server.{Server}
use shared_bike.Server.Safety.{started}
use shared_bike.Server.Safety
use shared_bike.Server.Codes.{user_handle}
use shared_bike.Assembled.{
  Assembled, Move, connects, arrives, takes_turn, flushes, post, run_task, move, moves,
}
use shared_bike.Assembled.Refines.{Implements}
use shared_bike.Assembled.Steps.{CanMove, Matches}
use shared_bike.Assembled.Safety.{
  assembled, Reach, here, next, Reach-Matches, assembled-no_fault, assembled-answered,
}
use shared_bike.Examples.{plain_platform, plain_protobuf}
use shared_bike.Examples.Users.{counting_sql, local_args, rand_five}
use shared_bike.Examples.Service.{or_fresh, handlers, question, answer, told, answer-IsReply}

abbrev pub no_cells : Cells
no_cells a = none

-- Two statements have been run.
abbrev pub beginner : UserState ℕ
beginner = record { m2c = []; world = 2 }

abbrev remembers : UserState ℕ
remembers = record told { world = 2 }

abbrev pub start : Assembled (UserState ℕ)
start = assembled no_cells 0 handlers beginner 0

abbrev pub or_start : Outcome (Assembled (UserState ℕ)) → Assembled (UserState ℕ)
or_start (ok w) = w
or_start (fault x) = start

abbrev pub next_state : Move → Assembled (UserState ℕ) → Assembled (UserState ℕ)
next_state m w =
    or_start
      (move plain_platform plain_protobuf (user_handle counting_sql rand_five local_args) m w)

abbrev pub connecting : Move
connecting = connects 9 7 8 (codes "1.2.3.4")

abbrev pub asking : Move
asking =
    arrives 9 (70 ∷ 66 ∷ 69 ∷ 66 ∷ 1 ∷ 0 ∷ 3 ∷ 0 ∷ 0 ∷ 0 ∷ 49 ∷ 56 ∷ 50 ∷ []) 100 64
      (record { lock = 0; signal = 0 })

abbrev pub no_error : CycleAnswers
no_error = record { lock = 0; wait = 0; unlock = 0 }

abbrev pub connected : Assembled (UserState ℕ)
connected = next_state connecting start

abbrev asked : Assembled (UserState ℕ)
asked = next_state asking connected

abbrev pub busy : Assembled (UserState ℕ)
busy = next_state (takes_turn 0 no_error) asked

abbrev pub Reached : Assembled (UserState ℕ) → Type 0
Reached = Reach plain_platform plain_protobuf (user_handle counting_sql rand_five local_args) start

connected-Reached : Reached connected
unfolding move listener_cb session_init write_chars blit
connected-Reached = next connecting here (refl, omega arith) refl

pub can_ask :
    CanMove plain_platform plain_protobuf
      (user_handle counting_sql rand_five local_args)
      asking
      connected
unfolding move listener_cb session_init write_chars blit
can_ask = (λ e. absurd (omega (arith, e)), refl, refl)

asked-Reached : Reached asked
unfolding move listener_cb session_init write_chars blit handle_request read_header accept_header
    handle_message read_message write_read_buf accept_message parse_event new_mobile_code_req_ev
    new_event generate_seg_no bytes_eq load_u16 load_u32 post System.step enqueue thread_task_alloc
    fill_task thread_task_post append_task deref store_last write thread_mutex_lock
    thread_cond_signal
asked-Reached = next asking connected-Reached can_ask refl

pub busy-Reached : Reached busy
unfolding move listener_cb session_init write_chars blit handle_request read_header accept_header
    handle_message read_message write_read_buf accept_message parse_event new_mobile_code_req_ev
    new_event generate_seg_no bytes_eq load_u16 load_u32 post System.step enqueue thread_task_alloc
    fill_task thread_task_post append_task deref store_last write thread_mutex_lock
    thread_cond_signal run_task thread_pool_cycle pick_task take_task thread_mutex_unlock
busy-Reached = next (takes_turn 0 no_error) asked-Reached (λ t task ev h. absurd (cc)) refl

abbrev pub asker : Connection
asker = or_fresh (busy.sessions 9)

abbrev pub job : Task
job = record { next = null; id = 0; ctx = 100; handler = svc }

-- What the first thread runs, on whose session, and what the handler answers.
pub busy_facts :
    (get_elem? busy.system.pcs 0 ≡ some (running 64))
    × (busy.system.pool.cells 64 ≡ some job)
    × (busy.events 100 ≡ some question)
    × (busy.sessions 9 ≡ some asker)
    × (process
          (user_handle counting_sql rand_five local_args)
          busy.service.subscribers
          (some question)
          (busy.service.handlers, busy.service.sn)
        ≡ ok (some answer, (remembers, 2)))
unfolding move listener_cb session_init write_chars blit handle_request read_header accept_header
    handle_message read_message write_read_buf accept_message parse_event new_mobile_code_req_ev
    new_event generate_seg_no bytes_eq load_u16 load_u32 post System.step enqueue thread_task_alloc
    fill_task thread_task_post append_task deref store_last write thread_mutex_lock
    thread_cond_signal run_task thread_pool_cycle pick_task take_task thread_mutex_unlock
    find_handlers process process_loop User.handle handle_mobile_code_req new_mobile_code_rsp_ev
    get_reason_by_error_code reason_loop eer store_code code_gen
busy_facts = (refl, refl, refl, refl, refl)

Reach-Matches_example :
    (s : Server (UserState ℕ)) × Safety.Reach plain_platform plain_protobuf
      (user_handle counting_sql rand_five local_args)
      (started handlers beginner 0)
      s
    × Implements asked s
    × Matches plain_platform plain_protobuf
        (user_handle counting_sql rand_five local_args)
        flushes
        asked
        s
Reach-Matches_example =
    Reach-Matches plain_platform plain_protobuf (user_handle counting_sql rand_five local_args)
      asked-Reached flushes tt

assembled-no_fault_example :
    ((v : Assembled (UserState ℕ)) × (move plain_platform plain_protobuf
          (user_handle counting_sql rand_five local_args)
          asking
          connected
        ≡ ok v))
    ⊎ (move plain_platform plain_protobuf
          (user_handle counting_sql rand_five local_args)
          asking
          connected
        ≡ fault missing_return)
assembled-no_fault_example =
    assembled-no_fault plain_platform plain_protobuf (user_handle counting_sql rand_five local_args)
      connected-Reached asking can_ask

assembled-answered_example :
    (v : Assembled (UserState ℕ)) × (conn' : Connection) × (moves plain_platform plain_protobuf
        (user_handle counting_sql rand_five local_args)
        (takes_turn 0 no_error ∷ flushes ∷ [])
        busy
      ≡ ok v)
    × (v.sessions 9 ≡ some conn')
    × IsReset asker.session conn'.session
    × (conn'.output ≡ asker.output ++ frame answer.eid (serialized plain_protobuf answer.body))
    × (conn'.input ≡ asker.input)
    × (v.service.handlers ≡ remembers)
assembled-answered_example =
    assembled-answered plain_platform plain_protobuf (user_handle counting_sql rand_five local_args)
      busy-Reached 0 no_error 64 job question answer 9 asker remembers 2 busy_facts.0 busy_facts.1
      busy_facts.2 refl busy_facts.3 busy_facts.4 answer-IsReply
