-- ===== src/Ps/Tests.antt =====
-- Runs of the scheduler, and its theorems at three threads.
use ntx_preview.Base.{
  ℕ, ◌≡◌, ◌==◌, refl, true, false, none, some, Option, [], ◌∷◌, arith, if◌then◌else◌,
}
use ntx_preview.Ps.{Ps, ready_thread, run_queue_push, link, dispatch, run_queue_pop, requeue}
use ntx_preview.Ps.Threads.{Thread, ThreadState, thread_ready, thread_running, thread_dead}
use ntx_preview.Ps.Dispatch.{View}
use ntx_preview.Ps.Fair.{yields, yields-get}
use ntx_preview.Ps.Calls.{run_call, run_call-View, Kept, readies, may_ready}
use ntx_preview.Base.{Status, success, first_index}
use ntx_preview.Base.Text.{copy_text}
use ntx_preview.Ob.{Ob, create_type, cleared_entry, create_object, copy_name}
use ntx_preview.Ps.Create.{
  create_user_thread, create_kernel_thread, create_process_internal, allocate_process_slot,
  make_thread, allocate_thread_slot,
}
use ntx_preview.Ps.Start.{
  Outcome, create_types, create_system_process, bootstrap, ready_first, dispatch_first,
  initialize_ps,
}
use ntx_preview.Ps.Started.{Started, initialize_ps-Started}
use ntx_preview.Ps.Guard.{UserThread, create_user_thread-mapped}

abbrev thread : ThreadState → Option ℕ → Thread
thread state next = record {
  object_header = none;
  thread_id = 0;
  owner_process = some 0;
  context = record {
    rbx = 0;
    rbp = 0;
    r12 = 0;
    r13 = 0;
    r14 = 0;
    r15 = 0;
    rsp = 0;
    rip = 0;
    rflags = 0;
  };
  state = state;
  time_slice_ticks = 4;
  remaining_ticks = 2;
  run_queue_next = next;
  wait_queue_next = none;
  start_routine = none;
  start_context = 0;
  kernel_stack_top = 16384;
  is_user_thread = false;
  user_entry = 0;
  user_stack_top = 0;
  user_arg0 = 0;
  user_arg1 = 0;
}

-- Thread 0 runs, threads 1 and 2 wait, in this order, and the others are dead.
abbrev three : Ps
three = record {
  process_type = none;
  thread_type = none;
  process_pool = λ p. record { object_header = none; process_id = 1; address_space_root = some 7 };
  process_in_use = λ p. true;
  thread_pool = λ t.
      if t == 0
      then thread thread_running none
      else if t == 1
      then thread thread_ready (some 2)
      else if t == 2
      then thread thread_ready none
      else if t == 3
      then thread thread_ready none
      else thread thread_dead none;
  thread_in_use = λ t. true;
  next_process_id = 1;
  next_thread_id = 1;
  system_process = some 0;
  current_thread = some 0;
  run_queue_head = some 1;
  run_queue_tail = some 2;
  reschedule_pending = false;
  ready = true;
}

three-View : View three (some 0) (1 ∷ 2 ∷ [])
three-View = record {
  sched = record {
    run_queue = ((refl, (refl, refl)), refl, refl);
    queued = λ t m. ground arith;
    is_on = λ t e. ground arith;
    only = λ t e. ground arith;
    owned = λ t m. ground arith;
  };
  current = refl;
  on = refl;
}

-- The second of the queue runs after two yields.
yields-get_example : (ps : Ps) × (yields 2 three ≡ some ps) × (ps.current_thread ≡ some 2)
yields-get_example = yields-get 1 three 0 2 (1 ∷ 2 ∷ []) three-View refl

run_call-View_example : Kept (run_call (readies 3) three)
run_call-View_example = run_call-View three-View (may_ready 3 refl (λ e. absurd (cc e)) refl)

-- No thread slot is in use, and process 0 has the address space 7.
abbrev fresh : Ps
fresh = record three { thread_in_use = λ t. false; thread_type = some 0 }

-- The object manager with no object.
abbrev no_objects : Ob
no_objects = record {
  type_pool = λ i. record { type_id = 0; name = λ k. 0; delete_routine = none };
  object_pool = λ i. record {
    object_id = 0;
    type = none;
    ref_count = 0;
    flags = 0;
    default_access_mask = 0;
    signaled = false;
    name = λ k. 0;
  };
  type_in_use = λ i. true;
  object_in_use = λ i. false;
  entries = λ i. cleared_entry;
  next_handle = 4;
  next_object_id = 1;
  ready = true;
}

abbrev mapped : ℕ → ℕ → Status × ℕ
mapped root address = (success, 7)

abbrev created : Status × Option ℕ × Ob × Ps
created = create_user_thread 0 5 mapped (some 0) 4096 8192 1 2 true no_objects fresh

created-success : created ≡ (success, some 0, created.2, created.3)
unfolding create_user_thread make_thread allocate_thread_slot create_object copy_name copy_text
    first_index
created-success = refl

create_user_thread-mapped_example :
    UserThread 0 5 mapped 0 4096 8192 1 2 true no_objects created.2 fresh created.3 (some 0)
create_user_thread-mapped_example =
    create_user_thread-mapped 0 5 mapped 0 4096 8192 1 2 true no_objects created.2 fresh created.3
      (some 0) created-success

-- Nothing has been started: no slot is in use, and no thread runs.
abbrev before_start : Ps
before_start = record three {
  thread_pool = λ t. thread thread_dead none;
  process_in_use = λ p. false;
  thread_in_use = λ t. false;
  system_process = none;
  current_thread = none;
  run_queue_head = none;
  run_queue_tail = none;
  ready = false;
}

abbrev no_types : Ob
no_types = record no_objects { type_in_use = λ i. false }

abbrev started : Outcome
started = initialize_ps 0 5 (λ id. (success, some 7)) no_types before_start

-- The start succeeds.
outcome : Outcome → Option (Status × Option ℕ)
outcome none = none
outcome (some (status, events, ob, ps)) = some (status, ps.current_thread)

started-outcome : outcome started ≡ some (success, some 0)
unfolding outcome initialize_ps create_types create_type create_system_process
    create_process_internal bootstrap create_kernel_thread make_thread allocate_thread_slot
    allocate_process_slot create_object copy_name copy_text first_index ready_first ready_thread
    run_queue_push link dispatch_first dispatch run_queue_pop requeue
started-outcome = refl

initialize_ps-Started_example : Started started
initialize_ps-Started_example =
    initialize_ps-Started 0 5 (λ id. (success, some 7)) no_types before_start (λ t e. cc)
