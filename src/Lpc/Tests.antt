-- ===== src/Lpc/Tests.antt =====
-- Runs of the message ports, and their theorems at a port with one waiting thread.
use ntx_preview.Base.{◌==◌, arith, refl, true, false, none, some, [], ◌∷◌}
use ntx_preview.Ps.{Ps}
use ntx_preview.Ps.Threads.{thread_blocked}
use ntx_preview.Nk.{Message}
use ntx_preview.Nk.Refine.{contents, window}
use ntx_preview.Ps.Dispatch.{View}
use ntx_preview.Lpc.{PortObject, Lpc, send_to_port}
use ntx_preview.Lpc.Wakes.{Sent, send_to_port-wakes}
use ntx_preview.Lpc.Waiters.{Waiting}

-- Threads of which none is linked to another.
abbrev unlinked_threads : Ps
unlinked_threads = record {
  process_type = none;
  thread_type = none;
  process_pool = λ p. record { object_header = none; process_id = 1; address_space_root = none };
  process_in_use = λ p. false;
  thread_pool = λ t. record {
    object_header = none;
    thread_id = t;
    owner_process = some 0;
    context = record {
      rbx = 0;
      rbp = 0;
      r12 = 0;
      r13 = 0;
      r14 = 0;
      r15 = 0;
      rsp = 0;
      rip = 0;
      rflags = 0;
    };
    state = thread_blocked;
    time_slice_ticks = 4;
    remaining_ticks = 4;
    run_queue_next = none;
    wait_queue_next = none;
    start_routine = none;
    start_context = 0;
    kernel_stack_top = 0;
    is_user_thread = false;
    user_entry = 0;
    user_stack_top = 0;
    user_arg0 = 0;
    user_arg1 = 0;
  };
  thread_in_use = λ t. false;
  next_process_id = 1;
  next_thread_id = 1;
  system_process = none;
  current_thread = none;
  run_queue_head = none;
  run_queue_tail = none;
  reschedule_pending = false;
  ready = true;
}

-- Thread 4 waits.
abbrev waited_for : PortObject
waited_for = record {
  header = some 0;
  port = record {
    queue = λ i. record { opcode = 0; length = 0; payload = [] };
    head = 0;
    tail = 0;
    count = 0;
  };
  wait_head = some 4;
  wait_tail = some 4;
}

waited_for-Waiting : Waiting (waited_for, unlinked_threads) (4 ∷ [])
waited_for-Waiting = ((refl, refl), refl, refl)

-- The only port.
abbrev one_port : Lpc
one_port = record {
  port_type = some 0;
  port_pool = λ i. waited_for;
  port_in_use = λ i. i == 0;
  ready = true;
}

abbrev hello : Message
hello = record { opcode = 7; length = 1; payload = 65 ∷ [] }

unlinked_threads-View : View unlinked_threads none []
unlinked_threads-View = record {
  sched = record {
    run_queue = (refl, refl, refl);
    queued = λ t m. ground arith;
    is_on = λ t e. ground arith;
    only = λ t e. ground arith;
    owned = λ t m. ground arith;
  };
  current = refl;
  on = refl;
}

-- The thread is woken, the port has the message, and no thread waits any more.
send_to_port-wakes_example :
    Sent (send_to_port 0 hello one_port unlinked_threads) 0 none (4 ∷ []) [] (hello ∷ [])
unfolding contents window
send_to_port-wakes_example =
    send_to_port-wakes 0 hello one_port unlinked_threads none [] 4 [] unlinked_threads-View
      waited_for-Waiting refl refl
      (record { head_in = omega arith; count_in = omega arith; tail_at = omega arith })
      (omega arith) (omega arith)
