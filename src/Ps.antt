-- ===== src/Ps.antt =====
-- kernel/ps/init.c and kernel/include/ps.h: processes, threads and the scheduler. Processes and
-- threads are fixed pools, and a pointer into a pool is its index. What the scheduler asks of the
-- processor and of the memory manager is a list of events. An operation that can fail an NK_ASSERT,
-- which halts the machine, returns an `Option`.
pub mod Threads
pub mod Create
mod StartPages
pub mod Guard
pub mod Start
mod Started
pub mod Queue
pub mod Schedule
pub mod Dispatch
pub mod Fair
pub mod Calls
pub mod Timer
pub mod Image
pub mod Headers
pub mod Load
pub mod Loaded
pub mod FileRead
pub mod Spawn
pub mod Relocated
pub mod Patched
pub mod ImageTests
mod LoadTests
mod Tests
use ntx_preview.Base.{
  ℕ, ◌+◌, ◌-◌, ◌*◌, ◌%◌, ◌^◌, Bool, true, false, not, ◌&&◌, ◌||◌, Option, none, some, List, [], ◌∷◌,
  ◌++◌, update, if◌then◌else◌, ◌==◌, ◌!=◌, ◌=?◌, ltb, is_some, Status, success, init_failed,
  invalid_parameter,
}
use ntx_preview.Ps.Threads.{
  ThreadState, thread_ready, thread_running, thread_blocked, thread_dead, is_running, is_blocked,
  is_dead, Thread, Process,
}

-- The globals of init.c. `stack_pool` is the address of the stacks' array.
pub record Ps : Type 0 where
  pub process_type : Option ℕ
  pub thread_type : Option ℕ
  pub process_pool : ℕ → Process
  pub process_in_use : ℕ → Bool
  pub thread_pool : ℕ → Thread
  pub thread_in_use : ℕ → Bool
  pub next_process_id : ℕ
  pub next_thread_id : ℕ
  pub system_process : Option ℕ
  pub current_thread : Option ℕ
  pub run_queue_head : Option ℕ
  pub run_queue_tail : Option ℕ
  pub reschedule_pending : Bool
  pub ready : Bool

-- HalSetKernelStackPointer, MmActivateAddressSpace and KiArchSwitchContext.
pub data Event : Type 0 where
  set_kernel_stack : ℕ → Event
  activate_address_space : ℕ → Event
  switch_context : ℕ → ℕ → Event

abbrev pub set_state : ℕ → ThreadState → Ps → Ps
set_state t state ps = record ps {
  thread_pool = update ps.thread_pool t (record (ps.thread_pool t) { state = state });
}

abbrev pub set_run_queue_next : ℕ → Option ℕ → Ps → Ps
set_run_queue_next t next ps = record ps {
  thread_pool = update ps.thread_pool t (record (ps.thread_pool t) { run_queue_next = next });
}

-- The two branches of `PspRunQueuePush`, at a tail that is NULL and at one that is not.
abbrev pub link_behind : Option ℕ → ℕ → Ps → Ps
link_behind none t ps = record (set_run_queue_next t none ps) {
  run_queue_head = some t;
  run_queue_tail = some t;
}
link_behind (some l) t ps = record (set_run_queue_next l (some t) (set_run_queue_next t none ps)) {
  run_queue_tail = some t;
}

-- `PspRunQueuePush` behind its assertions.
unfoldable pub link : ℕ → Ps → Ps
link t ps = link_behind ps.run_queue_tail t ps

-- `PspRunQueuePush`: a thread that is dead fails the assertion.
unfoldable pub run_queue_push : ℕ → Ps → Option Ps
unfolding link
run_queue_push t ps = if is_dead (ps.thread_pool t).state then none else some (link t ps)

-- `PspRunQueuePop` at a head that is not NULL.
abbrev pub popped : ℕ → Ps → Ps
popped t ps =
    let next = (ps.thread_pool t).run_queue_next in
    set_run_queue_next t none (record ps {
      run_queue_head = next;
      run_queue_tail = if is_some next then ps.run_queue_tail else none;
    })

-- `PspRunQueuePop`
unfoldable pub run_queue_pop : Ps → Option ℕ × Ps
run_queue_pop ps = elim ps.run_queue_head [ none ↦ (none, ps) | some t ↦ (some t, popped t ps) ]

-- `PsReadyThread`
unfoldable pub ready_thread : Option ℕ → Ps → Option (Status × Ps)
unfolding run_queue_push
ready_thread none ps = some (invalid_parameter, ps)
ready_thread (some t) ps =
    if not ps.ready || is_dead (ps.thread_pool t).state
    then some (invalid_parameter, ps)
    else elim (run_queue_push t (set_state t thread_ready ps)) [
      | none ↦ none
      | some ps' ↦ some (success, ps')
    ]

-- `PsDispatch` puts a thread that was running back into the queue.
unfoldable pub requeue : Ps → Option Ps
unfolding run_queue_push
requeue ps = elim ps.current_thread [
  | none ↦ some ps
  | some p ↦
      if is_running (ps.thread_pool p).state
      then run_queue_push p (set_state p thread_ready ps)
      else some ps
]

-- The thread is made the current one, with a full time slice.
abbrev pub run : ℕ → Ps → Ps
run n ps = record ps {
  thread_pool = update ps.thread_pool n (record (ps.thread_pool n) {
    state = thread_running;
    remaining_ticks = (ps.thread_pool n).time_slice_ticks;
  });
  current_thread = some n;
}

-- The address space of a thread's process.
abbrev pub activation : ℕ → Ps → List Event
activation n ps = elim (ps.thread_pool n).owner_process [
  | none ↦ []
  | some q ↦ elim (ps.process_pool q).address_space_root [
    | none ↦ []
    | some root ↦ activate_address_space root ∷ []
  ]
]

-- The context is switched if there was a current thread and it is another.
abbrev pub switching : Option ℕ → ℕ → List Event
switching none n = []
switching (some p) n = if p == n then [] else switch_context p n ∷ []

-- `PsDispatch`
unfoldable pub dispatch : Ps → Option (Status × List Event × Ps)
unfolding run_queue_pop requeue
dispatch ps =
    if not ps.ready
    then some (invalid_parameter, [], ps)
    else (let (next, rest) = run_queue_pop ps in
        elim next [
          | none ↦ some (init_failed, [], rest)
          | some n ↦
              if not (is_some (rest.thread_pool n).owner_process)
              then none
              else elim (requeue rest) [
                | none ↦ none
                | some queued ↦ some (
                  success,
                  set_kernel_stack (queued.thread_pool n).kernel_stack_top ∷ activation n queued
                      ++ switching ps.current_thread n,
                  run n queued,
                )
              ]
        ])

-- `PsYieldThread`: a current thread that is not running fails the assertion.
unfoldable pub yield_thread : Ps → Option (Status × List Event × Ps)
unfolding dispatch
yield_thread ps = elim ps.current_thread [
  | none ↦ some (invalid_parameter, [], ps)
  | some c ↦
      if not ps.ready
      then some (invalid_parameter, [], ps)
      else if not (is_running (ps.thread_pool c).state)
      then none
      else dispatch (record ps { reschedule_pending = false })
]

-- `PsExitCurrentThread` at `thread_dead` and `PsBlockCurrentThread` at `thread_blocked`.
unfoldable pub leave : ThreadState → Ps → Option (Status × List Event × Ps)
unfolding dispatch
leave state ps = elim ps.current_thread [
  | none ↦ some (invalid_parameter, [], ps)
  | some c ↦
      if not ps.ready
      then some (invalid_parameter, [], ps)
      else dispatch (record (set_state c state ps) { current_thread = none })
]

abbrev pub exit_current_thread : Ps → Option (Status × List Event × Ps)
exit_current_thread ps = leave thread_dead ps

abbrev pub block_current_thread : Ps → Option (Status × List Event × Ps)
block_current_thread ps = leave thread_blocked ps

-- The end of `PspThreadEntryThunk`'s loop, behind the start routine of the current thread.
unfoldable pub thread_returned : ℕ → Ps → Option (Status × List Event × Ps)
unfolding dispatch
thread_returned c ps = dispatch (set_state c thread_dead ps)

-- `PsWakeThread`
unfoldable pub wake_thread : Option ℕ → Ps → Option Ps
unfolding run_queue_push
wake_thread none ps = some ps
wake_thread (some t) ps =
    if ps.ready && is_blocked (ps.thread_pool t).state
    then run_queue_push t (set_state t thread_ready ps)
    else some ps

-- `PsOnTimerTick`
unfoldable pub on_timer_tick : Ps → Ps
on_timer_tick ps = elim ps.current_thread [
  | none ↦ ps
  | some c ↦
      if not ps.ready
      then ps
      else (let left = (ps.thread_pool c).remaining_ticks - 1 in
          record ps {
            thread_pool =
                update ps.thread_pool c (record (ps.thread_pool c) { remaining_ticks = left });
            reschedule_pending = left == 0 || ps.reschedule_pending;
          })
]

-- `PsHandlePreemptionPoint`
unfoldable pub handle_preemption_point : Ps → Option (List Event × Ps)
unfolding yield_thread
handle_preemption_point ps =
    if not ps.ready || not ps.reschedule_pending
    then some ([], ps)
    else elim (yield_thread ps) [ none ↦ none | some result ↦ some (result.1, result.2) ]

-- `PsGetCurrentProcess`
abbrev pub get_current_process : Ps → Option ℕ
get_current_process ps = elim ps.current_thread [
  | none ↦ none
  | some c ↦ (ps.thread_pool c).owner_process
]
