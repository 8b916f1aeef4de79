-- ===== src/Ps/Threads.antt =====
-- kernel/include/ps.h and the context of kernel/arch/aur64/aur64.h: a thread and a process.
use ntx_preview.Base.{ℕ, ◌≡◌, refl, Bool, true, false, Option}

-- `PS_THREAD_STATE`
pub data ThreadState : Type 0 where
  thread_ready thread_running thread_blocked thread_dead : ThreadState

abbrev pub is_running : ThreadState → Bool
is_running thread_running = true
is_running thread_ready = false
is_running thread_blocked = false
is_running thread_dead = false

abbrev pub is_blocked : ThreadState → Bool
is_blocked thread_blocked = true
is_blocked thread_ready = false
is_blocked thread_running = false
is_blocked thread_dead = false

abbrev pub is_dead : ThreadState → Bool
is_dead thread_dead = true
is_dead thread_ready = false
is_dead thread_running = false
is_dead thread_blocked = false

-- `AUR64_CONTEXT`
pub record Context : Type 0 where
  pub rbx : ℕ
  pub rbp : ℕ
  pub r12 : ℕ
  pub r13 : ℕ
  pub r14 : ℕ
  pub r15 : ℕ
  pub rsp : ℕ
  pub rip : ℕ
  pub rflags : ℕ

-- `KTHREAD`
pub record Thread : Type 0 where
  pub object_header : Option ℕ
  pub thread_id : ℕ
  pub owner_process : Option ℕ
  pub context : Context
  pub state : ThreadState
  pub time_slice_ticks : ℕ
  pub remaining_ticks : ℕ
  pub run_queue_next : Option ℕ
  pub wait_queue_next : Option ℕ
  pub start_routine : Option ℕ
  pub start_context : ℕ
  pub kernel_stack_top : ℕ
  pub is_user_thread : Bool
  pub user_entry : ℕ
  pub user_stack_top : ℕ
  pub user_arg0 : ℕ
  pub user_arg1 : ℕ

-- `KPROCESS`
pub record Process : Type 0 where
  pub object_header : Option ℕ
  pub process_id : ℕ
  pub address_space_root : Option ℕ

pub is_running-eq : (s : ThreadState) → is_running s ≡ true → s ≡ thread_running
is_running-eq thread_running e = refl
is_running-eq thread_ready e = cc
is_running-eq thread_blocked e = cc
is_running-eq thread_dead e = cc
