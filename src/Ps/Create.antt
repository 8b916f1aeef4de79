-- ===== src/Ps/Create.antt =====
-- kernel/ps/init.c: processes and threads are made from the slots of the pools and an object each.
-- The results of MmCreateAddressSpace and MmAsQueryPte, which belong to Mm, are arguments, and so
-- are the addresses of the stacks' array and of PspThreadEntryThunk.
use ntx_preview.Base.{
  ℕ, ◌+◌, ◌-◌, ◌*◌, ◌%◌, ◌^◌, Bool, true, false, not, ◌&&◌, ◌||◌, Option, none, some, List, [], ◌∷◌,
  update, bit_and, if◌then◌else◌, ◌==◌, ◌!=◌, leb, ltb, succeeded, first_index, Status, success,
  init_failed, invalid_parameter, access_denied,
}
use ntx_preview.Base.Bits.{complement}
use ntx_preview.Ob.{Ob, create_object}
use ntx_preview.Ps.{Ps}
use ntx_preview.Ps.Threads.{Thread, Process, Context, thread_ready}

abbrev pub max_processes : ℕ
max_processes = 32

abbrev pub max_threads : ℕ
max_threads = 128

abbrev pub default_timeslice_ticks : ℕ
default_timeslice_ticks = 4

abbrev pub access_all : ℕ
access_all = 2 ^ 32 - 1

abbrev pub flag_waitable : ℕ
flag_waitable = 1

abbrev pub user_top : ℕ
user_top = 2 ^ 47

abbrev pub stack_bytes : ℕ
stack_bytes = 16384

abbrev pub pte_present : ℕ
pte_present = 1

abbrev pub pte_writable : ℕ
pte_writable = 2

abbrev pub pte_user : ℕ
pte_user = 4

abbrev pub pte_nx : ℕ
pte_nx = 2 ^ 63

-- `PspAllocateProcessSlot` on a pointer that is not NULL.
unfoldable pub allocate_process_slot : Ps → Option ℕ × Ps
allocate_process_slot ps = elim (first_index (λ i. not (ps.process_in_use i)) max_processes) [
  | none ↦ (none, ps)
  | some i ↦ (some i, record ps { process_in_use = update ps.process_in_use i true })
]

-- `PspAllocateThreadSlot` on a pointer that is not NULL.
unfoldable pub allocate_thread_slot : Ps → Option ℕ × Ps
allocate_thread_slot ps = elim (first_index (λ i. not (ps.thread_in_use i)) max_threads) [
  | none ↦ (none, ps)
  | some i ↦ (some i, record ps { thread_in_use = update ps.thread_in_use i true })
]

-- The texts "proc.user", "thread.kernel" and "thread.user".
abbrev pub user_process_name : List ℕ
user_process_name = b'p' ∷ b'r' ∷ b'o' ∷ b'c' ∷ b'.' ∷ b'u' ∷ b's' ∷ b'e' ∷ b'r' ∷ []

abbrev pub kernel_thread_name : List ℕ
kernel_thread_name =
    b't' ∷ b'h' ∷ b'r' ∷ b'e' ∷ b'a' ∷ b'd' ∷ b'.' ∷ b'k' ∷ b'e' ∷ b'r' ∷ b'n' ∷ b'e' ∷ b'l' ∷ []

abbrev pub user_thread_name : List ℕ
user_thread_name = b't' ∷ b'h' ∷ b'r' ∷ b'e' ∷ b'a' ∷ b'd' ∷ b'.' ∷ b'u' ∷ b's' ∷ b'e' ∷ b'r' ∷ []

abbrev pub set_process : ℕ → Process → Ps → Ps
set_process p process ps = record ps { process_pool = update ps.process_pool p process }

-- `PspCreateProcessInternal`; `create_address_space` is what MmCreateAddressSpace does for a process.
unfoldable pub create_process_internal :
    (ℕ → Status × Option ℕ) → Option (List ℕ) → Bool → Ob → Ps → Status × Option ℕ × Ob × Ps
unfolding allocate_process_slot
create_process_internal create_address_space name out ob ps =
    if not out
    then (invalid_parameter, none, ob, ps)
    else (let (slot, ps1) = allocate_process_slot ps in
        elim slot [
          | none ↦ (init_failed, none, ob, ps1)
          | some p ↦
              let object_name : List ℕ = elim name [ none ↦ user_process_name | some n ↦ n ] in
              let (status, object, ob1) =
                create_object ps1.process_type (some object_name) access_all 0 true ob in
              if not (succeeded status)
              then (status, none, ob1, ps1)
              else (let named =
                    record (set_process p
                      (record (ps1.process_pool p) {
                        object_header = object;
                        process_id = ps1.next_process_id;
                      })
                      ps1) { next_process_id = (ps1.next_process_id + 1) % 2 ^ 64 } in
                  let (mapped, root) = create_address_space ps1.next_process_id in
                  if not (succeeded mapped) then (mapped, none, ob1, named) else (
                    success,
                    some p,
                    ob1,
                    set_process p (record (named.process_pool p) { address_space_root = root })
                        named,
                  ))
        ])

-- `PsCreateProcess`
unfoldable pub create_process :
    (ℕ → Status × Option ℕ) → Option (List ℕ) → Bool → Ob → Ps → Status × Option ℕ × Ob × Ps
unfolding create_process_internal
create_process create_address_space name out ob ps =
    if not ps.ready
    then (invalid_parameter, none, ob, ps)
    else create_process_internal create_address_space name out ob ps

-- `KiArchInitializeContext` on a context and an entry routine that are not NULL.
abbrev pub initialize_context : ℕ → ℕ → Context → Context
initialize_context stack_top entry context = if ltb stack_top 16 then context else record {
  rbx = 0;
  rbp = 0;
  r12 = 0;
  r13 = 0;
  r14 = 0;
  r15 = 0;
  rsp = bit_and stack_top (complement 64 15) - 8;
  rip = entry;
  rflags = 514;
}

-- What PsCreateUserThread asks of the page of the entry, and of the page of the stack.
abbrev pub is_entry_page : Status × ℕ → Bool
is_entry_page (status, pte) =
    succeeded status
    && bit_and pte pte_present != 0
    && bit_and pte pte_user != 0
    && bit_and pte pte_nx == 0

abbrev pub is_stack_page : Status × ℕ → Bool
is_stack_page (status, pte) =
    succeeded status
    && bit_and pte pte_present != 0
    && bit_and pte pte_user != 0
    && bit_and pte pte_writable != 0

module _ (stack_pool thread_entry_thunk : ℕ) where
  abbrev pub stack_top_of : ℕ → ℕ
  stack_top_of t = stack_pool + (t + 1) * stack_bytes

  -- What both kinds of thread are given, in slot `t`.
  abbrev pub new_thread : ℕ → Option ℕ → ℕ → Ps → Thread
  new_thread t object process ps = record (ps.thread_pool t) {
    object_header = object;
    thread_id = ps.next_thread_id;
    owner_process = some process;
    state = thread_ready;
    time_slice_ticks = default_timeslice_ticks;
    remaining_ticks = default_timeslice_ticks;
    run_queue_next = none;
    wait_queue_next = none;
    kernel_stack_top = stack_top_of t;
    context = initialize_context (stack_top_of t) thread_entry_thunk (ps.thread_pool t).context;
  }

  -- The thread is put into its slot, and its id is used up.
  abbrev pub set_thread : ℕ → Thread → Ps → Ps
  set_thread t thread ps = record ps {
    thread_pool = update ps.thread_pool t thread;
    next_thread_id = (ps.next_thread_id + 1) % 2 ^ 64;
  }

  -- The common end of PsCreateKernelThread and PsCreateUserThread: a slot, an object, the fields.
  unfoldable pub make_thread :
      List ℕ → ℕ → (Thread → Thread) → Ob → Ps → Status × Option ℕ × Ob × Ps
  unfolding allocate_thread_slot
  make_thread name process fill ob ps =
      let (slot, ps1) = allocate_thread_slot ps in
      elim slot [
        | none ↦ (init_failed, none, ob, ps1)
        | some t ↦
            let (status, object, ob1) =
              create_object ps1.thread_type (some name) access_all flag_waitable true ob in
            if not (succeeded status)
            then (status, none, ob1, ps1)
            else (success, some t, ob1, set_thread t (fill (new_thread t object process ps1)) ps1)
      ]

  -- `PsCreateKernelThread`
  unfoldable pub create_kernel_thread :
      Option ℕ → Option ℕ → ℕ → Bool → Ob → Ps → Status × Option ℕ × Ob × Ps
  unfolding make_thread
  create_kernel_thread none start_routine start_context out ob ps =
      (invalid_parameter, none, ob, ps)
  create_kernel_thread (some process) start_routine start_context out ob ps =
      if not ps.ready || not out
      then (invalid_parameter, none, ob, ps)
      else make_thread kernel_thread_name process
          (λ thread. record thread {
            start_routine = start_routine;
            start_context = start_context;
            is_user_thread = false;
            user_entry = 0;
            user_stack_top = 0;
            user_arg0 = 0;
            user_arg1 = 0;
          })
          ob ps

  -- `PsCreateUserThread`; `query_pte` is MmAsQueryPte.
  unfoldable pub create_user_thread :
      (ℕ → ℕ → Status × ℕ) → Option ℕ → ℕ → ℕ → ℕ → ℕ → Bool → Ob → Ps → Status × Option ℕ × Ob × Ps
  unfolding make_thread
  create_user_thread query_pte none entry stack_top arg0 arg1 out ob ps =
      (invalid_parameter, none, ob, ps)
  create_user_thread query_pte (some process) entry stack_top arg0 arg1 out ob ps =
      if not ps.ready || not out || entry == 0 || ltb stack_top 16
      then (invalid_parameter, none, ob, ps)
      else if leb user_top entry || leb user_top stack_top
      then (access_denied, none, ob, ps)
      else elim (ps.process_pool process).address_space_root [
        | none ↦ (invalid_parameter, none, ob, ps)
        | some root ↦
            if not (is_entry_page (query_pte root (bit_and entry (complement 64 4095))))
            then (access_denied, none, ob, ps)
            else if not
                (is_stack_page (query_pte root (bit_and (stack_top - 1) (complement 64 4095))))
            then (access_denied, none, ob, ps)
            else make_thread user_thread_name process
                (λ thread. record thread {
                  start_routine = none;
                  start_context = 0;
                  is_user_thread = true;
                  user_entry = entry;
                  user_stack_top = bit_and stack_top (complement 64 15);
                  user_arg0 = arg0;
                  user_arg1 = arg1;
                })
                ob ps
      ]
