-- ===== src/Ps/Start.antt =====
-- kernel/ps/init.c: PsInitialize. The lines of text are left out, and so is the registration of the
-- timer's routine, which is PsOnTimerTick.
use ntx_preview.Base.{
  ℕ, Bool, true, false, Option, none, some, List, [], ◌∷◌, if◌then◌else◌, succeeded, Status,
  success, already_initialized,
}
use ntx_preview.Ob.{Ob, create_type, delete_process, delete_thread}
use ntx_preview.Ps.{Ps, Event, ready_thread, dispatch}
use ntx_preview.Ps.Create.{create_process_internal, create_kernel_thread}

-- The texts "Process", "Thread" and "proc.system".
abbrev pub process_type_name : List ℕ
process_type_name = b'P' ∷ b'r' ∷ b'o' ∷ b'c' ∷ b'e' ∷ b's' ∷ b's' ∷ []

abbrev pub thread_type_name : List ℕ
thread_type_name = b'T' ∷ b'h' ∷ b'r' ∷ b'e' ∷ b'a' ∷ b'd' ∷ []

abbrev pub system_process_name : List ℕ
system_process_name =
    b'p' ∷ b'r' ∷ b'o' ∷ b'c' ∷ b'.' ∷ b's' ∷ b'y' ∷ b's' ∷ b't' ∷ b'e' ∷ b'm' ∷ []

-- The globals that PsInitialize resets.
abbrev pub cleared_ps : Ps → Ps
cleared_ps ps = record ps {
  process_in_use = λ p. false;
  thread_in_use = λ t. false;
  next_process_id = 1;
  next_thread_id = 1;
  run_queue_head = none;
  run_queue_tail = none;
  current_thread = none;
  reschedule_pending = false;
}

-- `Status != KSTATUS_SUCCESS && Status != KSTATUS_ALREADY_INITIALIZED`
abbrev pub is_type_refused : Status → Bool
is_type_refused success = false
is_type_refused already_initialized = false
is_type_refused _ = true

-- An out-pointer that is written only by a success.
abbrev pub written_out : Option ℕ → Option ℕ → Option ℕ
written_out none old = old
written_out (some new) old = some new

-- Both types; the status is that of the first that is refused.
unfoldable pub create_types : Ob → Ps → Status × Ob × Ps
create_types ob ps =
    let (status, process, ob1) =
      create_type (some process_type_name) (some delete_process) true ob in
    let ps1 = record ps { process_type = written_out process ps.process_type } in
    let (status', thread, ob2) =
      create_type (some thread_type_name) (some delete_thread) true ob1 in
    let ps2 = record ps1 { thread_type = written_out thread ps.thread_type } in
    if is_type_refused status
    then (status, ob1, ps1)
    else if is_type_refused status'
    then (status', ob2, ps2)
    else (success, ob2, ps2)

-- What PsInitialize has come to: its status, what goes to the processor, and the states; none where an
-- NK_ASSERT fails.
abbrev pub Outcome : Type 0
Outcome = Option (Status × List Event × Ob × Ps)

-- The dispatch of the bootstrap thread.
unfoldable pub dispatch_first : Ob → Ps → Outcome
dispatch_first ob ps = elim (dispatch ps) [
  | none ↦ none
  | some r ↦ some (r.0, r.1, ob, if succeeded r.0 then r.2 else record r.2 { ready = false })
]

-- The bootstrap thread is made ready.
unfoldable pub ready_first : Option ℕ → Ob → Ps → Outcome
ready_first thread ob ps = elim (ready_thread thread ps) [
  | none ↦ none
  | some r ↦
      let dispatched = dispatch_first ob r.1 in
      if succeeded r.0 then dispatched else some (r.0, [], ob, record r.1 { ready = false })
]

module _ (stack_pool thread_entry_thunk : ℕ) (create_address_space : ℕ → Status × Option ℕ) where
  -- The bootstrap thread is made, with the scheduler on.
  unfoldable pub bootstrap : Ob → Ps → Outcome
  bootstrap ob ps =
      let (status, thread, ob1, ps1) =
        create_kernel_thread stack_pool thread_entry_thunk ps.system_process none 0 true ob
          (record ps { ready = true }) in
      let readied = ready_first thread ob1 ps1 in
      if succeeded status then readied else some (status, [], ob1, record ps1 { ready = false })

  -- `PspCreateSystemProcess`, and what comes behind it.
  unfoldable pub create_system_process : Ob → Ps → Outcome
  create_system_process ob ps =
      let (status, process, ob1, ps1) =
        create_process_internal create_address_space (some system_process_name) true ob ps in
      let booted =
        bootstrap ob1 (record ps1 { system_process = written_out process ps.system_process }) in
      if succeeded status then booted else some (status, [], ob1, ps1)

  -- `PsInitialize`
  unfoldable pub initialize_ps : Ob → Ps → Outcome
  initialize_ps ob ps =
      let (status, ob1, ps1) = create_types ob (cleared_ps ps) in
      let made = create_system_process ob1 ps1 in
      if ps.ready
      then some (already_initialized, [], ob, ps)
      else if succeeded status
      then made
      else some (status, [], ob1, ps1)
