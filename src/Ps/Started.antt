-- ===== src/Ps/Started.antt =====
-- PsInitialize leaves the scheduler in its invariant.
use ntx_preview.Base.{
  ℕ, ◌≡◌, ◌≢◌, refl, sym, subst, true, false, not, Option, none, some, List, [], ◌∷◌, arith, inl,
  inr, ◌⊎◌, Bool-cases, Option-cases, update, Status, success, succeeded, invalid_parameter,
  already_initialized, is_some, first_index,
}
use ntx_preview.Ob.{Ob, create_object}
use ntx_preview.Ps.{Ps, Event, ready_thread, run_queue_push, link, set_state}
use ntx_preview.Ps.Threads.{thread_running, thread_ready, is_dead}
use ntx_preview.Ps.Schedule.{state_of}
use ntx_preview.Ps.Dispatch.{View}
use ntx_preview.Ps.Fair.{dispatch-rotate}
use ntx_preview.Ps.Calls.{made_ready}
use ntx_preview.Ps.Create.{
  create_process_internal, create_kernel_thread, make_thread, allocate_process_slot,
  allocate_thread_slot, max_threads, access_all, flag_waitable, kernel_thread_name, set_thread,
  new_thread,
}
use ntx_preview.Ps.Start.{
  cleared_ps, create_types, dispatch_first, ready_first, bootstrap, create_system_process,
  initialize_ps, Outcome, system_process_name, written_out,
}

-- No thread runs, and none waits to.
pub record Idle (ps : Ps) : Type 0 where
  pub head : ps.run_queue_head ≡ none
  pub tail : ps.run_queue_tail ≡ none
  pub current : ps.current_thread ≡ none
  pub quiet : (t : ℕ) → state_of ps t ≢ thread_running

-- PsInitialize has come back: with a failure, or in the invariant of the scheduler with one thread,
-- which is running.
abbrev pub Started : Outcome → Type 0
Started result =
    (status : Status) × (events : List Event) × (ob : Ob) × (ps : Ps) × (result
      ≡ some (status, events, ob, ps))
    × ((succeeded status ≡ false) ⊎ ((t : ℕ) × View ps (some t) []))

Idle-View : (ps : Ps) → Idle ps → ps.ready ≡ true → View ps none []
Idle-View ps i on = record {
  sched = record {
    run_queue = (i.head, i.tail, refl);
    queued = λ t m. absurd cc;
    is_on = λ t e. absurd cc;
    only = λ t e. absurd (i.quiet t e);
    owned = λ t m. elim m [ inl e ↦ absurd cc | inr e ↦ absurd cc ];
  };
  current = i.current;
  on = on;
}

dispatch_first-Started :
    (t : ℕ) (ob : Ob) (ps : Ps) → View ps none (t ∷ []) → Started (dispatch_first ob ps)
unfolding dispatch_first
dispatch_first-Started t ob ps v =
    let (status, events, ps', e, v') = dispatch-rotate ps none (t ∷ []) v in
    elim (Bool-cases (succeeded status)) [
      | inl s ↦ (status, events, ob, ps', ground (arith, e, s), inr (t, v'))
      | inr f ↦ (status, events, ob, record ps' { ready = false }, ground (arith, e, f), inl f)
    ]

ready_first-Started :
    (t : ℕ) (ob : Ob) (ps : Ps)
    → View ps none []
    → is_some (ps.thread_pool t).owner_process ≡ true
    → Started (ready_first (some t) ob ps)
unfolding ready_first ready_thread run_queue_push
ready_first-Started t ob ps v o = elim (Bool-cases (is_dead (state_of ps t))) [
  | inl d ↦ (invalid_parameter, [], ob, record ps { ready = false }, ground (arith, v.on), inl refl)
  | inr d ↦
      let ready = link t (set_state t thread_ready ps) in
      let (status, events, ob', ps', e, r) =
        dispatch_first-Started t ob ready (made_ready ps none [] t v refl (λ e. absurd cc) o) in
      (status, events, ob', ps', ground (arith, v.on, e), r)
]

-- What PsCreateKernelThread leaves with slot `t` and an object.
abbrev kernel_thread : ℕ → ℕ → ℕ → Option ℕ → ℕ → Ps → Ps
kernel_thread stack_pool thunk t object process ps =
    let taken = record ps { thread_in_use = update ps.thread_in_use t true } in
    set_thread stack_pool thunk t
      (record (new_thread stack_pool thunk t object process taken) {
        start_routine = none;
        start_context = 0;
        is_user_thread = false;
        user_entry = 0;
        user_stack_top = 0;
        user_arg0 = 0;
        user_arg1 = 0;
      })
      taken

-- A thread has been made, and the scheduler is idle as it was; or none has.
abbrev pub Made : Status × Option ℕ × Ob × Ps → Type 0
Made result =
    (succeeded result.0 ≡ false)
    ⊎ ((t : ℕ) × (ob : Ob) × (ps : Ps) × (result ≡ (success, some t, ob, ps))
        × View ps none []
        × (is_some (ps.thread_pool t).owner_process ≡ true))

create_kernel_thread-Made :
    (stack_pool thunk : ℕ) (process : Option ℕ) (ob : Ob) (ps : Ps)
    → Idle ps
    → ps.ready ≡ true
    → Made (create_kernel_thread stack_pool thunk process none 0 true ob ps)
unfolding create_kernel_thread make_thread allocate_thread_slot
create_kernel_thread-Made stack_pool thunk none ob ps i on = inl refl
create_kernel_thread-Made stack_pool thunk (some p) ob ps i on =
    elim (Option-cases (first_index (λ i. not (ps.thread_in_use i)) max_threads)) [
      | inl full ↦ inl (ground (arith, full, on))
      | inr (t, slot) ↦
          elim (Bool-cases (
            succeeded
              (create_object ps.thread_type (some kernel_thread_name) access_all flag_waitable true
                ob).0)) [
                  | inl made ↦
                      let (status, object, ob1) =
                        create_object ps.thread_type (some kernel_thread_name) access_all
                          flag_waitable true ob in
                      let after = kernel_thread stack_pool thunk t object p ps in
                      inr (
                        t,
                        ob1,
                        after,
                        ground (arith, slot, on, made),
                        Idle-View after
                            (record {
                              head = i.head;
                              tail = i.tail;
                              current = i.current;
                              quiet = λ u e. ground (arith, i.quiet u, e);
                            })
                            on,
                        ground arith,
                      )
                  | inr refused ↦ inl (ground (arith, slot, on, refused))
                ]
    ]

bootstrap-Started :
    (stack_pool thunk : ℕ) (root : ℕ → Status × Option ℕ) (ob : Ob) (ps : Ps)
    → Idle ps
    → Started (bootstrap stack_pool thunk root ob ps)
unfolding bootstrap
bootstrap-Started stack_pool thunk root ob ps i =
    let on = record ps { ready = true } in
    let idle : Idle on = record {
      head = i.head;
      tail = i.tail;
      current = i.current;
      quiet = i.quiet;
    } in
    let thread = create_kernel_thread stack_pool thunk ps.system_process none 0 true ob on in
    elim (create_kernel_thread-Made stack_pool thunk ps.system_process ob on idle refl) [
      | inl f ↦
          (thread.0, [], thread.2, record thread.3 { ready = false }, ground (arith, f), inl f)
      | inr (t, ob1, ps1, e, v, o) ↦ rw e (ready_first-Started t ob1 ps1 v o)
    ]

create_process_internal-Idle :
    (root : ℕ → Status × Option ℕ) (name : List ℕ) (ob : Ob) (ps : Ps)
    → Idle ps
    → Idle (create_process_internal root (some name) true ob ps).3
unfolding create_process_internal allocate_process_slot
create_process_internal-Idle root name ob ps i = record {
  head = ground (arith, i.head);
  tail = ground (arith, i.tail);
  current = ground (arith, i.current);
  quiet = λ t e. ground (arith, i.quiet t, e);
}

create_types-Idle : (ob : Ob) (ps : Ps) → Idle ps → Idle (create_types ob ps).2
unfolding create_types
create_types-Idle ob ps i = record {
  head = ground (arith, i.head);
  tail = ground (arith, i.tail);
  current = ground (arith, i.current);
  quiet = λ t e. ground (arith, i.quiet t, e);
}

create_system_process-Started :
    (stack_pool thunk : ℕ) (root : ℕ → Status × Option ℕ) (ob : Ob) (ps : Ps)
    → Idle ps
    → Started (create_system_process stack_pool thunk root ob ps)
unfolding create_system_process
create_system_process-Started stack_pool thunk root ob ps i =
    let made = create_process_internal root (some system_process_name) true ob ps in
    let idle = create_process_internal-Idle root system_process_name ob ps i in
    let named = record made.3 { system_process = written_out made.1 ps.system_process } in
    let idle' : Idle named = record {
      head = idle.head;
      tail = idle.tail;
      current = idle.current;
      quiet = idle.quiet;
    } in
    elim (Bool-cases (succeeded made.0)) [
      | inl s ↦ rw s (bootstrap-Started stack_pool thunk root made.2 named idle')
      | inr f ↦ (made.0, [], made.2, made.3, ground (arith, f), inl f)
    ]

-- While no thread is marked as running, PsInitialize comes back with no failed assertion; and if it
-- is a success, the scheduler is in its invariant, with one thread, which is running, and no other in
-- the run queue.
pub initialize_ps-Started :
    (stack_pool thunk : ℕ) (root : ℕ → Status × Option ℕ) (ob : Ob) (ps : Ps)
    → ((t : ℕ) → state_of ps t ≢ thread_running)
    → Started (initialize_ps stack_pool thunk root ob ps)
unfolding initialize_ps
initialize_ps-Started stack_pool thunk root ob ps quiet =
    let idle : Idle (cleared_ps ps) = record {
      head = refl;
      tail = refl;
      current = refl;
      quiet = quiet;
    } in
    let typed = create_types ob (cleared_ps ps) in
    let idle' = create_types-Idle ob (cleared_ps ps) idle in
    elim (Bool-cases ps.ready) [
      | inl on ↦ (already_initialized, [], ob, ps, ground (arith, on), inl refl)
      | inr off ↦ elim (Bool-cases (succeeded typed.0)) [
        | inl s ↦
            let same : initialize_ps stack_pool thunk root ob ps
                ≡ create_system_process stack_pool thunk root typed.1 typed.2 =
              ground (arith, off, s) in
            subst Started (sym same)
              (create_system_process-Started stack_pool thunk root typed.1 typed.2 idle')
        | inr f ↦ (typed.0, [], typed.1, typed.2, ground (arith, off, f), inl f)
      ]
    ]
