-- ===== src/Ps/Guard.antt =====
-- What PsCreateUserThread lets into user mode.
use ntx_preview.Base.{
  ℕ, ◌-◌, ◌*◌, ◌/◌, ◌^◌, List, ◌<◌, ◌≡◌, ◌≢◌, ◌∙◌, sym, ap, true, Bool, Option, none, some, not,
  ◌||◌, ◌==◌, arith, Status, success, succeeded, bit_and, Bool-cases, Option-cases, inl, inr, leb,
  ltb, access_denied, invalid_parameter, init_failed, first_index, update, update_self,
}
use ntx_preview.Base.Bits.{complement, bit, bit_and-high}
use ntx_preview.Ps.Threads.{Thread}
use ntx_preview.Ob.{Ob, create_object}
use ntx_preview.Ps.{Ps}
use ntx_preview.Ps.StartPages.{UserPage, page-address, is_entry_page-bits, is_stack_page-bits}
use ntx_preview.Ps.Create.{
  create_user_thread, is_entry_page, is_stack_page, user_top, make_thread, new_thread, set_thread,
  allocate_thread_slot, max_threads, access_all, flag_waitable, user_thread_name,
}

-- A thread that is made stands in its slot with its fields.
make_thread-made :
    (stack_pool thunk : ℕ) (name : List ℕ) (process : ℕ) (fill : Thread → Thread) (ob ob' : Ob)
    (ps ps' : Ps) (thread : Option ℕ)
    → make_thread stack_pool thunk name process fill ob ps ≡ (success, thread, ob', ps')
    → (t : ℕ) × (object : Option ℕ) × (before : Ps) × (thread ≡ some t)
      × (ps'.thread_pool t ≡ fill (new_thread stack_pool thunk t object process before))
unfolding make_thread allocate_thread_slot
make_thread-made stack_pool thunk name process fill ob ob' ps ps' thread ran =
    let made = make_thread stack_pool thunk name process fill ob ps in
    elim (Option-cases (first_index (λ i. not (ps.thread_in_use i)) max_threads)) [
      | inl full ↦
          let failed : made.0 ≡ init_failed = ground (arith, full) in
          absurd (cc (failed, ap (λ r. r.0) ran))
      | inr (t, slot) ↦
          let taken = record ps { thread_in_use = update ps.thread_in_use t true } in
          let (status, object, ob1) =
            create_object ps.thread_type (some name) access_all flag_waitable true ob in
          elim (Bool-cases (succeeded status)) [
            | inl ok ↦
                let new = fill (new_thread stack_pool thunk t object process taken) in
                let whole : made ≡ (success, some t, ob1, set_thread stack_pool thunk t new taken) =
                  ground (arith, slot, ok) in
                let same = sym ran ∙ whole in
                (
                  t,
                  object,
                  taken,
                  ap (λ r. r.1) same,
                  ap (λ r. r.3.thread_pool t) same ∙ update_self taken.thread_pool t new,
                )
            | inr bad ↦
                let failed : made.0 ≡ status = ground (arith, slot, bad) in
                absurd (cc (ap succeeded (sym failed ∙ ap (λ r. r.0) ran), bad))
          ]
    ]

module _ (stack_pool thunk : ℕ) (query_pte : ℕ → ℕ → Status × ℕ)
    (process entry stack_top arg0 arg1 : ℕ) (out : Bool) (ob ob' : Ob) (ps ps' : Ps)
    (thread : Option ℕ) where
  -- A status that is not success is not the one that the call returned.
  refused :
      {P : Type 0} (status : Status)
      → (create_user_thread stack_pool thunk query_pte
          (some process)
          entry
          stack_top
          arg0
          arg1
          out
          ob
          ps).0
        ≡ status
      → success ≢ status
      → create_user_thread stack_pool thunk query_pte
          (some process)
          entry
          stack_top
          arg0
          arg1
          out
          ob
          ps
        ≡ (success, thread, ob', ps')
      → P
  refused status other ne ran = absurd (ne (sym (ap (λ r. r.0) ran) ∙ other))

  -- What PsCreateUserThread has made: a thread, and the pages that it may start on.
  abbrev pub UserThread : Type 0
  UserThread =
      (t : ℕ) × (root : ℕ) × (code : ℕ) × (stack : ℕ) × (thread ≡ some t)
      × ((ps'.thread_pool t).is_user_thread ≡ true)
      × ((ps'.thread_pool t).owner_process ≡ some process)
      × ((ps'.thread_pool t).user_entry ≡ entry)
      × ((ps'.thread_pool t).user_stack_top ≡ stack_top / 16 * 16)
      × ((ps.process_pool process).address_space_root ≡ some root)
      × (entry < 2 ^ 47)
      × (stack_top < 2 ^ 47)
      × UserPage (query_pte root (entry / 4096 * 4096)) code
      × (bit code 63 ≡ 0)
      × UserPage (query_pte root ((stack_top - 1) / 4096 * 4096)) stack
      × (bit stack 1 ≡ 1)

  -- The thread is made if all the tests are passed.
  allowed :
      (root : ℕ)
      → (ps.process_pool process).address_space_root ≡ some root
      → entry < user_top
      → stack_top < user_top
      → is_entry_page (query_pte root (bit_and entry (complement 64 4095))) ≡ true
      → is_stack_page (query_pte root (bit_and (stack_top - 1) (complement 64 4095))) ≡ true
      → make_thread stack_pool thunk user_thread_name process
          (λ thread. record thread {
            start_routine = none;
            start_context = 0;
            is_user_thread = true;
            user_entry = entry;
            user_stack_top = bit_and stack_top (complement 64 15);
            user_arg0 = arg0;
            user_arg1 = arg1;
          })
          ob
          ps
        ≡ (success, thread, ob', ps')
      → UserThread
  allowed root c below below' d e ran =
      let (t, object, before, at, made) =
        make_thread-made stack_pool thunk user_thread_name process _ ob ob' ps ps' thread ran in
      let (code, page, x) =
        is_entry_page-bits (query_pte root (bit_and entry (complement 64 4095))) d in
      let (stack, page', w) =
        is_stack_page-bits (query_pte root (bit_and (stack_top - 1) (complement 64 4095))) e in
      (
        t,
        root,
        code,
        stack,
        at,
        ap (λ (r : Thread). r.is_user_thread) made,
        ap (λ (r : Thread). r.owner_process) made,
        ap (λ (r : Thread). r.user_entry) made,
        ap (λ (r : Thread). r.user_stack_top) made ∙ bit_and-high 60 4 stack_top (omega arith),
        c,
        below,
        below',
        rw (page-address entry below) at page,
        x,
        rw (page-address (stack_top - 1) (omega arith)) at page',
        w,
      )

  -- A thread that PsCreateUserThread has made goes to user mode at the entry, in the process, and with
  -- the stack top rounded down to 16 bytes. Entry and stack top are in the lower half of the address
  -- space; and in the address space of the process the page of the entry is present, for the user and
  -- executable, and the page of the last byte below the stack top is present, for the user and
  -- writable.
  pub create_user_thread-mapped :
      create_user_thread stack_pool thunk query_pte
          (some process)
          entry
          stack_top
          arg0
          arg1
          out
          ob
          ps
        ≡ (success, thread, ob', ps')
      → UserThread
  unfolding create_user_thread
  create_user_thread-mapped ran =
      elim (Bool-cases (not ps.ready || not out || entry == 0 || ltb stack_top 16)) [
        | inl a ↦ refused invalid_parameter (ground (arith, a)) (λ e. absurd (cc e)) ran
        | inr a ↦ elim (Bool-cases (leb user_top entry || leb user_top stack_top)) [
          | inl b ↦ refused access_denied (ground (arith, a, b)) (λ e. absurd (cc e)) ran
          | inr b ↦ elim (Option-cases (ps.process_pool process).address_space_root) [
            | inl c ↦ refused invalid_parameter (ground (arith, a, b, c)) (λ e. absurd (cc e)) ran
            | inr (root, c) ↦
                elim (Bool-cases
                  (is_entry_page (query_pte root (bit_and entry (complement 64 4095))))) [
                    | inr d ↦
                        refused access_denied (ground (arith, a, b, c, d)) (λ e. absurd (cc e)) ran
                    | inl d ↦
                        elim (Bool-cases (
                          is_stack_page
                            (query_pte root (bit_and (stack_top - 1) (complement 64 4095))))) [
                              | inr e ↦
                                  refused access_denied (ground (arith, a, b, c, d, e))
                                    (λ e. absurd (cc e)) ran
                              | inl e ↦
                                  allowed root c (ground (arith, b)) (ground (arith, b)) d e
                                    (rw (a, b, c, d, e) at ran)
                            ]
                  ]
          ]
        ]
      ]
