-- ===== src/Ps/Dispatch.antt =====
-- PsDispatch, PsYieldThread and the calls that give up the processor are a round robin on the run
-- queue, and no assertion of theirs fails.
use ntx_preview.Base.{
  ℕ, ◌≡◌, ◌≢◌, refl, ap, ◌∙◌, true, false, Option, none, some, List, [], ◌∷◌, ◌++◌, arith, is_some,
  Option-cases, Bool-cases, inl, inr, success, init_failed,
}
use ntx_preview.Base.Chain.{contains, contains-append}
use ntx_preview.Ps.{
  Ps, set_kernel_stack, activation, switching, link, popped, run, set_state, requeue,
  run_queue_push, dispatch,
}
use ntx_preview.Ps.Threads.{thread_ready, is_running, is_running-eq}
use ntx_preview.Ps.Queue.{run_queue_pop-some, run_queue_pop-none}
use ntx_preview.Ps.Schedule.{
  Sched, state_of, link-Sched, link-owner, link-ready, stop-Sched, popped-Sched, run-Sched,
}

-- Round robin: the first thread of the queue runs, and the one that ran goes to the end.
abbrev pub rotate : Option ℕ → List ℕ → Option ℕ × List ℕ
rotate c [] = (c, [])
rotate none (n ∷ q) = (some n, q)
rotate (some p) (n ∷ q) = (some n, q ++ p ∷ [])

-- The scheduler is online, with the thread `c` on the processor and the threads `q` waiting for it.
pub record View (ps : Ps) (c : Option ℕ) (q : List ℕ) : Type 0 where
  pub sched : Sched ps c q
  pub current : ps.current_thread ≡ c
  pub on : ps.ready ≡ true

requeue-none : (ps : Ps) (q : List ℕ) → Sched ps none q → requeue ps ≡ some ps
unfolding requeue
requeue-none ps q s = elim (Option-cases ps.current_thread) [
  | inl e ↦ ground arith
  | inr (p, e) ↦ elim (Bool-cases (is_running (state_of ps p))) [
    | inl r ↦ absurd (cc (s.only p (is_running-eq (state_of ps p) r)))
    | inr r ↦ ground arith
  ]
]

requeue-some :
    (ps : Ps) (q : List ℕ) (p : ℕ)
    → Sched ps (some p) q
    → ps.current_thread ≡ some p
    → requeue ps ≡ some (link p (set_state p thread_ready ps))
unfolding requeue run_queue_push
requeue-some ps q p s e = ground (arith, s.is_on p refl)

-- The state in which the new thread starts.
abbrev back : Option ℕ → Ps → Ps
back none ps = ps
back (some p) ps = link p (set_state p thread_ready ps)

requeue-back :
    (ps : Ps) (c : Option ℕ) (q : List ℕ)
    → Sched ps c q
    → ((p : ℕ) → c ≡ some p → ps.current_thread ≡ some p)
    → requeue ps ≡ some (back c ps)
requeue-back ps none q s e = requeue-none ps q s
requeue-back ps (some p) q s e = requeue-some ps q p s (e p refl)

queued-is_off :
    (ps : Ps) (c : Option ℕ) (q : List ℕ) (p : ℕ) → Sched ps c q → c ≡ some p → contains p q ≡ false
queued-is_off ps c q p s e = elim (Bool-cases (contains p q)) [
  | inl m ↦ absurd (cc (s.queued p m, s.is_on p e))
  | inr m ↦ m
]

back-Sched :
    (ps : Ps) (c : Option ℕ) (q : List ℕ) (n : ℕ)
    → Sched ps c q
    → state_of ps n ≡ thread_ready
    → contains n q ≡ false
    → is_some (ps.thread_pool n).owner_process ≡ true
    → Sched (run n (back c ps)) (some n) (rotate c (n ∷ q)).1
back-Sched ps none q n s r f o = run-Sched n s f o
back-Sched ps (some p) q n s r f o =
    let off = queued-is_off ps (some p) q p s refl in
    let ready_p = set_state p thread_ready ps in
    let ne : p ≢ n = λ e. absurd (cc (ap (state_of ps) e, r, s.is_on p refl)) in
    let owner = s.owned p (inr refl) in
    run-Sched n
      (link-Sched p (stop-Sched p thread_ready s (λ e. absurd (cc e))) off (ground arith)
        (ground (arith, owner)))
      (ground (arith, contains-append q p n))
      (ap is_some (link-owner p ready_p n) ∙ ground (arith, o))

back-ready : (c : Option ℕ) (ps : Ps) → (back c ps).ready ≡ ps.ready
back-ready none ps = refl
back-ready (some p) ps = link-ready p (set_state p thread_ready ps)

-- PsDispatch, where the thread `c` is running or none is, whatever the current thread.
pub dispatch-some :
    (ps : Ps) (c : Option ℕ) (n : ℕ) (q : List ℕ)
    → Sched ps c (n ∷ q)
    → ((p : ℕ) → c ≡ some p → ps.current_thread ≡ some p)
    → ps.ready ≡ true
    → let ps' = run n (back c (popped n ps)) in
      (dispatch ps
        ≡ some (
          success,
          set_kernel_stack ((back c (popped n ps)).thread_pool n).kernel_stack_top
                ∷ activation n (back c (popped n ps))
              ++ switching ps.current_thread n,
          ps',
        ))
      × View ps' (some n) (rotate c (n ∷ q)).1
unfolding dispatch
dispatch-some ps c n q v cur on =
    let s = popped-Sched n v in
    let first = run_queue_pop-some n ps v.run_queue.0.0 in
    let owner = v.owned n (inl (ground arith)) in
    let again = requeue-back (popped n ps) c q s cur in
    let owner' : is_some ((popped n ps).thread_pool n).owner_process ≡ true =
      ground (arith, owner) in
    (
      ground (arith, on, first, owner', again),
      record {
        sched =
            back-Sched (popped n ps) c q n s (ground (arith, v.queued n)) (ground arith)
              (ground (arith, owner));
        current = refl;
        on = back-ready c (popped n ps) ∙ on;
      },
    )

pub dispatch-idle :
    (ps : Ps) (c : Option ℕ) → View ps c [] → dispatch ps ≡ some (init_failed, [], ps)
unfolding dispatch
dispatch-idle ps c v = rw (run_queue_pop-none ps v.sched.run_queue.0) (ground (arith, v.on))
