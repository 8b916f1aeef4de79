-- ===== src/Ps/Fair.antt =====
-- Yielding is a round robin, so that every thread that waits gets the processor; a thread that
-- blocks or exits is replaced.
use ntx_preview.Base.{
  ℕ, zero, suc, ◌≡◌, ◌≢◌, refl, ap, ◌∙◌, Bool, true, false, Option, none, some, List, [], ◌∷◌, ◌++◌,
  arith, inl, inr, success, Status, get_elem?, map, Option-cases,
}
use ntx_preview.Ps.{
  Ps, Event, set_kernel_stack, switch_context, switching, thread_returned, activation,
  activate_address_space, run, popped, set_state, dispatch, yield_thread,
}
use ntx_preview.Ps.Threads.{ThreadState, thread_dead}
use ntx_preview.Ps.Schedule.{Sched, Sched-keep, state_of, stop-Sched}
use ntx_preview.Ps.Dispatch.{View, rotate, dispatch-some, dispatch-idle}

-- A call of the scheduler came back, and left the state `View` of `c` and `q`.
abbrev pub Returned : Option (Status × List Event × Ps) → Option ℕ → List ℕ → Type 0
Returned result c q =
    (status : Status) × (events : List Event) × (ps : Ps) × (result ≡ some (status, events, ps))
    × View ps c q

pub dispatch-rotate :
    (ps : Ps) (c : Option ℕ) (q : List ℕ)
    → View ps c q
    → Returned (dispatch ps) (rotate c q).0 (rotate c q).1
dispatch-rotate ps c [] v = (_, _, _, dispatch-idle ps c v, v)
dispatch-rotate ps none (n ∷ q) v =
    let (e, v') = dispatch-some ps none n q v.sched (λ p e. cc) v.on in (_, _, _, e, v')
dispatch-rotate ps (some p) (n ∷ q) v =
    let (e, v') = dispatch-some ps (some p) n q v.sched (λ t e. v.current ∙ e) v.on in
    (_, _, _, e, v')

pub View-keep :
    (ps : Ps) (c : Option ℕ) (q : List ℕ) (b : Bool)
    → View ps c q
    → View (record ps { reschedule_pending = b }) c q
View-keep ps c q b v = record {
  sched =
      Sched-keep ps (record ps { reschedule_pending = b }) refl refl (λ t. refl) (λ t. refl)
        (λ t. refl) v.sched;
  current = v.current;
  on = v.on;
}

pub yield_thread-rotate :
    (ps : Ps) (c : ℕ) (q : List ℕ)
    → View ps (some c) q
    → Returned (yield_thread ps) (rotate (some c) q).0 (rotate (some c) q).1
unfolding yield_thread
yield_thread-rotate ps c q v =
    let (status, events, ps', e, v') =
      dispatch-rotate (record ps { reschedule_pending = false }) (some c) q
        (View-keep ps (some c) q false v) in
    (status, events, ps', ground (arith, v.current, v.on, v.sched.is_on c refl, e), v')

-- The state after a number of calls of PsYieldThread, as long as none of them halts the machine.
pub yields : ℕ → Ps → Option Ps
yields zero ps = some ps
yields (suc k) ps = elim (yield_thread ps) [ none ↦ none | some r ↦ yields k r.2 ]

pub rotates : ℕ → Option ℕ → List ℕ → Option ℕ × List ℕ
rotates zero c q = (c, q)
rotates (suc k) c q = rotates k (rotate c q).0 (rotate c q).1

-- Any number of yields is as many rounds of the round robin: none of them fails an assertion.
pub yields-rotates :
    (k : ℕ) (ps : Ps) (c : ℕ) (q : List ℕ)
    → View ps (some c) q
    → (ps' : Ps) × (yields k ps ≡ some ps')
      × View ps' (rotates k (some c) q).0 (rotates k (some c) q).1
unfolding yields rotates
yields-rotates zero ps c q v = (ps, refl, v)
yields-rotates (suc k) ps c [] v =
    let (status, events, ps1, e, v1) = yield_thread-rotate ps c [] v in
    let (ps2, e2, v2) = yields-rotates k ps1 c [] v1 in (ps2, ground (arith, e, e2), v2)
yields-rotates (suc k) ps c (n ∷ q) v =
    let (status, events, ps1, e, v1) = yield_thread-rotate ps c (n ∷ q) v in
    let (ps2, e2, v2) = yields-rotates k ps1 n (q ++ c ∷ []) v1 in (ps2, ground (arith, e, e2), v2)

get_elem?-append :
    (q : List ℕ) (x : List ℕ) (k t : ℕ) → get_elem? q k ≡ some t → get_elem? (q ++ x) k ≡ some t
get_elem?-append [] x k t e = cc
get_elem?-append (y ∷ q) x zero t e = e
get_elem?-append (y ∷ q) x (suc k) t e = get_elem?-append q x k t e

rotates-get :
    (k c t : ℕ) (q : List ℕ) → get_elem? q k ≡ some t → (rotates (suc k) (some c) q).0 ≡ some t
unfolding rotates
rotates-get k c t [] e = cc
rotates-get zero c t (n ∷ q) e = e
rotates-get (suc k) c t (n ∷ q) e =
    rotates-get k n t (q ++ c ∷ []) (get_elem?-append q (c ∷ []) k t e)

-- No thread starves: while a thread is running, the thread that has `k` others before it in the
-- run queue is the current thread after `k + 1` yields, none of which fails an assertion.
pub yields-get :
    (k : ℕ) (ps : Ps) (c t : ℕ) (q : List ℕ)
    → View ps (some c) q
    → get_elem? q k ≡ some t
    → (ps' : Ps) × (yields (suc k) ps ≡ some ps') × (ps'.current_thread ≡ some t)
yields-get k ps c t q v e =
    let (ps', ran, v') = yields-rotates (suc k) ps c q v in
    (ps', ran, v'.current ∙ rotates-get k c t q e)

activation-roots :
    (n : ℕ) (ps : Ps) → (roots : List ℕ) × (activation n ps ≡ map activate_address_space roots)
activation-roots n ps = elim (Option-cases (ps.thread_pool n).owner_process) [
  | inl e ↦ ([], ground arith)
  | inr (p, e) ↦ elim (Option-cases (ps.process_pool p).address_space_root) [
    | inl f ↦ ([], ground arith)
    | inr (r, f) ↦ (r ∷ [], ground arith)
  ]
]

-- In the scheduler's records the thread `c` is in a new state, and `n` is the current thread; what goes
-- to the processor is the stack and the address space of `n`, and then the switches of the context.
abbrev pub Replaced :
    Option (Status × List Event × Ps) → ℕ → ThreadState → ℕ → List ℕ → List Event → Type 0
Replaced result c state n q switches =
    (ps : Ps) × (top : ℕ) × (roots : List ℕ) × (result
      ≡ some (success, (set_kernel_stack top ∷ map activate_address_space roots) ++ switches, ps))
    × View ps (some n) q
    × (state_of ps c ≡ state)

replaced :
    (ps : Ps) (p n : ℕ) (q : List ℕ) (state : ThreadState) (switches : List Event)
    → Sched ps none (n ∷ q)
    → ps.ready ≡ true
    → state_of ps p ≡ state
    → p ≢ n
    → switching ps.current_thread n ≡ switches
    → Replaced (dispatch ps) p state n q switches
replaced ps p n q state switches s on of ne e =
    let (ran, v) = dispatch-some ps none n q s (λ p e. cc) on in
    let (roots, a) = activation-roots n (popped n ps) in
    let top = ((popped n ps).thread_pool n).kernel_stack_top in
    (run n (popped n ps), top, roots, ran ∙ rw (e, a) refl, v, ground (arith, of, ne))

-- The thread that is running is not the first of the queue.
apart : (ps : Ps) (c n : ℕ) (q : List ℕ) → View ps (some c) (n ∷ q) → c ≢ n
apart ps c n q v e =
    absurd (cc (ap (state_of ps) e, v.sched.is_on c refl, v.sched.queued n (ground arith)))

-- When a thread's start routine returns, it is recorded as dead and the first of the queue as the
-- running, current thread, and there is one switch from the dead thread's context to that thread's.
pub thread_returned-switch :
    (ps : Ps) (c n : ℕ) (q : List ℕ)
    → View ps (some c) (n ∷ q)
    → Replaced (thread_returned c ps) c thread_dead n q (switch_context c n ∷ [])
unfolding thread_returned
thread_returned-switch ps c n q v =
    let ne = apart ps c n q v in
    replaced (set_state c thread_dead ps) c n q thread_dead (switch_context c n ∷ [])
      (stop-Sched c thread_dead v.sched (λ e. absurd (cc e))) v.on (ground arith) ne
      (ground (arith, v.current, ne))
