-- ===== src/Ps/Calls.antt =====
-- Every call of the scheduler keeps its invariant, and no assertion fails on the way.
use ntx_preview.Base.{
  ℕ, ◌≡◌, ◌≢◌, refl, sym, ap, ◌∙◌, true, false, Option, none, some, List, [], ◌∷◌, ◌++◌, arith,
  is_some, inl, inr, Bool-cases, Option-cases,
}
use ntx_preview.Base.Chain.{contains}
use ntx_preview.Ps.{
  Ps, link, set_state, run_queue_push, ready_thread, wake_thread, yield_thread, exit_current_thread,
  block_current_thread, leave, on_timer_tick, handle_preemption_point,
}
use ntx_preview.Ps.Threads.{
  ThreadState, thread_ready, thread_running, thread_blocked, thread_dead, is_blocked, is_dead,
}
use ntx_preview.Ps.Schedule.{
  Sched-keep, state_of, link-Sched, link-current, link-ready, stop-Sched, wake-Sched,
}
use ntx_preview.Ps.Dispatch.{View}
use ntx_preview.Ps.Fair.{dispatch-rotate, yield_thread-rotate}

pub data Call : Type 0 where
  readies : ℕ → Call
  wakes : ℕ → Call
  yields exits blocks ticks preempts : Call

-- The state that a call leaves, unless it halts the machine.
pub run_call : Call → Ps → Option Ps
unfolding ready_thread wake_thread yield_thread leave on_timer_tick handle_preemption_point
run_call (readies t) ps = elim (ready_thread (some t) ps) [ none ↦ none | some r ↦ some r.1 ]
run_call (wakes t) ps = wake_thread (some t) ps
run_call yields ps = elim (yield_thread ps) [ none ↦ none | some r ↦ some r.2 ]
run_call exits ps = elim (exit_current_thread ps) [ none ↦ none | some r ↦ some r.2 ]
run_call blocks ps = elim (block_current_thread ps) [ none ↦ none | some r ↦ some r.2 ]
run_call ticks ps = some (on_timer_tick ps)
run_call preempts ps = elim (handle_preemption_point ps) [ none ↦ none | some r ↦ some r.1 ]

-- What the callers see to: PsReadyThread is called on a thread that is not queued or current, and a
-- thread that is made ready has a process.
pub data Allowed (ps : Ps) (c : Option ℕ) (q : List ℕ) : Call → Type 0 where
  may_ready :
      (t : ℕ)
      → contains t q ≡ false
      → c ≢ some t
      → is_some (ps.thread_pool t).owner_process ≡ true
      → Allowed ps c q (readies t)
  may_wake : (t : ℕ) → is_some (ps.thread_pool t).owner_process ≡ true → Allowed ps c q (wakes t)
  may_yield : Allowed ps c q yields
  may_exit : Allowed ps c q exits
  may_block : Allowed ps c q blocks
  may_tick : Allowed ps c q ticks
  may_preempt : Allowed ps c q preempts

-- A call came back in a state of the invariant.
abbrev pub Kept : Option Ps → Type 0
Kept result = (ps : Ps) × (c : Option ℕ) × (q : List ℕ) × (result ≡ some ps) × View ps c q

pub made_ready :
    (ps : Ps) (c : Option ℕ) (q : List ℕ) (t : ℕ)
    → View ps c q
    → contains t q ≡ false
    → c ≢ some t
    → is_some (ps.thread_pool t).owner_process ≡ true
    → View (link t (set_state t thread_ready ps)) c (q ++ t ∷ [])
made_ready ps c q t v f n o = record {
  sched = link-Sched t (wake-Sched t v.sched n) f (ground arith) (ground (arith, o));
  current = link-current t (set_state t thread_ready ps) ∙ v.current;
  on = link-ready t (set_state t thread_ready ps) ∙ v.on;
}

readies-View :
    (ps : Ps) (c : Option ℕ) (q : List ℕ) (t : ℕ)
    → View ps c q
    → contains t q ≡ false
    → c ≢ some t
    → is_some (ps.thread_pool t).owner_process ≡ true
    → Kept (run_call (readies t) ps)
unfolding run_call ready_thread run_queue_push
readies-View ps c q t v f n o = elim (Bool-cases (is_dead (state_of ps t))) [
  | inl d ↦ (ps, c, q, ground (arith, v.on), v)
  | inr d ↦ (_, _, _, ground (arith, v.on), made_ready ps c q t v f n o)
]

wakes-View :
    (ps : Ps) (c : Option ℕ) (q : List ℕ) (t : ℕ)
    → View ps c q
    → is_some (ps.thread_pool t).owner_process ≡ true
    → Kept (run_call (wakes t) ps)
unfolding run_call wake_thread run_queue_push
wakes-View ps c q t v o = elim (Bool-cases (is_blocked (state_of ps t))) [
  | inl b ↦
      let off : contains t q ≡ false = ground (arith, v.sched.queued t) in
      let ne : c ≢ some t = λ e. absurd (cc (ap is_blocked (sym (v.sched.is_on t e)), b)) in
      (_, _, _, ground (arith, v.on), made_ready ps c q t v off ne o)
  | inr b ↦ (ps, c, q, ground (arith, v.on), v)
]

leave-View :
    (ps : Ps) (c : Option ℕ) (q : List ℕ) (state : ThreadState)
    → View ps c q
    → state ≢ thread_running
    → Kept (elim (leave state ps) [ none ↦ none | some r ↦ some r.2 ])
unfolding leave
leave-View ps none q state v n = (ps, none, q, ground (arith, v.current), v)
leave-View ps (some c) q state v n =
    let stopped = record (set_state c state ps) { current_thread = none } in
    let s =
      Sched-keep (set_state c state ps) stopped refl refl (λ t. refl) (λ t. refl) (λ t. refl)
        (stop-Sched c state v.sched n) in
    let (status, events, ps', e, v') =
      dispatch-rotate stopped none q (record { sched = s; current = refl; on = v.on }) in
    (ps', _, _, ground (arith, v.current, v.on, e), v')

yields-View : (ps : Ps) (c : Option ℕ) (q : List ℕ) → View ps c q → Kept (run_call yields ps)
unfolding run_call yield_thread
yields-View ps none q v = (ps, none, q, ground (arith, v.current), v)
yields-View ps (some c) q v =
    let (status, events, ps', e, v') = yield_thread-rotate ps c q v in
    (ps', _, _, ground (arith, e), v')

ticks-View : (ps : Ps) (c : Option ℕ) (q : List ℕ) → View ps c q → Kept (run_call ticks ps)
unfolding run_call on_timer_tick
ticks-View ps none q v = (ps, none, q, ground (arith, v.current), v)
ticks-View ps (some c) q v = (
  _,
  some c,
  q,
  refl,
  record {
    sched =
        Sched-keep ps (on_timer_tick ps) (ground (arith, v.current, v.on))
          (ground (arith, v.current, v.on)) (λ t. ground (arith, v.current, v.on))
          (λ t. ground (arith, v.current, v.on)) (λ t. ground (arith, v.current, v.on)) v.sched;
    current = ground (arith, v.current, v.on);
    on = ground (arith, v.current, v.on);
  },
)

preempts-View : (ps : Ps) (c : Option ℕ) (q : List ℕ) → View ps c q → Kept (run_call preempts ps)
unfolding run_call handle_preemption_point
preempts-View ps c q v = elim (Bool-cases ps.reschedule_pending) [
  | inl p ↦
      let (ps', c', q', e, v') = yields-View ps c q v in
      (
        ps',
        c',
        q',
        elim (Option-cases (yield_thread ps)) [
          | inl y ↦ ground (arith, e, y, v.on)
          | inr (r, y) ↦ ground (arith, e, y, v.on)
        ],
        v',
      )
  | inr p ↦ (ps, c, q, ground (arith, v.on), v)
]

-- From every state of the invariant each call that its callers may make comes back, with no failed
-- assertion, in a state of the invariant: the run queue lists ready threads once each, and at most
-- one thread, the current one, is running.
pub run_call-View :
    {ps : Ps} {c : Option ℕ} {q : List ℕ} {call : Call}
    → View ps c q
    → Allowed ps c q call
    → Kept (run_call call ps)
unfolding run_call
run_call-View v (may_ready t f n o) = readies-View _ _ _ t v f n o
run_call-View v (may_wake t o) = wakes-View _ _ _ t v o
run_call-View v may_yield = yields-View _ _ _ v
run_call-View v may_exit = leave-View _ _ _ thread_dead v (λ e. absurd (cc e))
run_call-View v may_block = leave-View _ _ _ thread_blocked v (λ e. absurd (cc e))
run_call-View v may_tick = ticks-View _ _ _ v
run_call-View v may_preempt = preempts-View _ _ _ v
