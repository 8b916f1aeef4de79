-- ===== src/Ps/Schedule.antt =====
-- The invariant of the scheduler, and how its pieces keep it: a thread is put behind q the queue,
-- taken from its front, stopped or started.
use ntx_preview.Base.{
  ℕ, ◌≡◌, ◌≢◌, refl, sym, ap, ◌∙◌, true, false, Option, none, some, List, [], ◌∷◌, ◌++◌, arith,
  is_some, Option-cases, Bool-cases, inl, inr, ◌⊎◌,
}
use ntx_preview.Base.Chain.{contains, contains-append}
use ntx_preview.Ps.{Ps, link, popped, run, set_state}
use ntx_preview.Ps.Threads.{ThreadState, thread_ready, thread_running, Thread}
use ntx_preview.Ps.Queue.{
  IsRunQueue, IsRunQueue-keep, link-IsRunQueue, link-kept, popped-IsRunQueue,
}

abbrev pub state_of : Ps → ℕ → ThreadState
state_of ps t = (ps.thread_pool t).state

-- The run queue lists ready threads, each once; `c` is the one thread that is running, if any; and
-- these threads have a process.
pub record Sched (ps : Ps) (c : Option ℕ) (q : List ℕ) : Type 0 where
  pub run_queue : IsRunQueue ps q
  pub queued : (t : ℕ) → contains t q ≡ true → state_of ps t ≡ thread_ready
  pub is_on : (t : ℕ) → c ≡ some t → state_of ps t ≡ thread_running
  pub only : (t : ℕ) → state_of ps t ≡ thread_running → c ≡ some t
  pub owned :
      (t : ℕ)
      → (contains t q ≡ true) ⊎ (c ≡ some t)
      → is_some (ps.thread_pool t).owner_process ≡ true

pub link-state : (t : ℕ) (ps : Ps) (u : ℕ) → state_of (link t ps) u ≡ state_of ps u
link-state t ps u = ap (λ (r : Thread). r.state) (link-kept t ps u)

pub link-owner :
    (t : ℕ) (ps : Ps) (u : ℕ)
    → ((link t ps).thread_pool u).owner_process ≡ (ps.thread_pool u).owner_process
link-owner t ps u = ap (λ (r : Thread). r.owner_process) (link-kept t ps u)

pub link-current : (t : ℕ) (ps : Ps) → (link t ps).current_thread ≡ ps.current_thread
unfolding link
link-current t ps = elim (Option-cases ps.run_queue_tail) [
  | inl e ↦ ground arith
  | inr (l, e) ↦ ground arith
]

pub link-ready : (t : ℕ) (ps : Ps) → (link t ps).ready ≡ ps.ready
unfolding link
link-ready t ps = elim (Option-cases ps.run_queue_tail) [
  | inl e ↦ ground arith
  | inr (l, e) ↦ ground arith
]

-- What holds of the threads in a queue and of one more holds behind q the queue.
behind :
    (q : List ℕ) (t : ℕ) {P : ℕ → Type 0}
    → ((u : ℕ) → contains u q ≡ true → P u)
    → P t
    → (u : ℕ) → contains u (q ++ t ∷ []) ≡ true
    → P u
behind q t {P} h p u m = elim (Bool-cases (contains u q)) [
  | inl i ↦ h u i
  | inr i ↦ let e : t ≡ u = ground (arith, contains-append q t u) in rw⁻¹ e p
]

module _ {ps : Ps} {q : List ℕ} where
  pub link-Sched :
      {c : Option ℕ} (t : ℕ)
      → Sched ps c q
      → contains t q ≡ false
      → state_of ps t ≡ thread_ready
      → is_some (ps.thread_pool t).owner_process ≡ true
      → Sched (link t ps) c (q ++ t ∷ [])
  link-Sched t s f r o = record {
    run_queue = link-IsRunQueue t ps q f s.run_queue;
    queued = λ u m. link-state t ps u ∙ behind q t s.queued r u m;
    is_on = λ u e. link-state t ps u ∙ s.is_on u e;
    only = λ u e. s.only u (sym (link-state t ps u) ∙ e);
    owned = λ u m. ap is_some (link-owner t ps u) ∙ elim m [
      | inl i ↦
          behind q t {P = λ u. is_some (ps.thread_pool u).owner_process ≡ true}
            (λ v j. s.owned v (inl j)) o u i
      | inr k ↦ s.owned u (inr k)
    ];
  }

  -- A thread that is not queued is stopped, if it was running, and left in another state.
  pub stop-Sched :
      (p : ℕ) (state : ThreadState)
      → Sched ps (some p) q
      → state ≢ thread_running
      → Sched (set_state p state ps) none q
  stop-Sched p state s n = record {
    run_queue =
        IsRunQueue-keep ps (set_state p state ps) q refl refl (λ x. ground arith) s.run_queue;
    queued = λ u m. ground (arith, s.queued u m, s.is_on u);
    is_on = λ u e. cc;
    only = λ u e. ground (arith, s.only u);
    owned = λ u m. ground (arith, s.owned u);
  }

  -- A thread that is neither queued nor running is made ready.
  pub wake-Sched :
      {c : Option ℕ} (t : ℕ) → Sched ps c q → c ≢ some t → Sched (set_state t thread_ready ps) c q
  wake-Sched t s n = record {
    run_queue =
        IsRunQueue-keep ps (set_state t thread_ready ps) q refl refl (λ x. ground arith)
          s.run_queue;
    queued = λ u m. ground (arith, s.queued u m);
    is_on = λ u e. ground (arith, s.is_on u);
    only = λ u e. ground (arith, s.only u);
    owned = λ u m. ground (arith, s.owned u m);
  }

  pub popped-Sched : {c : Option ℕ} (t : ℕ) → Sched ps c (t ∷ q) → Sched (popped t ps) c q
  popped-Sched t s = record {
    run_queue = popped-IsRunQueue t ps q s.run_queue;
    queued = λ u m. ground (arith, s.queued u);
    is_on = λ u e. ground (arith, s.is_on u);
    only = λ u e. ground (arith, s.only u);
    owned = λ u m.
        let h = s.owned u (elim m [ inl i ↦ inl (ground arith) | inr k ↦ inr k ]) in
        ground (arith, h);
  }

  pub run-Sched :
      (n : ℕ)
      → Sched ps none q
      → contains n q ≡ false
      → is_some (ps.thread_pool n).owner_process ≡ true
      → Sched (run n ps) (some n) q
  run-Sched n s f o = record {
    run_queue = IsRunQueue-keep ps (run n ps) q refl refl (λ x. ground arith) s.run_queue;
    queued = λ u m. ground (arith, s.queued u);
    is_on = λ u e. ground arith;
    only = λ u e. ground (arith, s.only u);
    owned = λ u m. elim m [ inl i ↦ ground (arith, s.owned u (inl i)) | inr k ↦ ground (arith, o) ];
  }

-- The rest of the state does not matter.
pub Sched-keep :
    (ps ps' : Ps) {c : Option ℕ} {q : List ℕ}
    → ps'.run_queue_head ≡ ps.run_queue_head
    → ps'.run_queue_tail ≡ ps.run_queue_tail
    → ((t : ℕ) → (ps'.thread_pool t).run_queue_next ≡ (ps.thread_pool t).run_queue_next)
    → ((t : ℕ) → state_of ps' t ≡ state_of ps t)
    → ((t : ℕ) → (ps'.thread_pool t).owner_process ≡ (ps.thread_pool t).owner_process)
    → Sched ps c q
    → Sched ps' c q
Sched-keep ps ps' {q} h k n r o s = record {
  run_queue = IsRunQueue-keep ps ps' q h k n s.run_queue;
  queued = λ t m. r t ∙ s.queued t m;
  is_on = λ t e. r t ∙ s.is_on t e;
  only = λ t e. s.only t (sym (r t) ∙ e);
  owned = λ t m. ap is_some (o t) ∙ s.owned t m;
}
