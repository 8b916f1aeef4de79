-- ===== src/Ps/Timer.antt =====
-- PsOnTimerTick: when a time slice is used up.
use ntx_preview.Base.{
  ℕ, zero, suc, ◌≡◌, Bool, true, false, some, ◌||◌, leb, ◌==◌, ◌-◌, ◌∙◌, arith, Bool-cases, inl,
  inr,
}
use ntx_preview.Ps.{Ps, on_timer_tick}

abbrev pub ticks : ℕ → Ps → Ps
ticks zero ps = ps
ticks (suc k) ps = ticks k (on_timer_tick ps)

-- The round that uses up a tick.
due_one-tick :
    (k r : ℕ) (b : Bool) → (r - 1 == 0 || b || leb (r - 1) (suc k)) ≡ (b || leb r (suc (suc k)))
due_one-tick k r true = elim (Bool-cases (r - 1 == 0)) [
  | inl e ↦ ground arith
  | inr e ↦ ground arith
]
due_one-tick k r false = ground arith

-- While the scheduler is online and has a current thread, after one tick or more of the timer a
-- new dispatch is due exactly if it was due before or the current thread had no more ticks left
-- than there were.
pub ticks-reschedule_pending :
    (k c : ℕ) (ps : Ps)
    → ps.current_thread ≡ some c
    → ps.ready ≡ true
    → (ticks (suc k) ps).reschedule_pending
      ≡ (ps.reschedule_pending || leb (ps.thread_pool c).remaining_ticks (suc k))
unfolding on_timer_tick
ticks-reschedule_pending zero c ps e r = ground (arith, e, r)
ticks-reschedule_pending (suc k) c ps e r =
    let at : (on_timer_tick ps).current_thread ≡ some c = ground (arith, e, r) in
    let on : (on_timer_tick ps).ready ≡ true = ground (arith, e, r) in
    let left : ((on_timer_tick ps).thread_pool c).remaining_ticks
        ≡ (ps.thread_pool c).remaining_ticks - 1 =
      ground (arith, e, r) in
    let due : (on_timer_tick ps).reschedule_pending
        ≡ ((ps.thread_pool c).remaining_ticks - 1 == 0 || ps.reschedule_pending) =
      ground (arith, e, r) in
    ticks-reschedule_pending k c (on_timer_tick ps) at on
    ∙ rw (left, due) (due_one-tick k (ps.thread_pool c).remaining_ticks ps.reschedule_pending)
