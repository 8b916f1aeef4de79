-- ===== src/Ps/Queue.antt =====
-- PspRunQueuePush and PspRunQueuePop keep the run queue a list, linked through the threads.
use ntx_preview.Base.{
  ℕ, ◌≡◌, sym, subst, ◌∙◌, ap, false, Option, none, some, List, [], ◌∷◌, ◌++◌, arith, Option-cases,
  inl, inr,
}
use ntx_preview.Base.Chain.{
  IsQueue, Chain-keep, contains, contains-last, last-cons, contains-ne, push-empty, push-behind,
  pop-front,
}
use ntx_preview.Ps.{Ps, link, link_behind, run_queue_pop, popped}
use ntx_preview.Ps.Threads.{Thread}

abbrev pub next_of : Ps → ℕ → Option ℕ
next_of ps t = (ps.thread_pool t).run_queue_next

-- The run queue holds the threads of the list, in order.
abbrev pub IsRunQueue : Ps → List ℕ → Type 0
IsRunQueue ps q = IsQueue (next_of ps) ps.run_queue_head ps.run_queue_tail q

-- All of a thread but its link in the run queue.
abbrev pub unlinked : Thread → Thread
unlinked t = record t { run_queue_next = none }

link-at : (o : Option ℕ) (t : ℕ) (ps : Ps) → ps.run_queue_tail ≡ o → link t ps ≡ link_behind o t ps
unfolding link
link-at o t ps e = ap (λ o. link_behind o t ps) e

pub link-IsRunQueue :
    (t : ℕ) (ps : Ps) (q : List ℕ)
    → contains t q ≡ false
    → IsRunQueue ps q
    → IsRunQueue (link t ps) (q ++ t ∷ [])
link-IsRunQueue t ps [] f (e, k, d) =
    rw (link-at none t ps k) (push-empty (next_of (link_behind none t ps)) t (ground arith))
link-IsRunQueue t ps (x ∷ q) f (c, k, d) =
    let (l, e) = last-cons x q in
    let apart = contains-ne (x ∷ q) l t (contains-last (x ∷ q) l e) f in
    subst (λ p. IsRunQueue p ((x ∷ q) ++ t ∷ [])) (sym (link-at (some l) t ps (k ∙ e)))
      (push-behind (next_of ps) (next_of (link_behind (some l) t ps)) ps.run_queue_head
        ps.run_queue_tail (x ∷ q) l t (k ∙ e) f (ground arith) (ground arith)
        (λ y m n. ground arith) (c, k, d))

pub link-kept :
    (t : ℕ) (ps : Ps) (x : ℕ) → unlinked ((link t ps).thread_pool x) ≡ unlinked (ps.thread_pool x)
link-kept t ps x = elim (Option-cases ps.run_queue_tail) [
  | inl e ↦ rw (link-at none t ps e) (ground arith)
  | inr (l, e) ↦ rw (link-at (some l) t ps e) (ground arith)
]

pub run_queue_pop-some :
    (t : ℕ) (ps : Ps) → ps.run_queue_head ≡ some t → run_queue_pop ps ≡ (some t, popped t ps)
unfolding run_queue_pop
run_queue_pop-some t ps e = ground arith

pub run_queue_pop-none : (ps : Ps) → ps.run_queue_head ≡ none → run_queue_pop ps ≡ (none, ps)
unfolding run_queue_pop
run_queue_pop-none ps e = ground arith

pub popped-IsRunQueue :
    (t : ℕ) (ps : Ps) (q : List ℕ) → IsRunQueue ps (t ∷ q) → IsRunQueue (popped t ps) q
popped-IsRunQueue t ps q v =
    pop-front (next_of ps) (next_of (popped t ps)) ps.run_queue_head ps.run_queue_tail q t
      (λ x n. ground arith) v

pub popped-kept :
    (t : ℕ) (ps : Ps) (x : ℕ) → unlinked ((popped t ps).thread_pool x) ≡ unlinked (ps.thread_pool x)
popped-kept t ps x = ground arith

pub IsRunQueue-keep :
    (ps ps' : Ps) (q : List ℕ)
    → ps'.run_queue_head ≡ ps.run_queue_head
    → ps'.run_queue_tail ≡ ps.run_queue_tail
    → ((x : ℕ) → next_of ps' x ≡ next_of ps x)
    → IsRunQueue ps q
    → IsRunQueue ps' q
IsRunQueue-keep ps ps' q h k n (c, e, d) =
    (rw h (Chain-keep (next_of ps) (next_of ps') ps.run_queue_head q (λ x _. n x) c), k ∙ e, d)
