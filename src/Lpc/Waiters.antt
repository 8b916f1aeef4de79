-- ===== src/Lpc/Waiters.antt =====
-- The threads that wait at a port are a queue: who waits first is woken first.
use ntx_preview.Base.{
  ℕ, ◌≡◌, refl, sym, subst, ◌∙◌, false, Option, none, some, List, [], ◌∷◌, ◌++◌, arith,
}
use ntx_preview.Base.Chain.{
  IsQueue, contains, last-cons, contains-last, contains-ne, push-empty, push-behind, pop-front,
}
use ntx_preview.Ps.{Ps}
use ntx_preview.Lpc.{PortObject, enqueue_waiter, wait_behind, dequeue_waiter, unwaited}

abbrev pub waits_next : Ps → ℕ → Option ℕ
waits_next ps t = (ps.thread_pool t).wait_queue_next

-- The threads of the list wait at the port, in order.
abbrev pub Waiting : PortObject × Ps → List ℕ → Type 0
Waiting s q = IsQueue (waits_next s.1) s.0.wait_head s.0.wait_tail q

-- A thread that does not wait at the port and is put there waits behind all others.
pub enqueue_waiter-Waiting :
    (t : ℕ) (p : PortObject) (ps : Ps) (q : List ℕ)
    → contains t q ≡ false
    → Waiting (p, ps) q
    → Waiting (enqueue_waiter t p ps) (q ++ t ∷ [])
unfolding enqueue_waiter
enqueue_waiter-Waiting t p ps [] f (e, k, d) =
    subst (λ o. Waiting (wait_behind o t p ps) (t ∷ [])) (sym k)
      (push-empty (waits_next (wait_behind none t p ps).1) t (ground arith))
enqueue_waiter-Waiting t p ps (x ∷ q) f (c, k, d) =
    let (l, e) = last-cons x q in
    let apart = contains-ne (x ∷ q) l t (contains-last (x ∷ q) l e) f in
    subst (λ o. Waiting (wait_behind o t p ps) ((x ∷ q) ++ t ∷ [])) (sym (k ∙ e))
      (push-behind (waits_next ps) (waits_next (wait_behind (some l) t p ps).1) p.wait_head
        p.wait_tail (x ∷ q) l t (k ∙ e) f (ground arith) (ground arith) (λ y m n. ground arith)
        (c, k, d))

pub dequeue_waiter-unwaited :
    (t : ℕ) (p : PortObject) (ps : Ps)
    → p.wait_head ≡ some t
    → dequeue_waiter p ps ≡ (some t, (unwaited t p ps).0, (unwaited t p ps).1)
unfolding dequeue_waiter
dequeue_waiter-unwaited t p ps e = ground arith

-- Without the first thread the others wait in their order.
pub unwaited-Waiting :
    (t : ℕ) (p : PortObject) (ps : Ps) (q : List ℕ)
    → Waiting (p, ps) (t ∷ q)
    → Waiting (unwaited t p ps) q
unwaited-Waiting t p ps q v =
    pop-front (waits_next ps) (waits_next (unwaited t p ps).1) p.wait_head p.wait_tail q t
      (λ x n. ground arith) v

-- The thread that has waited longest is the one that is taken out, and the others go on waiting.
pub dequeue_waiter-Waiting :
    (t : ℕ) (p : PortObject) (ps : Ps) (q : List ℕ)
    → Waiting (p, ps) (t ∷ q)
    → ((dequeue_waiter p ps).0 ≡ some t)
      × Waiting ((dequeue_waiter p ps).1, (dequeue_waiter p ps).2) q
dequeue_waiter-Waiting t p ps q v =
    rw (dequeue_waiter-unwaited t p ps v.0.0) (refl, unwaited-Waiting t p ps q v)
