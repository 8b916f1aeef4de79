-- ===== src/Lpc/Wakes.antt =====
-- LpcSendByHandle at a port with waiting threads: the message is put behind the others, and the
-- thread that has waited longest goes to the run queue.
use ntx_preview.Base.{
  ℕ, ◌<◌, ◌≤◌, ◌≡◌, refl, sym, ap, ◌∙◌, true, Option, some, List, [], ◌∷◌, ◌++◌, is_some,
  update_self, success, Status, arith,
}
use ntx_preview.Base.Chain.{Chain-keep}
use ntx_preview.Nk.{Message, Port, queue_depth, payload_bytes, send}
use ntx_preview.Nk.Queue.{Fifo, enqueue}
use ntx_preview.Nk.Refine.{IsValid, contents, send-enqueue}
use ntx_preview.Ps.{Ps, link, set_state, run_queue_push, wake_thread}
use ntx_preview.Ps.Threads.{Thread, thread_ready, is_blocked}
use ntx_preview.Ps.Queue.{link-kept}
use ntx_preview.Ps.Schedule.{Sched-keep, state_of}
use ntx_preview.Ps.Dispatch.{View}
use ntx_preview.Ps.Calls.{made_ready}
use ntx_preview.Lpc.{PortObject, Lpc, set_port, send_to_port, unwaited}
use ntx_preview.Lpc.Waiters.{Waiting, waits_next, unwaited-Waiting, dequeue_waiter-unwaited}

send-room :
    (p : Port) (m : Message)
    → IsValid p
    → m.length ≤ payload_bytes
    → p.count < queue_depth
    → ((send p m).0 ≡ success) × (contents (send p m).1 ≡ contents p ++ m ∷ [])
unfolding send enqueue
send-room p m v l r = ground (arith, send-enqueue m v)

-- The scheduler's part does not see who waits at a port.
unwaited-View :
    (t : ℕ) (p : PortObject) (ps : Ps) (c : Option ℕ) (r : List ℕ)
    → View ps c r
    → View (unwaited t p ps).1 c r
unwaited-View t p ps c r v = record {
  sched =
      Sched-keep ps (unwaited t p ps).1 refl refl (λ u. ground arith) (λ u. ground arith)
        (λ u. ground arith) v.sched;
  current = v.current;
  on = v.on;
}

-- Putting a thread into the run queue changes no queue of waiting threads.
link-waits_next : (t : ℕ) (ps : Ps) (u : ℕ) → waits_next (link t ps) u ≡ waits_next ps u
link-waits_next t ps u = ap (λ (x : Thread). x.wait_queue_next) (link-kept t ps u)

readied-waits_next :
    (t : ℕ) (ps : Ps) (u : ℕ)
    → waits_next (link t (set_state t thread_ready ps)) u ≡ waits_next ps u
readied-waits_next t ps u = link-waits_next t (set_state t thread_ready ps) u ∙ ground arith

wake_thread-blocked :
    (t : ℕ) (ps : Ps)
    → ps.ready ≡ true
    → is_blocked (state_of ps t) ≡ true
    → wake_thread (some t) ps ≡ some (link t (set_state t thread_ready ps))
unfolding wake_thread run_queue_push
wake_thread-blocked t ps on b = ground arith

-- The port, the threads and the scheduler after a message that wakes thread `t`.
abbrev after_send : ℕ → Message → Lpc → ℕ → Ps → PortObject × Ps
after_send i m lpc t ps =
    let holding = record (lpc.port_pool i) { port = (send (lpc.port_pool i).port m).1 } in
    let (p, ps1) = unwaited t holding ps in (p, link t (set_state t thread_ready ps1))

send_to_port-after_send :
    (i : ℕ) (m : Message) (lpc : Lpc) (ps : Ps) (t : ℕ)
    → (send (lpc.port_pool i).port m).0 ≡ success
    → (lpc.port_pool i).wait_head ≡ some t
    → ps.ready ≡ true
    → is_blocked (state_of ps t) ≡ true
    → let (p, ps') = after_send i m lpc t ps in
      send_to_port i m lpc ps ≡ some (success, set_port i p lpc, ps')
unfolding send_to_port
send_to_port-after_send i m lpc ps t sent head on b =
    let holding = record (lpc.port_pool i) { port = (send (lpc.port_pool i).port m).1 } in
    let d = dequeue_waiter-unwaited t holding ps head in
    rw (sent, d, wake_thread-blocked t (unwaited t holding ps).1 on (ground arith), d) refl

-- The call has sent the message, and behind it the run queue, the threads that wait at the port and
-- its messages are the lists.
abbrev pub Sent : Option (Status × Lpc × Ps) → ℕ → Option ℕ → List ℕ → List ℕ → Fifo → Type 0
Sent result i c r q messages =
    (lpc : Lpc) × (ps : Ps) × (result ≡ some (success, lpc, ps))
    × View ps c r
    × Waiting (lpc.port_pool i, ps) q
    × (contents (lpc.port_pool i).port ≡ messages)

-- A message that is no longer than a payload, to a valid port that has room for it and threads
-- waiting, is sent: it is put behind the other messages, the thread that has waited longest is put
-- behind the others in the run queue, which stays in the scheduler's invariant, and the other threads
-- go on waiting. The thread is blocked, and has a process.
pub send_to_port-wakes :
    (i : ℕ) (m : Message) (lpc : Lpc) (ps : Ps) (c : Option ℕ) (r : List ℕ) (t : ℕ) (q : List ℕ)
    → View ps c r
    → Waiting (lpc.port_pool i, ps) (t ∷ q)
    → is_blocked (state_of ps t) ≡ true
    → is_some (ps.thread_pool t).owner_process ≡ true
    → IsValid (lpc.port_pool i).port
    → m.length ≤ payload_bytes
    → (lpc.port_pool i).port.count < queue_depth
    → Sent (send_to_port i m lpc ps) i c (r ++ t ∷ []) q (contents (lpc.port_pool i).port ++ m ∷ [])
send_to_port-wakes i m lpc ps c r t q v w b o valid l room =
    let holding = record (lpc.port_pool i) { port = (send (lpc.port_pool i).port m).1 } in
    let (p, ps1) = unwaited t holding ps in
    let ps' = link t (set_state t thread_ready ps1) in
    let (sent, held) = send-room (lpc.port_pool i).port m valid l room in
    let (chain, end, apart) = unwaited-Waiting t holding ps q w in
    (
      set_port i p lpc,
      ps',
      send_to_port-after_send i m lpc ps t sent w.0.0 v.on b,
      made_ready ps1 c r t (unwaited-View t holding ps c r v) (ground (arith, v.sched.queued t))
          (λ e. absurd (cc (ap is_blocked (sym (v.sched.is_on t e)), b))) (ground arith),
      rw (update_self lpc.port_pool i p) (
        Chain-keep (waits_next ps1) (waits_next ps') p.wait_head q
            (λ u _. readied-waits_next t ps1 u) chain,
        end,
        apart,
      ),
      rw (update_self lpc.port_pool i p) held,
    )
