-- ===== src/Nk/Refine.antt =====
-- A port behaves as the bounded FIFO of the messages that it holds.
use ntx_preview.Base.{
  ℕ, zero, suc, ◌+◌, ◌-◌, ◌%◌, ◌≤◌, ◌<◌, ◌≡◌, ◌≢◌, refl, ap, Option, none, List, [], ◌∷◌, ◌++◌,
  arith, update, length, Status,
}
use ntx_preview.Nk.{Message, Port, Core, queue_depth, reset, send, receive}
use ntx_preview.Nk.Queue.{Fifo, enqueue, dequeue}

-- The indices of a port agree with its count.
pub record IsValid (p : Port) : Type 0 where
  pub head_in : p.head < queue_depth
  pub count_in : p.count ≤ queue_depth
  pub tail_at : p.tail ≡ (p.head + p.count) % queue_depth

-- The `n` messages from index `h` on, going round at the depth of the queue.
unfoldable pub window : (ℕ → Message) → ℕ → ℕ → Fifo
window queue h zero = []
window queue h (suc n) = queue h ∷ window queue ((h + 1) % queue_depth) n

unfoldable pub contents : Port → Fifo
contents p = window p.queue p.head p.count

length-window : (queue : ℕ → Message) (h n : ℕ) → length (window queue h n) ≡ n
unfolding window
length-window queue h zero = refl
length-window queue h (suc n) = ap suc (length-window queue ((h + 1) % queue_depth) n)

pub length-contents : (p : Port) → length (contents p) ≡ p.count
unfolding contents
length-contents p = length-window p.queue p.head p.count

window_of_pos :
    (queue : ℕ → Message) (h n : ℕ)
    → n ≢ 0
    → window queue h n ≡ queue h ∷ window queue ((h + 1) % queue_depth) (n - 1)
unfolding window
window_of_pos queue h zero ne = absurd (ne refl)
window_of_pos queue h (suc n) ne = ground arith

-- A write just past a window extends it by the new message.
window-update :
    (queue : ℕ → Message) (m : Message) (n h i : ℕ)
    → h < queue_depth
    → n < queue_depth
    → i ≡ (h + n) % queue_depth
    → window (update queue i m) h (suc n) ≡ window queue h n ++ (m ∷ [])
unfolding window
window-update queue m zero h i hh hn e = ground arith
window-update queue m (suc n) h i hh hn e = ground (
  arith,
  window-update queue m n ((h + 1) % queue_depth) i (omega arith) (omega arith) (omega arith),
)

-- Initialisation makes a valid, empty port of any storage.
pub reset-IsValid : (p : Port) (c : Core) → IsValid (reset p c).0 × (contents (reset p c).0 ≡ [])
unfolding reset contents window
reset-IsValid p c = (omega arith, refl)

-- `NkPortSend` keeps the indices of a port in agreement.
pub send-IsValid : {p : Port} (m : Message) → IsValid p → IsValid (send p m).1
unfolding send
send-IsValid m v = ground arith

-- `NkPortReceive` keeps the indices of a port in agreement.
pub receive-IsValid : {p : Port} → IsValid p → IsValid (receive p).2
unfolding receive
receive-IsValid v = ground arith

-- `NkPortSend` on a valid port returns what the FIFO returns, and leaves the port holding the
-- FIFO's new contents, on each of its branches.
pub send-enqueue :
    {p : Port} (m : Message)
    → IsValid p
    → let (status, p') = send p m in (status, contents p') ≡ enqueue m (contents p)
unfolding send enqueue contents
send-enqueue {p} m v =
    ground
      (arith, length-window p.queue p.head p.count, window-update p.queue m p.count p.head p.tail)

-- `NkPortReceive` on a valid port returns the status and message of the FIFO, and leaves the port
-- holding the rest.
pub receive-dequeue :
    {p : Port}
    → IsValid p
    → let (status, got, p') = receive p in (status, got, contents p') ≡ dequeue (contents p)
unfolding receive dequeue contents window
receive-dequeue {p} v = ground (arith, window_of_pos p.queue p.head p.count)

-- A client's calls, and what it sees of each.
pub data Call : Type 0 where
  send_call : Message → Call
  receive_call : Call

unfoldable pub run_port : Port → List Call → List (Status × Option Message)
run_port p [] = []
run_port p (send_call m ∷ calls) = let (status, p') = send p m in (status, none) ∷ run_port p' calls
run_port p (receive_call ∷ calls) =
    let (status, got, p') = receive p in (status, got) ∷ run_port p' calls

pub run_fifo : Fifo → List Call → List (Status × Option Message)
run_fifo q [] = []
run_fifo q (send_call m ∷ calls) =
    let (status, q') = enqueue m q in (status, none) ∷ run_fifo q' calls
run_fifo q (receive_call ∷ calls) =
    let (status, got, q') = dequeue q in (status, got) ∷ run_fifo q' calls

-- No sequence of sends and receives tells a valid port from the bounded FIFO of its messages.
pub run_port-run_fifo :
    (calls : List Call) {p : Port} → IsValid p → run_port p calls ≡ run_fifo (contents p) calls
unfolding run_port run_fifo
run_port-run_fifo [] v = refl
run_port-run_fifo (send_call m ∷ calls) v =
    rw (run_port-run_fifo calls (send-IsValid m v), ← send-enqueue m v)
run_port-run_fifo (receive_call ∷ calls) v =
    rw (run_port-run_fifo calls (receive-IsValid v), ← receive-dequeue v)
