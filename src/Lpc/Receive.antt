-- ===== src/Lpc/Receive.antt =====
-- kernel/lpc/init.c: LpcReceiveByHandle. One round of its loop either returns or blocks the thread;
-- what the others do until the thread runs again is a parameter.
use ntx_preview.Base.{
  ℕ, zero, suc, Bool, not, ◌||◌, Option, none, some, List, [], if◌then◌else◌, ◌==◌, succeeded,
  Status, success, invalid_parameter, would_block,
}
use ntx_preview.Nk.{Message, receive}
use ntx_preview.Ob.{Ob, dereference}
use ntx_preview.Ps.{Ps, Event, block_current_thread}
use ntx_preview.Lpc.{
  Lpc, run_delete, set_port, enqueue_waiter, reference_port_by_handle, port_access_recv,
}

-- The states that the loop works on.
pub record Waiting : Type 0 where
  pub lpc : Lpc
  pub ob : Ob
  pub ps : Ps

-- A round has returned, or the thread has been blocked and goes round again when it runs.
pub data Round : Type 0 where
  returned : Status → Option Message → Waiting → Round
  blocked : Waiting → Round

-- `ObDereferenceObject(Header)`
abbrev pub give_up : ℕ → Waiting → Waiting
give_up o w =
    let (_, ob, lpc) = dereference run_delete (some o) w.ob w.lpc in
    record { lpc = lpc; ob = ob; ps = w.ps }

-- PsBlockCurrentThread, and the test of its status; none where an NK_ASSERT fails.
unfoldable pub block_round : Waiting → Option (List Event × Round)
block_round w = elim (block_current_thread w.ps) [
  | none ↦ none
  | some result ↦
      let w' = record w { ps = result.2 } in
      some (result.1, if succeeded result.0 then blocked w' else returned result.0 none w')
]

-- The round at the port in slot `i`, with the current thread.
unfoldable pub receive_at : ℕ → ℕ → ℕ → ℕ → Waiting → Option (List Event × Round)
unfolding block_round
receive_at current wait o i w =
    let (status, got, port) = receive (w.lpc.port_pool i).port in
    let taken = set_port i (record (w.lpc.port_pool i) { port = port }) w.lpc in
    let (p, ps) = enqueue_waiter current (w.lpc.port_pool i) w.ps in
    if succeeded status
    then some ([], returned success got (give_up o (record w { lpc = taken })))
    else if wait == 0
    then some ([], returned would_block none (give_up o w))
    else block_round (give_up o (record w { lpc = set_port i p w.lpc; ps = ps }))

-- One round of the loop of `LpcReceiveByHandle`.
unfoldable pub receive_round : ℕ → ℕ → ℕ → Waiting → Option (List Event × Round)
unfolding receive_at
receive_round current handle wait w =
    let (status, found, lpc, ob) = reference_port_by_handle handle port_access_recv w.lpc w.ob in
    let w' = record w { lpc = lpc; ob = ob } in
    elim found [
      | none ↦ some ([], returned status none w')
      | some at ↦ receive_at current wait at.0 at.1 w'
    ]

-- The loop, in at most `rounds` rounds; `resume` is what the other threads do from the time that the
-- thread blocks to the time that it runs again. The result is none where an NK_ASSERT fails, and
-- where the rounds are over.
unfoldable pub receive_rounds :
    (Waiting → Waiting) → ℕ → ℕ → ℕ → ℕ → Waiting → Option (Status × Option Message × Waiting)
unfolding receive_round
receive_rounds resume zero current handle wait w = none
receive_rounds resume (suc rounds) current handle wait w =
    elim (receive_round current handle wait w) [
      | none ↦ none
      | some step ↦ elim step.1 [
        | returned status got w' ↦ some (status, got, w')
        | blocked w' ↦ receive_rounds resume rounds current handle wait (resume w')
      ]
    ]

-- `LpcReceiveByHandle`; `out` is whether the result pointer is not NULL.
unfoldable pub receive_by_handle :
    (Waiting → Waiting) → ℕ → ℕ → Bool → ℕ → Waiting → Option (Status × Option Message × Waiting)
receive_by_handle resume rounds handle out wait w =
    if not w.lpc.ready || not out
    then some (invalid_parameter, none, w)
    else elim w.ps.current_thread [
      | none ↦ some (invalid_parameter, none, w)
      | some current ↦ receive_rounds resume rounds current handle wait w
    ]
