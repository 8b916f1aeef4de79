-- ===== src/Lpc.antt =====
-- kernel/lpc/init.c and kernel/include/lpc.h: message ports behind handles. A port object is a port
-- of `Nk`, an object of `Ob` and a queue of threads of `Ps` that wait for a message. A call that
-- wakes a thread returns an `Option`, `none` where an NK_ASSERT of the scheduler fails.
pub mod Waiters
pub mod Receive
mod Wakes
mod Tests
use ntx_preview.Base.{
  ℕ, Bool, true, false, not, ◌&&◌, ◌||◌, Option, none, some, List, [], ◌∷◌, update, if◌then◌else◌,
  ◌==◌, ◌=?◌, is_some, succeeded, first_index, Status, success, init_failed, invalid_parameter,
  not_found, would_block,
}
use ntx_preview.Nk.{Message, Port, Core, send, receive, reset}
use ntx_preview.Ob.{
  Ob, Routine, delete_file, delete_section, delete_port, delete_process, delete_thread,
  create_object, insert_handle, reference_by_handle, dereference, close_handle, kernel_handle_table,
}
use ntx_preview.Ps.{Ps, wake_thread}

abbrev pub max_port_objects : ℕ
max_port_objects = 128

abbrev pub port_access_recv : ℕ
port_access_recv = 1

abbrev pub port_access_send : ℕ
port_access_send = 2

abbrev pub port_access_all : ℕ
port_access_all = 3

-- `LPC_PORT_OBJECT`
pub record PortObject : Type 0 where
  pub header : Option ℕ
  pub port : Port
  pub wait_head : Option ℕ
  pub wait_tail : Option ℕ

-- The globals of init.c, but for the system endpoint.
pub record Lpc : Type 0 where
  pub port_type : Option ℕ
  pub port_pool : ℕ → PortObject
  pub port_in_use : ℕ → Bool
  pub ready : Bool

abbrev pub set_port : ℕ → PortObject → Lpc → Lpc
set_port i p lpc = record lpc { port_pool = update lpc.port_pool i p }

-- `LpcpFindPortByHeader`
unfoldable pub find_port_by_header : ℕ → Lpc → Option ℕ
find_port_by_header header lpc =
    first_index (λ i. lpc.port_in_use i && (lpc.port_pool i).header =? some header) max_port_objects

-- A slot without object and waiters; its queue of messages stays.
abbrev pub vacant : PortObject → PortObject
vacant p = record p { header = none; wait_head = none; wait_tail = none }

-- `LpcpDeletePortObject`
unfoldable pub delete_port_object : ℕ → Lpc → Lpc
unfolding find_port_by_header
delete_port_object object lpc = elim (find_port_by_header object lpc) [
  | none ↦ lpc
  | some i ↦ record (set_port i (vacant (lpc.port_pool i)) lpc) {
    port_in_use = update lpc.port_in_use i false;
  }
]

-- The delete routines, as far as they touch this component.
unfoldable pub run_delete : Routine → ℕ → Lpc → Lpc
unfolding delete_port_object
run_delete delete_port object lpc = delete_port_object object lpc
run_delete delete_file object lpc = lpc
run_delete delete_section object lpc = lpc
run_delete delete_process object lpc = lpc
run_delete delete_thread object lpc = lpc

-- `LpcpAllocatePortSlot`
unfoldable pub allocate_port_slot : Lpc → Option ℕ × Lpc
allocate_port_slot lpc = elim (first_index (λ i. not (lpc.port_in_use i)) max_port_objects) [
  | none ↦ (none, lpc)
  | some i ↦ (
    some i,
    record (set_port i (vacant (lpc.port_pool i)) lpc) {
      port_in_use = update lpc.port_in_use i true;
    },
  )
]

abbrev pub set_wait_queue_next : ℕ → Option ℕ → Ps → Ps
set_wait_queue_next t next ps = record ps {
  thread_pool = update ps.thread_pool t (record (ps.thread_pool t) { wait_queue_next = next });
}

-- The two branches of `LpcpEnqueueWaiter`, at a tail that is NULL and at one that is not.
abbrev pub wait_behind : Option ℕ → ℕ → PortObject → Ps → PortObject × Ps
wait_behind none t p ps =
    (record p { wait_head = some t; wait_tail = some t }, set_wait_queue_next t none ps)
wait_behind (some l) t p ps = (
  record p { wait_tail = some t },
  set_wait_queue_next l (some t) (set_wait_queue_next t none ps),
)

-- `LpcpEnqueueWaiter`
unfoldable pub enqueue_waiter : ℕ → PortObject → Ps → PortObject × Ps
enqueue_waiter t p ps = wait_behind p.wait_tail t p ps

-- `LpcpDequeueWaiter` at a head that is not NULL.
abbrev pub unwaited : ℕ → PortObject → Ps → PortObject × Ps
unwaited t p ps =
    let next = (ps.thread_pool t).wait_queue_next in
    (
      record p { wait_head = next; wait_tail = if is_some next then p.wait_tail else none },
      set_wait_queue_next t none ps,
    )

-- `LpcpDequeueWaiter`
unfoldable pub dequeue_waiter : PortObject → Ps → Option ℕ × PortObject × Ps
dequeue_waiter p ps = elim p.wait_head [
  | none ↦ (none, p, ps)
  | some t ↦ let (p', ps') = unwaited t p ps in (some t, p', ps')
]

-- `LpcpReferencePortByHandle`: the object and the port's slot.
unfoldable pub reference_port_by_handle : ℕ → ℕ → Lpc → Ob → Status × Option (ℕ × ℕ) × Lpc × Ob
unfolding find_port_by_header
reference_port_by_handle handle desired lpc ob =
    if not (kernel_handle_table ob) || not (is_some lpc.port_type)
    then (invalid_parameter, none, lpc, ob)
    else (let (status, object, ob1) =
          reference_by_handle (kernel_handle_table ob) handle desired lpc.port_type true ob in
        elim object [
          | none ↦ (status, none, lpc, ob1)
          | some o ↦ elim (find_port_by_header o lpc) [
            | none ↦
                let (_, ob2, lpc') = dereference run_delete (some o) ob1 lpc in
                (not_found, none, lpc', ob2)
            | some i ↦ (success, some (o, i), lpc, ob1)
          ]
        ])

-- The text "lpc.port".
abbrev pub port_name : List ℕ
port_name = b'l' ∷ b'p' ∷ b'c' ∷ b'.' ∷ b'p' ∷ b'o' ∷ b'r' ∷ b't' ∷ []

-- `LpcCreatePortHandle`; NkPortInitialize cannot fail at the address of a field.
unfoldable pub create_port_handle : ℕ → Bool → Lpc → Ob → Core → Status × Option ℕ × Lpc × Ob × Core
unfolding allocate_port_slot
create_port_handle desired out lpc ob core =
    if not lpc.ready || not out
    then (invalid_parameter, none, lpc, ob, core)
    else (let (slot, lpc1) = allocate_port_slot lpc in
        elim slot [
          | none ↦ (init_failed, none, lpc1, ob, core)
          | some i ↦
              let (status, object, ob1) =
                create_object lpc.port_type (some port_name) port_access_all 1 true ob in
              elim object [
                | none ↦ (status, none, lpc1, ob1, core)
                | some o ↦
                    let (port, core') = reset (lpc1.port_pool i).port core in
                    let made =
                      set_port i (record (lpc1.port_pool i) { port = port; header = some o })
                        lpc1 in
                    let (inserted, handle, ob2) =
                      insert_handle (kernel_handle_table ob1) (some o) desired true ob1 in
                    let (_, ob3, lpc') = dereference run_delete (some o) ob2 made in
                    (inserted, handle, lpc', ob3, core')
              ]
        ])

-- `LpcSendByHandle` at the port in slot `i`, up to the message and the thread that it wakes.
unfoldable pub send_to_port : ℕ → Message → Lpc → Ps → Option (Status × Lpc × Ps)
send_to_port i message lpc ps =
    let (status, port) = send (lpc.port_pool i).port message in
    if not (succeeded status)
    then some (would_block, lpc, ps)
    else (let (waiter, p, ps1) = dequeue_waiter (record (lpc.port_pool i) { port = port }) ps in
        elim (wake_thread waiter ps1) [
          | none ↦ none
          | some ps2 ↦ some (success, set_port i p lpc, ps2)
        ])

-- `LpcSendByHandle`
unfoldable pub send_by_handle : ℕ → Option Message → Lpc → Ob → Ps → Option (Status × Lpc × Ob × Ps)
unfolding reference_port_by_handle send_to_port
send_by_handle handle none lpc ob ps = some (invalid_parameter, lpc, ob, ps)
send_by_handle handle (some message) lpc ob ps =
    if not lpc.ready
    then some (invalid_parameter, lpc, ob, ps)
    else (let (status, found, lpc1, ob1) =
          reference_port_by_handle handle port_access_send lpc ob in
        elim found [
          | none ↦ some (status, lpc1, ob1, ps)
          | some at ↦ elim (send_to_port at.1 message lpc1 ps) [
            | none ↦ none
            | some sent ↦
                let (_, ob2, lpc2) = dereference run_delete (some at.0) ob1 sent.1 in
                some (sent.0, lpc2, ob2, sent.2)
          ]
        ])

-- `LpcCloseHandle`
unfoldable pub close_port_handle : ℕ → Lpc → Ob → Status × Lpc × Ob
close_port_handle handle lpc ob =
    if not (kernel_handle_table ob) || handle == 0
    then (invalid_parameter, lpc, ob)
    else (let (status, ob', lpc') =
          close_handle run_delete (kernel_handle_table ob) handle ob lpc in
        (status, lpc', ob'))
