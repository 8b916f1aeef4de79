-- ===== src/Nk.antt =====
-- kernel/nk/core.c: the nucleus, its message ports and its service endpoints.
-- A pointer argument is an `Option`: `none` is NULL, `some x` holds what it points at, and a
-- function that writes through it returns the new contents. Where callers of the kernel pass the
-- address of a field, which is never NULL, they call the part behind the NULL test.
pub mod Queue
pub mod Refine
pub mod Name
mod Tests
use ntx_preview.Base.{
  ℕ, zero, suc, ◌+◌, ◌-◌, ◌%◌, ◌^◌, Bool, true, false, ◌||◌, Option, none, some, List, [], ◌∷◌, not,
  update, if◌then◌else◌, ◌==◌, ◌!=◌, ltb, leb, is_some, Status, success, invalid_parameter,
  init_failed, get_or, length,
}
use ntx_preview.Base.Text.{copy_text}
use ntx_preview.BootProto.{BootInfo, bootinfo_magic}

abbrev pub queue_depth : ℕ
queue_depth = 32

abbrev pub payload_bytes : ℕ
payload_bytes = 64

abbrev pub service_name_max : ℕ
service_name_max = 31

-- `NK_MESSAGE`; the payload is the 64 bytes of the array.
pub record Message : Type 0 where
  pub opcode : ℕ
  pub length : ℕ
  pub payload : List ℕ

-- `NK_PORT`
pub record Port : Type 0 where
  pub queue : ℕ → Message
  pub head : ℕ
  pub tail : ℕ
  pub count : ℕ

-- `NK_SERVICE_ENDPOINT`; the name is the array of 32 characters.
pub record ServiceEndpoint : Type 0 where
  pub name : ℕ → ℕ
  pub base_opcode : ℕ
  pub flags : ℕ
  pub port : Port

-- The globals of core.c.
pub record Core : Type 0 where
  pub boot_info : Option BootInfo
  pub port_count : ℕ
  pub service_endpoint_count : ℕ

-- `NkInitializeCore`
pub initialize_core : Option BootInfo → Core → Status × Core
initialize_core none c = (invalid_parameter, c)
initialize_core (some b) c =
    if b.magic != bootinfo_magic
    then (invalid_parameter, c)
    else (success, record { boot_info = some b; port_count = 0; service_endpoint_count = 0 })

-- `NkGetBootInfo`
abbrev pub get_boot_info : Core → Option BootInfo
get_boot_info c = c.boot_info

-- The loop of `NkPortInitialize`: opcode and length of each slot are cleared, the payload stays.
pub clear_slots : ℕ → ℕ → (ℕ → Message) → ℕ → Message
clear_slots zero index queue = queue
clear_slots (suc n) index queue =
    clear_slots n (index + 1) (update queue index (record (queue index) { opcode = 0; length = 0 }))

-- `NkPortInitialize` behind its NULL test; it cannot fail there.
unfoldable pub reset : Port → Core → Port × Core
unfolding clear_slots
reset p c = (
  record { queue = clear_slots queue_depth 0 p.queue; head = 0; tail = 0; count = 0 },
  record c { port_count = (c.port_count + 1) % 2 ^ 32 },
)

-- `NkPortInitialize`
unfoldable pub port_initialize : Option Port → Core → Status × Option Port × Core
unfolding reset
port_initialize none c = (invalid_parameter, none, c)
port_initialize (some p) c = let (p', c') = reset p c in (success, some p', c')

-- `NkPortSend` behind its NULL test.
unfoldable pub send : Port → Message → Status × Port
send p m =
    if ltb payload_bytes m.length
    then (invalid_parameter, p)
    else if leb queue_depth p.count
    then (init_failed, p)
    else (
      success,
      record p {
        queue = update p.queue p.tail m;
        tail = (p.tail + 1) % 2 ^ 32 % queue_depth;
        count = (p.count + 1) % 2 ^ 32;
      },
    )

-- `NkPortSend`
pub port_send : Option Port → Option Message → Status × Option Port
unfolding send
port_send none m = (invalid_parameter, none)
port_send (some p) none = (invalid_parameter, some p)
port_send (some p) (some m) = let (status, p') = send p m in (status, some p')

-- `NkPortReceive` behind its NULL test; the option is what goes to `*Message`.
unfoldable pub receive : Port → Status × Option Message × Port
receive p = if p.count == 0 then (init_failed, none, p) else (
  success,
  some (p.queue p.head),
  record p { head = (p.head + 1) % 2 ^ 32 % queue_depth; count = p.count - 1 },
)

-- `NkPortReceive`; `out` is whether `Message` is not NULL.
pub port_receive : Option Port → Bool → Status × Option Message × Option Port
unfolding receive
port_receive none out = (invalid_parameter, none, none)
port_receive (some p) false = (invalid_parameter, none, some p)
port_receive (some p) true = let (status, got, p') = receive p in (status, got, some p')

-- The name loop of `NkServiceEndpointInitialize`, which runs to index `NK_SERVICE_NAME_MAX`
-- included, and the NUL that it forces where it met none.
pub endpoint_name : List ℕ → (ℕ → ℕ) → ℕ → ℕ
endpoint_name text old =
    let (stopped, name) = copy_text (service_name_max + 1) 0 text old in
    if stopped then name else update name service_name_max 0

-- `NkServiceEndpointInitialize`; `name` is a C text of non-NUL characters. The port's
-- initialisation, given the address of a field, does not fail.
unfoldable pub service_endpoint_initialize :
    Option ServiceEndpoint → Option (List ℕ) → ℕ → ℕ → Core → Status × Option ServiceEndpoint × Core
unfolding endpoint_name reset
service_endpoint_initialize none name base flags c = (invalid_parameter, none, c)
service_endpoint_initialize (some e) none base flags c = (invalid_parameter, some e, c)
service_endpoint_initialize (some e) (some name) base flags c =
    if base == 0
    then (invalid_parameter, some e, c)
    else (let (port, c') = reset e.port c in
        (
          success,
          some (record {
            name = endpoint_name name e.name;
            base_opcode = base;
            flags = flags;
            port = port;
          }),
          record c' { service_endpoint_count = (c'.service_endpoint_count + 1) % 2 ^ 32 },
        ))

-- `NkServiceSend`
pub service_send : Option ServiceEndpoint → Option Message → Status × Option ServiceEndpoint
unfolding send
service_send none m = (invalid_parameter, none)
service_send (some e) none = (invalid_parameter, some e)
service_send (some e) (some m) =
    let (status, port) = send e.port m in (status, some (record e { port = port }))

-- `NkServiceReceive`
pub service_receive :
    Option ServiceEndpoint → Bool → Status × Option Message × Option ServiceEndpoint
unfolding receive
service_receive none out = (invalid_parameter, none, none)
service_receive (some e) false = (invalid_parameter, none, some e)
service_receive (some e) true =
    let (status, got, port) = receive e.port in (status, got, some (record e { port = port }))
