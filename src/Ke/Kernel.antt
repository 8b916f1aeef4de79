-- ===== src/Ke/Kernel.antt =====
-- The services behind the system calls of kernel/ke/syscall.c, by the kernel's other parts: Lpc, Ob,
-- Ps, Io, Nk and Mm on one state. The services that need more than
-- that state are an argument.
use ntx_preview.Base.{
  ℕ, ◌+◌, ◌≤◌, ◌≡◌, refl, subst, true, Option, none, some, List, [], ◌∷◌, ◌++◌, length, Status,
  arith, is_some, Option-cases, inl, inr, invalid_parameter, zero, suc, ◌-◌,
}
use ntx_preview.Nk.{Core, Message}
use ntx_preview.Ob.{Ob, reference_by_handle, kernel_handle_table}
use ntx_preview.Ps.{Ps, Event, yield_thread, exit_current_thread}
use ntx_preview.Lpc.{Lpc, send_by_handle, create_port_handle, close_port_handle}
use ntx_preview.Io.{
  Io, File, open_path, read_file_handle, close_file_handle, read_file, read_bytes,
  find_file_by_header, file_access_read,
}
use ntx_preview.Mm.Walk.{Memory}
use ntx_preview.Mm.Space.{AddressSpace, map_anonymous}
use ntx_preview.Ke.Calls.{Command, Services}

-- The state of the kernel that system calls reach, with the current process's address space, the
-- characters that wait on the console and those that were written.
pub record Kernel : Type 0 where
  pub lpc : Lpc
  pub ob : Ob
  pub ps : Ps
  pub io : Io
  pub core : Core
  pub memory : Memory
  pub space : Option AddressSpace
  pub typed : List ℕ
  pub written : List ℕ

-- The services that are given from outside, each on the whole state.
pub record Others : Type 0 where
  pub run_command : Command → Kernel → Option Kernel
  pub receive_by_handle : ℕ → ℕ → Kernel → Option (Status × Message × Kernel)
  pub create_section_handle : ℕ → ℕ → Kernel → Option (Status × ℕ × Kernel)
  pub map_section_handle : ℕ → ℕ → Kernel → Option (Status × ℕ × Kernel)
  pub spawn_from_buffer : List ℕ → Kernel → Option (Status × (ℕ × ℕ) × Kernel)
  pub spawn_from_file_handle : ℕ → Kernel → Option (Status × (ℕ × ℕ) × Kernel)

-- The handle or address that a call gave, 0 where it gave none.
abbrev pub or_zero : Option ℕ → ℕ
or_zero none = 0
or_zero (some a) = a

abbrev pub or_none : Option (List ℕ) → List ℕ
or_none none = []
or_none (some bytes) = bytes

abbrev pub with_ps : Kernel → Option (Status × List Event × Ps) → Option (Status × Kernel)
with_ps k none = none
with_ps k (some (status, events, ps)) = some (status, record k { ps = ps })

abbrev pub with_sent : Kernel → Option (Status × Lpc × Ob × Ps) → Option (Status × Kernel)
with_sent k none = none
with_sent k (some (status, lpc, ob, ps)) = some (status, record k { lpc = lpc; ob = ob; ps = ps })

abbrev pub map_for : ℕ → ℕ → ℕ → Kernel → Option AddressSpace → Option (Status × ℕ × Kernel)
map_for size protection flags k none = some (invalid_parameter, 0, k)
map_for size protection flags k (some space) =
    let (status, base, space', memory) = map_anonymous space size protection flags true k.memory in
    some (status, or_zero base, record k { space = some space'; memory = memory })

abbrev pub read_typed : Kernel → List ℕ → Option ℕ × Kernel
read_typed k [] = (none, k)
read_typed k (c ∷ typed) = (some c, record k { typed = typed })

abbrev pub read_from : ℕ → ℕ → ℕ → Kernel → Option (Status × List ℕ × Kernel)
read_from handle offset size k =
    let (status, bytes, io, ob) = read_file_handle handle offset true size k.io k.ob in
    some (status, or_none bytes, record k { io = io; ob = ob })

length-read_bytes : (bytes : ℕ → ℕ) (offset n : ℕ) → length (read_bytes bytes offset n) ≡ n
unfolding read_bytes
length-read_bytes bytes offset zero = refl
length-read_bytes bytes offset (suc n) = omega (arith, length-read_bytes bytes (offset + 1) n)

length-read_file : (file : File) (offset size : ℕ) → length (read_file file offset size) ≤ size
unfolding read_file
length-read_file file offset size = ground (
  arith,
  length-read_bytes file.bytes offset size,
  length-read_bytes file.bytes offset (file.size - offset),
)

-- What IoReadFileHandle copies fits in the buffer.
length-read_file_handle :
    (handle offset size : ℕ) (io : Io) (ob : Ob)
    → length (or_none (read_file_handle handle offset true size io ob).1) ≤ size
unfolding read_file_handle
length-read_file_handle handle offset size io ob =
    let found =
      reference_by_handle (kernel_handle_table ob) handle file_access_read io.file_type true ob in
    elim (Option-cases found.1) [
      | inl e ↦ ground (arith, e)
      | inr (o, e) ↦ elim (Option-cases (find_file_by_header o io)) [
        | inl f ↦ ground (arith, e, f)
        | inr (f, g) ↦ ground (arith, e, g, length-read_file (io.file_pool f) offset size)
      ]
    ]

-- The services of the kernel.
pub kernel_services : Others → Services Kernel
kernel_services others = record {
  has_address_space = λ k. is_some k.space;
  write_debug_string = λ text k. record k { written = k.written ++ text };
  run_command = others.run_command;
  yield_thread = λ k. with_ps k (yield_thread k.ps);
  exit_current_thread = λ code k. with_ps k (exit_current_thread k.ps);
  send_by_handle =
      λ handle message wait k. with_sent k (send_by_handle handle (some message) k.lpc k.ob k.ps);
  receive_by_handle = others.receive_by_handle;
  map_anonymous = λ size protection flags k. map_for size protection flags k k.space;
  create_port_handle = λ desired k.
      let (status, handle, lpc, ob, core) = create_port_handle desired true k.lpc k.ob k.core in
      some (status, or_zero handle, record k { lpc = lpc; ob = ob; core = core });
  close_port_handle = λ handle k.
      let (status, lpc, ob) = close_port_handle handle k.lpc k.ob in
      some (status, record k { lpc = lpc; ob = ob });
  create_section_handle = others.create_section_handle;
  map_section_handle = others.map_section_handle;
  spawn_from_buffer = others.spawn_from_buffer;
  spawn_from_file_handle = others.spawn_from_file_handle;
  open_path = λ path desired k.
      let (status, handle, io, ob) = open_path (some path) desired true k.io k.ob in
      some (status, or_zero handle, record k { io = io; ob = ob });
  read_file_handle = read_from;
  close_file_handle = λ handle k.
      let (status, io, ob) = close_file_handle handle k.io k.ob in
      some (status, record k { io = io; ob = ob });
  try_read_console_char = λ k. read_typed k k.typed;
  read-length = λ handle offset size k status bytes k' e.
      let got : or_none (read_file_handle handle offset true size k.io k.ob).1 ≡ bytes = cc e in
      subst (λ (l : List ℕ). length l ≤ size) got
        (length-read_file_handle handle offset size k.io k.ob);
}
