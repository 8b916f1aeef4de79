-- ===== src/Ke/Calls.antt =====
-- kernel/ke/syscall.c: KiDispatchSystemCall and its handlers, over the kernel's services as an
-- interface. Memory is a function from addresses to bytes, and what a service puts into a buffer of
-- the caller it returns. A call returns none where the kernel halts.
use ntx_preview.Base.{
  ℕ, zero, suc, ◌+◌, ◌-◌, ◌%◌, ◌^◌, ◌≤◌, ◌≡◌, Bool, not, ◌&&◌, ◌||◌, Option, none, some, List, [],
  ◌∷◌, ◌++◌, length, take, get_elem?, update, if◌then◌else◌, ◌==◌, ◌!=◌, leb, ltb, Status,
  succeeded, success, not_implemented, invalid_parameter, init_failed, not_found,
  already_initialized, access_denied, would_block,
}
use ntx_preview.Nk.{Message, payload_bytes}
use ntx_preview.Kpe.{write_bytes}
use ntx_preview.Ke.{is_range_readable, starts_with, parse_hex64}

-- `NK_SYSCALL_NUMBER`
pub data SystemCall : Type 0 where
  nk_sys_debug_print nk_sys_yield nk_sys_send nk_sys_receive nk_sys_map_memory : SystemCall
  nk_sys_exit_thread nk_sys_create_port nk_sys_close_handle nk_sys_create_section : SystemCall
  nk_sys_map_section nk_sys_create_process_from_buffer nk_sys_open nk_sys_read : SystemCall
  nk_sys_close nk_sys_create_process_from_file_handle nk_sys_read_console : SystemCall

-- The system call of a number, from 0 on.
unfoldable pub system_call : ℕ → Option SystemCall
system_call number =
    get_elem?
      (nk_sys_debug_print ∷ nk_sys_yield ∷ nk_sys_send ∷ nk_sys_receive ∷ nk_sys_map_memory
        ∷ nk_sys_exit_thread ∷ nk_sys_create_port ∷ nk_sys_close_handle ∷ nk_sys_create_section
        ∷ nk_sys_map_section ∷ nk_sys_create_process_from_buffer ∷ nk_sys_open ∷ nk_sys_read
        ∷ nk_sys_close ∷ nk_sys_create_process_from_file_handle ∷ nk_sys_read_console ∷ [])
      number

-- `(uint64_t)(int64_t)Status`
abbrev pub status_code : Status → ℕ
status_code success = 0
status_code not_implemented = 2 ^ 64 - 1
status_code invalid_parameter = 2 ^ 64 - 2
status_code init_failed = 2 ^ 64 - 3
status_code not_found = 2 ^ 64 - 4
status_code already_initialized = 2 ^ 64 - 5
status_code access_denied = 2 ^ 64 - 6
status_code would_block = 2 ^ 64 - 7

-- The commands that KipSysDebugPrint finds in the text; each only prints, but for the one that halts.
pub data Command : Type 0 where
  no_command print_help dump_memory dump_scheduler dump_handles dump_objects dump_ports : Command
  dump_files dump_regions halt_kernel dump_faults : Command
  dump_translation : Option ℕ → Command

-- What the system calls need of the kernel's other parts.
pub record Services (S : Type 0) : Type 0 where
  pub has_address_space : S → Bool
  pub write_debug_string : List ℕ → S → S
  pub run_command : Command → S → Option S
  pub yield_thread : S → Option (Status × S)
  pub exit_current_thread : ℕ → S → Option (Status × S)
  pub send_by_handle : ℕ → Message → ℕ → S → Option (Status × S)
  pub receive_by_handle : ℕ → ℕ → S → Option (Status × Message × S)
  pub map_anonymous : ℕ → ℕ → ℕ → S → Option (Status × ℕ × S)
  pub create_port_handle : ℕ → S → Option (Status × ℕ × S)
  pub close_port_handle : ℕ → S → Option (Status × S)
  pub create_section_handle : ℕ → ℕ → S → Option (Status × ℕ × S)
  pub map_section_handle : ℕ → ℕ → S → Option (Status × ℕ × S)
  pub spawn_from_buffer : List ℕ → S → Option (Status × (ℕ × ℕ) × S)
  pub spawn_from_file_handle : ℕ → S → Option (Status × (ℕ × ℕ) × S)
  pub open_path : List ℕ → ℕ → S → Option (Status × ℕ × S)
  pub read_file_handle : ℕ → ℕ → ℕ → S → Option (Status × List ℕ × S)
  pub close_file_handle : ℕ → S → Option (Status × S)
  pub try_read_console_char : S → Option ℕ × S
  -- A file's bytes stay within the buffer that they are read into.
  pub read-length :
      (handle offset size : ℕ) (s : S) (status : Status) (bytes : List ℕ) (s' : S)
      → read_file_handle handle offset size s ≡ some (status, bytes, s')
      → length bytes ≤ size

-- The bytes from an address on.
abbrev pub read_list : ℕ → ℕ → (ℕ → ℕ) → List ℕ
read_list zero at memory = []
read_list (suc n) at memory = memory at ∷ read_list n (at + 1) memory

abbrev pub write_list : ℕ → List ℕ → (ℕ → ℕ) → ℕ → ℕ
write_list at [] memory = memory
write_list at (b ∷ bytes) memory = write_list (at + 1) bytes (update memory at b)

-- A text of bytes up to its first zero.
abbrev pub text_of : List ℕ → List ℕ
text_of [] = []
text_of (c ∷ bytes) = let rest = text_of bytes in if c == 0 then [] else c ∷ rest

abbrev pub either_starts : List ℕ → List ℕ → Bool
either_starts text name = starts_with text name || starts_with text (b':' ∷ name)

abbrev pub drop : ℕ → List ℕ → List ℕ
drop zero bytes = bytes
drop (suc n) [] = []
drop (suc n) (b ∷ bytes) = drop n bytes

-- The chain of tests of KipSysDebugPrint.
unfoldable pub command_of : List ℕ → Command
unfolding starts_with parse_hex64
command_of text =
    if either_starts text (b'h' ∷ b'e' ∷ b'l' ∷ b'p' ∷ [])
    then print_help
    else if either_starts text (b'm' ∷ b'e' ∷ b'm' ∷ [])
    then dump_memory
    else if either_starts text (b'p' ∷ b's' ∷ [])
    then dump_scheduler
    else if either_starts text (b'h' ∷ b'a' ∷ b'n' ∷ b'd' ∷ b'l' ∷ b'e' ∷ b's' ∷ [])
    then dump_handles
    else if either_starts text (b'o' ∷ b'b' ∷ b'j' ∷ b'e' ∷ b'c' ∷ b't' ∷ b's' ∷ [])
    then dump_objects
    else if either_starts text (b'i' ∷ b'p' ∷ b'c' ∷ [])
    then dump_ports
    else if either_starts text (b'f' ∷ b'i' ∷ b'l' ∷ b'e' ∷ b's' ∷ [])
    then dump_files
    else if either_starts text (b'v' ∷ b'm' ∷ [])
    then dump_regions
    else if either_starts text (b'p' ∷ b'a' ∷ b'n' ∷ b'i' ∷ b'c' ∷ [])
    then halt_kernel
    else if starts_with text
        (b':' ∷ b'm' ∷ b'm' ∷ b'.' ∷ b'f' ∷ b'a' ∷ b'u' ∷ b'l' ∷ b't' ∷ b's' ∷ [])
    then dump_faults
    else if starts_with text
        (b':' ∷ b'm' ∷ b'm' ∷ b'.' ∷ b'd' ∷ b'u' ∷ b'm' ∷ b'p' ∷ b'v' ∷ b'a' ∷ b' ' ∷ [])
    then dump_translation (parse_hex64 (drop 11 text))
    else no_command

-- A service's status is returned as it is, with memory unchanged; or, on success, the result and
-- what the call writes for the caller.
unfoldable pub finish :
    {S : Type 0} {A : Type 0}
    → (A → ℕ)
    → (A → (ℕ → ℕ) → ℕ → ℕ)
    → (ℕ → ℕ)
    → Option (Status × A × S)
    → Option (ℕ × (ℕ → ℕ) × S)
finish result write memory none = none
finish result write memory (some (status, a, s)) =
    if succeeded status
    then some (result a, write a memory, s)
    else some (status_code status, memory, s)

-- The status of a service that returns nothing else.
unfoldable pub answer : {S : Type 0} → (ℕ → ℕ) → Option (Status × S) → Option (ℕ × (ℕ → ℕ) × S)
answer memory none = none
answer memory (some (status, s)) = some (status_code status, memory, s)

-- A command of KipSysDebugPrint was run; with `panic` the kernel halts.
unfoldable pub printed : {S : Type 0} → (ℕ → ℕ) → Option S → Option (ℕ × (ℕ → ℕ) × S)
printed memory none = none
printed memory (some s) = some (status_code success, memory, s)

-- A test of the arguments failed.
unfoldable pub refuse :
    {S : Type 0} → Bool → (ℕ → ℕ) → S → Option (ℕ × (ℕ → ℕ) × S) → Option (ℕ × (ℕ → ℕ) × S)
refuse bad memory s rest = if bad then some (status_code invalid_parameter, memory, s) else rest

-- A pointer that may be NULL is not, and the bytes there cannot be written.
abbrev pub is_bad_output : ℕ → ℕ → Bool
is_bad_output at size = at != 0 && not (is_range_readable at size)

-- The 64-bit number at a pointer that may be NULL.
abbrev pub write_output : ℕ → ℕ → (ℕ → ℕ) → ℕ → ℕ
write_output at value memory = if at != 0 then write_bytes 8 at value memory else memory

-- The payload behind the bytes of the caller is zero.
abbrev pub zeros : ℕ → List ℕ
zeros zero = []
zeros (suc n) = 0 ∷ zeros n

abbrev pub message_of : List ℕ → Message
message_of bytes = record {
  opcode = 0;
  length = length bytes;
  payload = bytes ++ zeros (payload_bytes - length bytes);
}

module _ {S : Type 0} (k : Services S) where
  -- `KipSysDebugPrint`
  unfoldable pub sys_debug_print : ℕ → ℕ → (ℕ → ℕ) → S → Option (ℕ × (ℕ → ℕ) × S)
  unfolding command_of
  sys_debug_print at size memory s =
      let text = text_of (read_list size at memory) in
      refuse (ltb 512 size || not (is_range_readable at size)) memory s
        (printed memory (k.run_command (command_of text) (k.write_debug_string text s)))

  -- `KipSysSend`
  unfoldable pub sys_send : ℕ → ℕ → ℕ → ℕ → (ℕ → ℕ) → S → Option (ℕ × (ℕ → ℕ) × S)
  sys_send handle at size wait memory s =
      refuse (ltb payload_bytes size || at == 0 || not (is_range_readable at size)) memory s (
        answer memory (
          k.send_by_handle (handle % 2 ^ 32) (message_of (read_list size at memory)) (wait % 2 ^ 32)
            s))

  -- `KipSysReceive`
  unfoldable pub sys_receive : ℕ → ℕ → ℕ → ℕ → (ℕ → ℕ) → S → Option (ℕ × (ℕ → ℕ) × S)
  sys_receive handle at size wait memory s =
      refuse (ltb payload_bytes size || at == 0 || not (is_range_readable at size)) memory s (
        finish (λ m. if ltb size m.length then status_code invalid_parameter else m.length)
          (λ m old. if ltb size m.length then old else write_list at (take m.length m.payload) old)
          memory (k.receive_by_handle (handle % 2 ^ 32) (wait % 2 ^ 32) s))

  -- `KipSysMapMemory`
  unfoldable pub sys_map_memory : ℕ → (ℕ → ℕ) → S → Option (ℕ × (ℕ → ℕ) × S)
  sys_map_memory flags memory s = refuse (not (k.has_address_space s)) memory s (
      finish (λ base. base) (λ base old. old) memory
        (k.map_anonymous (if flags == 0 then 4096 else flags) 3 1 s))

  -- `KipSysCreatePort`
  unfoldable pub sys_create_port : ℕ → (ℕ → ℕ) → S → Option (ℕ × (ℕ → ℕ) × S)
  sys_create_port desired memory s =
      finish (λ handle. handle) (λ handle old. old) memory
        (k.create_port_handle (desired % 2 ^ 32) s)

  -- `KipSysCreateSection`
  unfoldable pub sys_create_section : ℕ → ℕ → ℕ → (ℕ → ℕ) → S → Option (ℕ × (ℕ → ℕ) × S)
  sys_create_section size desired at memory s =
      refuse (at == 0 || not (is_range_readable at 4)) memory s (
        finish (λ handle. 0) (λ handle old. write_bytes 4 at handle old) memory
          (k.create_section_handle size (if desired == 0 then 3 else desired % 2 ^ 32) s))

  -- `KipSysMapSection`
  unfoldable pub sys_map_section : ℕ → ℕ → ℕ → (ℕ → ℕ) → S → Option (ℕ × (ℕ → ℕ) × S)
  sys_map_section handle protection at memory s =
      refuse (at == 0 || not (is_range_readable at 8) || not (k.has_address_space s)) memory s (
        finish (λ base. 0) (λ base old. write_bytes 8 at base old) memory
          (k.map_section_handle (handle % 2 ^ 32) (protection % 2 ^ 32) s))

  -- `KipSysCreateProcessFromBuffer`
  unfoldable pub sys_create_process : ℕ → ℕ → ℕ → ℕ → (ℕ → ℕ) → S → Option (ℕ × (ℕ → ℕ) × S)
  sys_create_process image size out_id out_entry memory s =
      refuse
        (image == 0
          || size == 0
          || not (is_range_readable image size)
          || is_bad_output out_id 8
          || is_bad_output out_entry 8)
        memory s
        (finish (λ made. 0)
          (λ made old. write_output out_entry made.1 (write_output out_id made.0 old)) memory
          (k.spawn_from_buffer (read_list size image memory) s))

  -- `KipSysOpen`
  unfoldable pub sys_open : ℕ → ℕ → ℕ → (ℕ → ℕ) → S → Option (ℕ × (ℕ → ℕ) × S)
  sys_open at size desired memory s =
      refuse (at == 0 || size == 0 || leb 128 size || not (is_range_readable at size)) memory s (
        finish (λ handle. handle) (λ handle old. old) memory
          (k.open_path (text_of (read_list size at memory)) (desired % 2 ^ 32) s))

  -- `KipSysRead`
  unfoldable pub sys_read : ℕ → ℕ → ℕ → ℕ → (ℕ → ℕ) → S → Option (ℕ × (ℕ → ℕ) × S)
  sys_read handle offset at size memory s =
      refuse (at == 0 || size == 0 || not (is_range_readable at size)) memory s (
        finish length (λ bytes old. write_list at bytes old) memory
          (k.read_file_handle (handle % 2 ^ 32) offset size s))

  -- `KipSysCreateProcessFromFileHandle`
  unfoldable pub sys_create_process_from_file : ℕ → ℕ → ℕ → (ℕ → ℕ) → S → Option (ℕ × (ℕ → ℕ) × S)
  sys_create_process_from_file handle out_id out_entry memory s =
      refuse (is_bad_output out_id 8 || is_bad_output out_entry 8) memory s (
        finish (λ made. 0)
          (λ made old. write_output out_entry made.1 (write_output out_id made.0 old)) memory
          (k.spawn_from_file_handle (handle % 2 ^ 32) s))

  -- The loop of `KipSysReadConsole`, with `n` characters of room and `count` read.
  unfoldable pub read_console : ℕ → ℕ → ℕ → (ℕ → ℕ) → S → ℕ × (ℕ → ℕ) × S
  read_console zero at count memory s = (count, memory, s)
  read_console (suc n) at count memory s =
      let (read, s') = k.try_read_console_char s in
      elim read [
        | none ↦ (count, memory, s')
        | some c ↦ read_console n at (count + 1) (update memory (at + count) c) s'
      ]

  -- `KipSysReadConsole`
  unfoldable pub sys_read_console : ℕ → ℕ → (ℕ → ℕ) → S → Option (ℕ × (ℕ → ℕ) × S)
  unfolding read_console
  sys_read_console at size memory s =
      refuse (at == 0 || size == 0 || not (is_range_readable at size)) memory s
        (some (read_console size at 0 memory s))

  -- The cases of the switch, and its default.
  unfoldable pub run_system_call :
      Option SystemCall → ℕ → ℕ → ℕ → ℕ → (ℕ → ℕ) → S → Option (ℕ × (ℕ → ℕ) × S)
  run_system_call none a b c d memory s = some (status_code not_implemented, memory, s)
  run_system_call (some nk_sys_debug_print) a b c d memory s = sys_debug_print a b memory s
  run_system_call (some nk_sys_yield) a b c d memory s = answer memory (k.yield_thread s)
  run_system_call (some nk_sys_send) a b c d memory s = sys_send a b c d memory s
  run_system_call (some nk_sys_receive) a b c d memory s = sys_receive a b c d memory s
  run_system_call (some nk_sys_map_memory) a b c d memory s = sys_map_memory a memory s
  run_system_call (some nk_sys_exit_thread) a b c d memory s =
      answer memory (k.exit_current_thread a s)
  run_system_call (some nk_sys_create_port) a b c d memory s = sys_create_port a memory s
  run_system_call (some nk_sys_close_handle) a b c d memory s =
      answer memory (k.close_port_handle (a % 2 ^ 32) s)
  run_system_call (some nk_sys_create_section) a b c d memory s = sys_create_section a b c memory s
  run_system_call (some nk_sys_map_section) a b c d memory s = sys_map_section a b c memory s
  run_system_call (some nk_sys_create_process_from_buffer) a b c d memory s =
      sys_create_process a b c d memory s
  run_system_call (some nk_sys_open) a b c d memory s = sys_open a b c memory s
  run_system_call (some nk_sys_read) a b c d memory s = sys_read a b c d memory s
  run_system_call (some nk_sys_close) a b c d memory s =
      answer memory (k.close_file_handle (a % 2 ^ 32) s)
  run_system_call (some nk_sys_create_process_from_file_handle) a b c d memory s =
      sys_create_process_from_file a b c memory s
  run_system_call (some nk_sys_read_console) a b c d memory s = sys_read_console a b memory s

  -- `KiDispatchSystemCall`, up to the two arguments that it ignores.
  unfoldable pub dispatch_system_call : ℕ → ℕ → ℕ → ℕ → ℕ → (ℕ → ℕ) → S → Option (ℕ × (ℕ → ℕ) × S)
  unfolding run_system_call
  dispatch_system_call number a b c d memory s =
      run_system_call (system_call number) a b c d memory s
