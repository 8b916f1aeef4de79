-- ===== src/Ke/Tests.antt =====
-- Runs of the system calls and of hexadecimal text, and their theorems at small inputs.
use ntx_preview.Base.{
  inl, ℕ, ◌≤◌, ◌≡◌, refl, subst, false, Option, none, some, List, [], ◌∷◌, ◌++◌, length, update,
  not_implemented, arith, inr,
}
use ntx_preview.Nk.{Message}
use ntx_preview.Ke.{
  write_hex64, parse_hex64, parse_digits, is_range_readable, nibble, write_hex_digits,
}
use ntx_preview.Ke.Hex.{Ends, write_hex64-parse_hex64}
use ntx_preview.Ke.Calls.{
  Services, dispatch_system_call, system_call, run_system_call, sys_read_console, read_console,
  refuse, command_of, dump_translation,
}
use ntx_preview.Ke.Writes.{dispatch_system_call-outside, outputs}

-- The line is as the kernel prints it, and the number ends at its end.
write_hex64-cafe :
    write_hex64 51966
    ≡ b'0' ∷ b'0' ∷ b'0' ∷ b'0' ∷ b'0' ∷ b'0' ∷ b'0' ∷ b'0' ∷ b'0' ∷ b'0' ∷ b'0' ∷ b'0' ∷ b'C'
      ∷ b'A' ∷ b'F' ∷ b'E' ∷ []
unfolding write_hex64 write_hex_digits
write_hex64-cafe = refl

newline-Ends : Ends (10 ∷ [])
newline-Ends = inr (inr (inl refl))

write_hex64-parse_hex64_example :
    parse_hex64 (48 ∷ 120 ∷ write_hex64 51966 ++ (10 ∷ [])) ≡ some 51966
write_hex64-parse_hex64_example = write_hex64-parse_hex64 51966 (10 ∷ []) (omega arith) newline-Ends

command_of-dumpva :
    command_of (
      b':' ∷ b'm' ∷ b'm' ∷ b'.' ∷ b'd' ∷ b'u' ∷ b'm' ∷ b'p' ∷ b'v' ∷ b'a' ∷ b' ' ∷ b'1' ∷ b'f' ∷ [])
    ≡ dump_translation (some 31)
unfolding command_of parse_hex64 parse_digits nibble
command_of-dumpva = refl

abbrev empty_message : Message
empty_message = record { opcode = 0; length = 0; payload = [] }

-- A kernel of which only the console works; its state is what was typed.
abbrev console : Services (List ℕ)
console = record {
  has_address_space = λ s. false;
  write_debug_string = λ text s. s;
  run_command = λ command s. some s;
  yield_thread = λ s. some (not_implemented, s);
  exit_current_thread = λ code s. some (not_implemented, s);
  send_by_handle = λ handle message wait s. some (not_implemented, s);
  receive_by_handle = λ handle wait s. some (not_implemented, empty_message, s);
  map_anonymous = λ size protection flags s. some (not_implemented, 0, s);
  create_port_handle = λ desired s. some (not_implemented, 0, s);
  close_port_handle = λ handle s. some (not_implemented, s);
  create_section_handle = λ size desired s. some (not_implemented, 0, s);
  map_section_handle = λ handle protection s. some (not_implemented, 0, s);
  spawn_from_buffer = λ bytes s. some (not_implemented, (0, 0), s);
  spawn_from_file_handle = λ handle s. some (not_implemented, (0, 0), s);
  open_path = λ path desired s. some (not_implemented, 0, s);
  read_file_handle = λ handle offset size s. some (not_implemented, [], s);
  close_file_handle = λ handle s. some (not_implemented, s);
  try_read_console_char = λ s. typed s;
  read-length = λ handle offset size s status bytes s' e. none_read size bytes (cc e);
}
  where
    typed : List ℕ → Option ℕ × List ℕ
    typed [] = (none, [])
    typed (c ∷ rest) = (some c, rest)

    none_read : (size : ℕ) (bytes : List ℕ) → [] ≡ bytes → length bytes ≤ size
    none_read size bytes e = subst (λ (l : List ℕ). length l ≤ size) e (omega arith)

-- Two characters typed, and a buffer of four bytes at 1000: the byte behind it stays.
abbrev after : ℕ → ℕ
after = update (update (λ a. 7) 1000 b'h') 1001 b'i'

read_two-some :
    dispatch_system_call console 15 1000 4 0 0 (λ a. 7) (b'h' ∷ b'i' ∷ []) ≡ some (2, after, [])
unfolding dispatch_system_call run_system_call system_call sys_read_console read_console refuse
    is_range_readable
read_two-some = refl

dispatch_system_call-outside_example : after 1004 ≡ 7
unfolding outputs system_call
dispatch_system_call-outside_example =
    dispatch_system_call-outside console 15 1000 4 0 0 1004 (λ a. 7) (b'h' ∷ b'i' ∷ [])
      (2, after, []) read_two-some (λ t. inr (omega arith), tt)
