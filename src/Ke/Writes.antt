-- ===== src/Ke/Writes.antt =====
-- KiDispatchSystemCall: what a system call writes for its caller stays in the buffers that the call
-- names, and those were tested.
use ntx_preview.Base.{
  ℕ, zero, suc, ◌+◌, ◌≤◌, ◌<◌, ◌≡◌, ◌≢◌, ◌∙◌, ◌⊎◌, sym, ap, refl, inl, inr, arith, Bool, true,
  false, ◌||◌, Option, none, some, List, [], ◌∷◌, length, length-take, take, update, update-ne,
  ◌!=◌, ltb, Status, succeeded, Bool-cases, Option-cases,
}
use ntx_preview.Ps.Patched.{write_bytes-outside}
use ntx_preview.Ke.{is_range_readable}
use ntx_preview.Ke.Calls.{
  Services, SystemCall, nk_sys_debug_print, nk_sys_yield, nk_sys_send, nk_sys_receive,
  nk_sys_map_memory, nk_sys_exit_thread, nk_sys_create_port, nk_sys_close_handle,
  nk_sys_create_section, nk_sys_map_section, nk_sys_create_process_from_buffer, nk_sys_open,
  nk_sys_read, nk_sys_close, nk_sys_create_process_from_file_handle, nk_sys_read_console,
  system_call, write_list, finish, answer, printed, refuse, is_bad_output, write_output,
  sys_debug_print, sys_send, sys_receive, sys_map_memory, sys_create_port, sys_create_section,
  sys_map_section, sys_create_process, sys_open, sys_read, sys_create_process_from_file,
  read_console, sys_read_console, run_system_call, dispatch_system_call,
}

-- The buffers that a system call fills for its caller: where they start, and their bytes.
unfoldable pub outputs : Option SystemCall → ℕ → ℕ → ℕ → ℕ → List (ℕ × ℕ)
outputs (some nk_sys_receive) a b c d = (b, c) ∷ []
outputs (some nk_sys_create_section) a b c d = (c, 4) ∷ []
outputs (some nk_sys_map_section) a b c d = (c, 8) ∷ []
outputs (some nk_sys_create_process_from_buffer) a b c d = (c, 8) ∷ (d, 8) ∷ []
outputs (some nk_sys_read) a b c d = (c, d) ∷ []
outputs (some nk_sys_create_process_from_file_handle) a b c d = (b, 8) ∷ (c, 8) ∷ []
outputs (some nk_sys_read_console) a b c d = (a, b) ∷ []
outputs _ a b c d = []

-- The address is in none of the buffers that KipIsRangeWritable accepts.
abbrev pub IsOutside : ℕ → List (ℕ × ℕ) → Type 0
IsOutside x [] = Unit
IsOutside x ((at, size) ∷ buffers) =
    (is_range_readable at size ≡ true → (x < at) ⊎ (at + size ≤ x)) × IsOutside x buffers

write_list-outside :
    (at : ℕ) (bytes : List ℕ) (memory : ℕ → ℕ) (x : ℕ)
    → (x < at) ⊎ (at + length bytes ≤ x)
    → write_list at bytes memory x ≡ memory x
write_list-outside at [] memory x h = refl
write_list-outside at (b ∷ bytes) memory x h =
    let later : (x < at + 1) ⊎ (at + 1 + length bytes ≤ x) = elim h [
      | inl l ↦ inl (omega (arith, l))
      | inr l ↦ inr (omega (arith, l))
    ] in
    let ne : at ≢ x = elim h [
      | inl l ↦ λ e. absurd (omega (arith, l, e))
      | inr l ↦ λ e. absurd (omega (arith, l, e))
    ] in
    write_list-outside (at + 1) bytes (update memory at b) x later ∙ update-ne memory at x b ne

shorter : (x at n size : ℕ) → n ≤ size → (x < at) ⊎ (at + size ≤ x) → (x < at) ⊎ (at + n ≤ x)
shorter x at n size l (inl h) = inl h
shorter x at n size l (inr h) = inr (omega arith)

module _ {S : Type 0} (x : ℕ) (memory : ℕ → ℕ) where
  -- Where the call returns, the byte at `x` is what it was.
  abbrev Kept : Option (ℕ × (ℕ → ℕ) × S) → Type 0
  Kept o = (r : ℕ × (ℕ → ℕ) × S) → o ≡ some r → r.1 x ≡ memory x

  some-Kept : (code : ℕ) (after : ℕ → ℕ) (s : S) → after x ≡ memory x → Kept (some (code, after, s))
  some-Kept code after s same r e =
      let at : (code, after, s) ≡ r = cc e in sym (ap (λ (y : ℕ × (ℕ → ℕ) × S). y.1 x) at) ∙ same

  refuse-Kept :
      (bad : Bool) (s : S) (rest : Option (ℕ × (ℕ → ℕ) × S))
      → (bad ≡ false → Kept rest)
      → Kept (refuse bad memory s rest)
  unfolding refuse
  refuse-Kept true s rest h = some-Kept _ memory s refl
  refuse-Kept false s rest h = h refl

  finish-Kept :
      {A : Type 0} (result : A → ℕ) (write : A → (ℕ → ℕ) → ℕ → ℕ) (o : Option (Status × A × S))
      → ((status : Status) (a : A) (s : S) → o ≡ some (status, a, s) → write a memory x ≡ memory x)
      → Kept (finish result write memory o)
  unfolding finish
  finish-Kept result write none h = λ r e. absurd (cc e)
  finish-Kept result write (some (status, a, s)) h = elim (Bool-cases (succeeded status)) [
    | inl e ↦ rw e (some-Kept (result a) (write a memory) s (h status a s refl))
    | inr e ↦ rw e (some-Kept _ memory s refl)
  ]

  printed-Kept : (o : Option S) → Kept (printed memory o)
  unfolding printed
  printed-Kept none = λ r e. absurd (cc e)
  printed-Kept (some s) = some-Kept _ memory s refl

  answer-Kept : (o : Option (Status × S)) → Kept (answer memory o)
  unfolding answer
  answer-Kept none = λ r e. absurd (cc e)
  answer-Kept (some (status, s)) = some-Kept _ memory s refl

module _ {S : Type 0} (k : Services S) (x : ℕ) (memory : ℕ → ℕ) (s : S) where
  sys_debug_print-Kept : (a b : ℕ) → Kept x memory (sys_debug_print k a b memory s)
  unfolding sys_debug_print
  sys_debug_print-Kept a b = refuse-Kept x memory _ s _ λ h. printed-Kept x memory _

  sys_send-Kept : (a b c d : ℕ) → Kept x memory (sys_send k a b c d memory s)
  unfolding sys_send
  sys_send-Kept a b c d = refuse-Kept x memory _ s _ λ h. answer-Kept x memory _

  sys_receive-Kept :
      (a b c d : ℕ) → IsOutside x ((b, c) ∷ []) → Kept x memory (sys_receive k a b c d memory s)
  unfolding sys_receive
  sys_receive-Kept a b c d out = refuse-Kept x memory _ s _ λ h.
      finish-Kept x memory _ _ _ λ status m s' e. elim (Bool-cases (ltb c m.length)) [
        | inl l ↦ rw l refl
        | inr l ↦
            let bytes = take m.length m.payload in
            let fits : length bytes ≤ c = ground (arith, l, length-take m.length m.payload) in
            rw l (
              write_list-outside b bytes memory x
                (shorter x b (length bytes) c fits (out.0 (ground (arith, h)))))
      ]

  sys_read-Kept :
      (a b c d : ℕ) → IsOutside x ((c, d) ∷ []) → Kept x memory (sys_read k a b c d memory s)
  unfolding sys_read
  sys_read-Kept a b c d out = refuse-Kept x memory _ s _ λ h.
      finish-Kept x memory _ _ _ λ status bytes s' e.
        write_list-outside c bytes memory x
          (shorter x c (length bytes) d (k.read-length _ _ _ _ _ _ _ e) (out.0 (ground (arith, h))))

  sys_map_memory-Kept : (a : ℕ) → Kept x memory (sys_map_memory k a memory s)
  unfolding sys_map_memory
  sys_map_memory-Kept a =
      refuse-Kept x memory _ s _ λ h. finish-Kept x memory _ _ _ λ status base s' e. refl

  sys_create_port-Kept : (a : ℕ) → Kept x memory (sys_create_port k a memory s)
  unfolding sys_create_port
  sys_create_port-Kept a = finish-Kept x memory _ _ _ λ status handle s' e. refl

  sys_open-Kept : (a b c : ℕ) → Kept x memory (sys_open k a b c memory s)
  unfolding sys_open
  sys_open-Kept a b c =
      refuse-Kept x memory _ s _ λ h. finish-Kept x memory _ _ _ λ status handle s' e. refl

  sys_create_section-Kept :
      (a b c : ℕ) → IsOutside x ((c, 4) ∷ []) → Kept x memory (sys_create_section k a b c memory s)
  unfolding sys_create_section
  sys_create_section-Kept a b c out = refuse-Kept x memory _ s _ λ h.
      finish-Kept x memory _ _ _
        λ status handle s' e. write_bytes-outside 4 c handle memory x (out.0 (ground (arith, h)))

  sys_map_section-Kept :
      (a b c : ℕ) → IsOutside x ((c, 8) ∷ []) → Kept x memory (sys_map_section k a b c memory s)
  unfolding sys_map_section
  sys_map_section-Kept a b c out = refuse-Kept x memory _ s _ λ h.
      finish-Kept x memory _ _ _
        λ status base s' e. write_bytes-outside 8 c base memory x (out.0 (ground (arith, h)))

  -- A pointer that may be NULL was tested if it is not.
  write_output-outside :
      (at value : ℕ) (old : ℕ → ℕ)
      → is_bad_output at 8 ≡ false
      → (is_range_readable at 8 ≡ true → (x < at) ⊎ (at + 8 ≤ x))
      → write_output at value old x ≡ old x
  write_output-outside at value old h out = elim (Bool-cases (at != 0)) [
    | inl e ↦ rw e (write_bytes-outside 8 at value old x (out (ground (arith, h, e))))
    | inr e ↦ rw e refl
  ]

  both_outputs :
      (b c : ℕ) (made : ℕ × ℕ)
      → (is_bad_output b 8 || is_bad_output c 8) ≡ false
      → IsOutside x ((b, 8) ∷ (c, 8) ∷ [])
      → write_output c made.1 (write_output b made.0 memory) x ≡ memory x
  both_outputs b c made h out =
      write_output-outside c made.1 (write_output b made.0 memory) (ground (arith, h)) out.1.0
      ∙ write_output-outside b made.0 memory (ground (arith, h)) out.0

  sys_create_process-Kept :
      (a b c d : ℕ)
      → IsOutside x ((c, 8) ∷ (d, 8) ∷ [])
      → Kept x memory (sys_create_process k a b c d memory s)
  unfolding sys_create_process
  sys_create_process-Kept a b c d out = refuse-Kept x memory _ s _ λ h.
      finish-Kept x memory _ _ _ λ status made s' e. both_outputs c d made (ground (arith, h)) out

  sys_create_process_from_file-Kept :
      (a b c : ℕ)
      → IsOutside x ((b, 8) ∷ (c, 8) ∷ [])
      → Kept x memory (sys_create_process_from_file k a b c memory s)
  unfolding sys_create_process_from_file
  sys_create_process_from_file-Kept a b c out =
      refuse-Kept x memory _ s _
        λ h. finish-Kept x memory _ _ _ λ status made s' e. both_outputs b c made h out

module _ {S : Type 0} (k : Services S) (x : ℕ) where
  read_console-outside :
      (n at count : ℕ) (memory : ℕ → ℕ) (s : S)
      → (x < at) ⊎ (at + count + n ≤ x)
      → (read_console k n at count memory s).1 x ≡ memory x
  unfolding read_console
  read_console-outside zero at count memory s h = refl
  read_console-outside (suc n) at count memory s h =
      let s' = (k.try_read_console_char s).1 in
      let later : (x < at) ⊎ (at + (count + 1) + n ≤ x) = elim h [
        | inl l ↦ inl l
        | inr l ↦ inr (omega (arith, l))
      ] in
      let ne : at + count ≢ x = elim h [
        | inl l ↦ λ e. absurd (omega (arith, l, e))
        | inr l ↦ λ e. absurd (omega (arith, l, e))
      ] in
      elim (Option-cases (k.try_read_console_char s).0) [
        | inl e ↦ ground (arith, e)
        | inr (c, e) ↦
            let rest =
              read_console-outside n at (count + 1) (update memory (at + count) c) s' later
              ∙ update-ne memory (at + count) x c ne in
            ground (arith, e, rest)
      ]

  sys_read_console-Kept :
      (a b : ℕ) (memory : ℕ → ℕ) (s : S)
      → IsOutside x ((a, b) ∷ [])
      → Kept x memory (sys_read_console k a b memory s)
  unfolding sys_read_console
  sys_read_console-Kept a b memory s out = refuse-Kept x memory _ s _ λ h.
      let far : (x < a) ⊎ (a + 0 + b ≤ x) = elim (out.0 (ground (arith, h))) [
        | inl l ↦ inl l
        | inr l ↦ inr (omega (arith, l))
      ] in
      some-Kept x memory _ (read_console k b a 0 memory s).1 _
        (read_console-outside b a 0 memory s far)

  run_system_call-Kept :
      (call : Option SystemCall) (a b c d : ℕ) (memory : ℕ → ℕ) (s : S)
      → IsOutside x (outputs call a b c d)
      → Kept x memory (run_system_call k call a b c d memory s)
  unfolding run_system_call outputs
  run_system_call-Kept none a b c d memory s out = some-Kept x memory _ memory s refl
  run_system_call-Kept (some nk_sys_debug_print) a b c d memory s out =
      sys_debug_print-Kept k x memory s a b
  run_system_call-Kept (some nk_sys_yield) a b c d memory s out = answer-Kept x memory _
  run_system_call-Kept (some nk_sys_send) a b c d memory s out = sys_send-Kept k x memory s a b c d
  run_system_call-Kept (some nk_sys_receive) a b c d memory s out =
      sys_receive-Kept k x memory s a b c d out
  run_system_call-Kept (some nk_sys_map_memory) a b c d memory s out =
      sys_map_memory-Kept k x memory s a
  run_system_call-Kept (some nk_sys_exit_thread) a b c d memory s out = answer-Kept x memory _
  run_system_call-Kept (some nk_sys_create_port) a b c d memory s out =
      sys_create_port-Kept k x memory s a
  run_system_call-Kept (some nk_sys_close_handle) a b c d memory s out = answer-Kept x memory _
  run_system_call-Kept (some nk_sys_create_section) a b c d memory s out =
      sys_create_section-Kept k x memory s a b c out
  run_system_call-Kept (some nk_sys_map_section) a b c d memory s out =
      sys_map_section-Kept k x memory s a b c out
  run_system_call-Kept (some nk_sys_create_process_from_buffer) a b c d memory s out =
      sys_create_process-Kept k x memory s a b c d out
  run_system_call-Kept (some nk_sys_open) a b c d memory s out = sys_open-Kept k x memory s a b c
  run_system_call-Kept (some nk_sys_read) a b c d memory s out =
      sys_read-Kept k x memory s a b c d out
  run_system_call-Kept (some nk_sys_close) a b c d memory s out = answer-Kept x memory _
  run_system_call-Kept (some nk_sys_create_process_from_file_handle) a b c d memory s out =
      sys_create_process_from_file-Kept k x memory s a b c out
  run_system_call-Kept (some nk_sys_read_console) a b c d memory s out =
      sys_read_console-Kept a b memory s out

-- A system call, over services that put no more bytes into a file's buffer than it has, changes
-- only bytes of the buffers that it names for its results and that KipIsRangeWritable accepts,
-- whatever its number and arguments are and whatever the services answer.
pub dispatch_system_call-outside :
    {S : Type 0} (k : Services S) (number a b c d x : ℕ) (memory : ℕ → ℕ) (s : S)
    (r : ℕ × (ℕ → ℕ) × S)
    → dispatch_system_call k number a b c d memory s ≡ some r
    → IsOutside x (outputs (system_call number) a b c d)
    → r.1 x ≡ memory x
unfolding dispatch_system_call
dispatch_system_call-outside k number a b c d x memory s r ran out =
    run_system_call-Kept k x (system_call number) a b c d memory s out r ran
