-- ===== src/Nk/Tests.antt =====
-- Runs of the nucleus, and its theorems at concrete ports.
use ntx_preview.Base.{ℕ, ◌≡◌, refl, none, some, List, [], ◌∷◌, arith, success, invalid_parameter}
use ntx_preview.Nk.{Message, Port, send, receive}
use ntx_preview.Nk.Refine.{
  IsValid, contents, window, Call, send_call, receive_call, run_port, run_fifo, run_port-run_fifo,
}

abbrev message : ℕ → Message
message n = record { opcode = n; length = 1; payload = n ∷ [] }

abbrev too_long : Message
too_long = record { opcode = 1; length = 65; payload = [] }

abbrev blank : ℕ → Message
blank i = record { opcode = 0; length = 0; payload = [] }

-- Two messages round the end of the queue.
abbrev wrapped : Port
wrapped = record { queue = λ i. message i; head = 31; tail = 1; count = 2 }

wrapped-IsValid : IsValid wrapped
wrapped-IsValid = omega arith

contents-wrapped : contents wrapped ≡ message 31 ∷ message 0 ∷ []
unfolding contents window
contents-wrapped = refl

abbrev calls : List Call
calls = receive_call ∷ send_call too_long ∷ send_call (message 7) ∷ receive_call ∷ []

run_port-wrapped :
    run_port wrapped calls
    ≡ (success, some (message 31))
      ∷ (invalid_parameter, none)
      ∷ (success, none)
      ∷ (success, some (message 0))
      ∷ []
unfolding run_port send receive
run_port-wrapped = refl

run_port-run_fifo_example : run_port wrapped calls ≡ run_fifo (contents wrapped) calls
run_port-run_fifo_example = run_port-run_fifo calls wrapped-IsValid
