-- ===== src/Nk/Queue.antt =====
-- What a message port promises: a FIFO of at most 32 messages.
use ntx_preview.Base.{
  Option, none, some, List, [], ◌∷◌, ◌++◌, if◌then◌else◌, ltb, leb, length, Status, success,
  invalid_parameter, init_failed,
}
use ntx_preview.Nk.{Message, queue_depth, payload_bytes}

abbrev pub Fifo : Type 0
Fifo = List Message

-- A message that is too long is refused before a full queue is.
unfoldable pub enqueue : Message → Fifo → Status × Fifo
enqueue m q =
    if ltb payload_bytes m.length
    then (invalid_parameter, q)
    else if leb queue_depth (length q)
    then (init_failed, q)
    else (success, q ++ (m ∷ []))

unfoldable pub dequeue : Fifo → Status × Option Message × Fifo
dequeue [] = (init_failed, none, [])
dequeue (m ∷ q) = (success, some m, q)
