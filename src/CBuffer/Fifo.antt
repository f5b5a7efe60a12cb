-- ===== src/CBuffer/Fifo.antt =====
-- What the circular buffer of dev1-rs232-driver/rs232_tut-0.2/driver/cbuffer.c promises: a queue of
-- bytes, oldest first, that holds at most `capacity` of them.
use operating_systems_assign.Prelude.{ℕ, List, [], ◌∷◌, ◌++◌, ◌==◌, if◌then◌else◌, length}
use operating_systems_assign.CBuffer.{CBuffer}
use operating_systems_assign.CBuffer

unfoldable pub put : ℕ → List ℕ → ℕ → ℕ × List ℕ
put capacity queue byte = if length queue == capacity then (1, queue) else (0, queue ++ (byte ∷ []))

unfoldable pub take_off : List ℕ → ℕ → ℕ × (ℕ × List ℕ)
take_off [] byte = (1, (byte, []))
take_off (b ∷ queue) byte = (0, (b, queue))

-- A call of a client, with the byte that it passes or that its variable holds before.
pub data Call : Type 0 where
  enqueue_call : ℕ → Call
  dequeue_call : ℕ → Call

-- The results of the calls in their order (a status, and the byte in the variable behind a call of
-- dequeue), and the buffer behind the last one.
unfoldable pub run : List Call → CBuffer → List (ℕ × ℕ) × CBuffer
run [] cb = ([], cb)
run (enqueue_call b ∷ calls) cb =
    let r = CBuffer.enqueue cb b in let rest = run calls r.1 in ((r.0, b) ∷ rest.0, rest.1)
run (dequeue_call b ∷ calls) cb =
    let r = CBuffer.dequeue cb b in let rest = run calls r.1.1 in ((r.0, r.1.0) ∷ rest.0, rest.1)

-- The same on the queue.
unfoldable pub run_fifo : ℕ → List Call → List ℕ → List (ℕ × ℕ) × List ℕ
run_fifo capacity [] queue = ([], queue)
run_fifo capacity (enqueue_call b ∷ calls) queue =
    let r = put capacity queue b in
    let rest = run_fifo capacity calls r.1 in ((r.0, b) ∷ rest.0, rest.1)
run_fifo capacity (dequeue_call b ∷ calls) queue =
    let r = take_off queue b in
    let rest = run_fifo capacity calls r.1.1 in ((r.0, r.1.0) ∷ rest.0, rest.1)
