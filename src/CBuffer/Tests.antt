-- ===== src/CBuffer/Tests.antt =====
-- The circular buffer of dev1-rs232-driver/rs232_tut-0.2/driver/cbuffer.c on concrete bytes: three
-- slots, so that the third byte does not fit and the indexes go around the end.
use operating_systems_assign.Prelude.{ℕ, ◌+◌, ◌-◌, ◌≡◌, refl, List, [], ◌∷◌, length, arith}
use operating_systems_assign.CBuffer.{
  CBuffer, is_empty, is_full, current_size, space_left, enqueue, dequeue, fill_loop, cbuffer_init,
}
use operating_systems_assign.CBuffer.Window.{window, contents}
use operating_systems_assign.CBuffer.Contents.{space_left-contents}
use operating_systems_assign.CBuffer.Fifo.{Call, enqueue_call, dequeue_call, run, run_fifo}
use operating_systems_assign.CBuffer.Refinement.{run-cbuffer_init}

abbrev allocated : List ℕ
allocated = 9 ∷ 9 ∷ 9 ∷ []

abbrev calls : List Call
calls =
    enqueue_call 65
    ∷ enqueue_call 66
    ∷ enqueue_call 67
    ∷ dequeue_call 0
    ∷ enqueue_call 68
    ∷ dequeue_call 0
    ∷ []

abbrev results : List (ℕ × ℕ)
results = (0, 65) ∷ (0, 66) ∷ (1, 67) ∷ (0, 65) ∷ (0, 68) ∷ (0, 66) ∷ []

calls-results : (run calls (cbuffer_init allocated 3)).0 ≡ results
unfolding run cbuffer_init fill_loop enqueue dequeue is_full is_empty
calls-results = refl

run-cbuffer_init_example :
    ((run calls (cbuffer_init allocated 3)).0, contents (run calls (cbuffer_init allocated 3)).1)
    ≡ run_fifo (3 - 1) calls []
run-cbuffer_init_example = run-cbuffer_init calls allocated 3 refl (omega arith)

-- Two bytes around the end of the array: 68 in front of it, 66 at its end.
abbrev wrapped : CBuffer
wrapped = record { cbuff = 68 ∷ 255 ∷ 66 ∷ []; size = 3; head = 1; tail = 2 }

wrapped-contents : contents wrapped ≡ 66 ∷ 68 ∷ []
unfolding contents window current_size
wrapped-contents = refl

space_left-contents_example :
    (current_size wrapped ≡ length (contents wrapped))
    × (space_left wrapped + length (contents wrapped) ≡ 3 - 1)
space_left-contents_example = space_left-contents wrapped (refl, omega arith, omega arith)
