-- ===== src/CBuffer/Refinement.antt =====
-- The circular buffer of dev1-rs232-driver/rs232_tut-0.2/driver/cbuffer.c against the queue of
-- CBuffer.Fifo.
use operating_systems_assign.Prelude.{
  ℕ, zero, suc, ◌+◌, ◌-◌, ◌<◌, ◌≡◌, refl, ap, ◌∙◌, List, [], ◌∷◌, length, set, length-set,
}
use operating_systems_assign.CBuffer.{
  CBuffer, is_empty, enqueue, dequeue, fill_loop, cbuffer_init, IsValid,
}
use operating_systems_assign.CBuffer.Window.{contents}
use operating_systems_assign.CBuffer.Contents.{
  enqueue-contents, dequeue-contents, enqueue-IsValid, dequeue-IsValid, enqueue-size, dequeue-size,
  empty-contents,
}
use operating_systems_assign.CBuffer.Fifo.{Call, enqueue_call, dequeue_call, run, run_fifo}

-- All calls of a client, from any valid buffer on: the same results as from the queue, and the same
-- queue at the end.
run_from :
    (calls : List Call) (cb : CBuffer)
    → IsValid cb
    → ((run calls cb).0, contents (run calls cb).1) ≡ run_fifo (cb.size - 1) calls (contents cb)
unfolding run run_fifo
run_from [] cb v = refl
run_from (enqueue_call b ∷ calls) cb v =
    let r = enqueue cb b in
    let later =
      run_from calls r.1 (enqueue-IsValid cb b v)
      ∙ ap (λ n. run_fifo (n - 1) calls (contents r.1)) (enqueue-size cb b) in
    ap (λ x. ((r.0, b) ∷ x.0, x.1)) later
    ∙ ap (λ x. let rest = run_fifo (cb.size - 1) calls x.1 in ((x.0, b) ∷ rest.0, rest.1))
        (enqueue-contents cb b v)
run_from (dequeue_call b ∷ calls) cb v =
    let r = dequeue cb b in
    let later =
      run_from calls r.1.1 (dequeue-IsValid cb b v)
      ∙ ap (λ n. run_fifo (n - 1) calls (contents r.1.1)) (dequeue-size cb b) in
    ap (λ x. ((r.0, r.1.0) ∷ x.0, x.1)) later
    ∙ ap (λ x. let rest = run_fifo (cb.size - 1) calls x.1.1 in ((x.0, x.1.0) ∷ rest.0, rest.1))
        (dequeue-contents cb b v)

length-fill_loop : (i n : ℕ) (cells : List ℕ) → length (fill_loop i n cells) ≡ length cells
unfolding fill_loop
length-fill_loop i zero cells = refl
length-fill_loop i (suc n) cells =
    length-fill_loop (i + 1) n (set cells i 32) ∙ length-set cells i 32

cbuffer_init-IsValid :
    (cells : List ℕ) (size : ℕ) → length cells ≡ size → 0 < size → IsValid (cbuffer_init cells size)
unfolding cbuffer_init
cbuffer_init-IsValid cells size l h = (length-fill_loop 0 size cells ∙ l, h, h)

contents-cbuffer_init :
    (cells : List ℕ) (size : ℕ)
    → length cells ≡ size
    → 0 < size
    → contents (cbuffer_init cells size) ≡ []
unfolding cbuffer_init is_empty
contents-cbuffer_init cells size l h =
    empty-contents (cbuffer_init cells size) (cbuffer_init-IsValid cells size l h) refl

-- Any sequence of calls of cbuffer_enqueue and cbuffer_dequeue on a new buffer of `size` slots, at
-- least one, gives the statuses and the bytes that a queue of capacity `size - 1` gives, and leaves
-- the bytes of that queue in the buffer.
pub run-cbuffer_init :
    (calls : List Call) (cells : List ℕ) (size : ℕ)
    → length cells ≡ size
    → 0 < size
    → ((run calls (cbuffer_init cells size)).0, contents (run calls (cbuffer_init cells size)).1)
      ≡ run_fifo (size - 1) calls []
unfolding cbuffer_init
run-cbuffer_init calls cells size l h =
    run_from calls (cbuffer_init cells size) (cbuffer_init-IsValid cells size l h)
    ∙ ap (run_fifo (size - 1) calls) (contents-cbuffer_init cells size l h)
