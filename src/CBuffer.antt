-- ===== src/CBuffer.antt =====
-- dev1-rs232-driver/rs232_tut-0.2/driver/cbuffer.c and cbuffer.h: the circular buffer of bytes
-- between the device and the programs. One slot stays free, so that a full buffer differs from an
-- empty one. Head, tail and size are ints that are not negative, and the sums do not overflow below
-- 2^30 slots.
pub mod Window
pub mod Fifo
pub mod Contents
pub mod Refinement
mod Tests
use operating_systems_assign.Prelude.{
  ℕ, zero, suc, ◌+◌, ◌-◌, ◌%◌, ◌<◌, ◌≡◌, Bool, List, ◌==◌, if◌then◌else◌, length, get_or, set,
}

pub record CBuffer : Type 0 where
  pub cbuff : List ℕ
  pub size : ℕ
  pub head : ℕ
  pub tail : ℕ

-- The loop of cbuffer_init: n rounds from the index i on.
pub fill_loop : ℕ → ℕ → List ℕ → List ℕ
fill_loop i zero cells = cells
fill_loop i (suc n) cells = fill_loop (i + 1) n (set cells i 32)

-- cbuffer_init, where kmalloc has returned the bytes `cells`.
pub cbuffer_init : List ℕ → ℕ → CBuffer
cbuffer_init cells size = record { cbuff = fill_loop 0 size cells; size = size; head = 0; tail = 0 }

unfoldable pub is_empty : CBuffer → Bool
is_empty cb = cb.head == cb.tail

unfoldable pub is_full : CBuffer → Bool
is_full cb = let next_to_head = (cb.head + 1) % cb.size in next_to_head == cb.tail

-- The sum is written so that no part of it is negative.
unfoldable pub current_size : CBuffer → ℕ
current_size cb = (cb.head + cb.size - cb.tail) % cb.size

unfoldable pub space_left : CBuffer → ℕ
space_left cb =
    if is_empty cb then cb.size - 1 else if is_full cb then 0 else cb.size - current_size cb - 1

-- The status and the buffer.
unfoldable pub enqueue : CBuffer → ℕ → ℕ × CBuffer
enqueue cb byte =
    if is_full cb
    then (1, cb)
    else (0, record cb { cbuff = set cb.cbuff cb.head byte; head = (cb.head + 1) % cb.size })

-- The status, `*byte` and the buffer, where `*byte` was `byte`.
unfoldable pub dequeue : CBuffer → ℕ → ℕ × (ℕ × CBuffer)
dequeue cb byte = if is_empty cb then (1, (byte, cb)) else (
  0,
  (
    get_or cb.cbuff cb.tail 0,
    record cb { cbuff = set cb.cbuff cb.tail 255; tail = (cb.tail + 1) % cb.size },
  ),
)

-- The array has `size` bytes, and both ends are inside it.
abbrev pub IsValid : CBuffer → Type 0
IsValid cb = (length cb.cbuff ≡ cb.size) × (cb.head < cb.size) × (cb.tail < cb.size)
