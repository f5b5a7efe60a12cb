-- ===== src/Rs232.antt =====
-- dev1-rs232-driver/rs232_tut-0.2/driver/rs232_tp.c: the serial driver, between the programs that
-- read and write the device and the interrupts of the UART. The ports, the copies to and from the
-- memory of a program and the wait queue are the kernel's: what they give is an argument.
pub mod Bytes
pub mod Interrupts
pub mod Writing
pub mod Reading
mod Tests
use operating_systems_assign.Prelude.{
  ℕ, zero, suc, ◌+◌, ◌-◌, Bool, true, false, not, Option, none, some, List, [], ◌∷◌, ◌++◌, bit_and,
  ◌==◌, if◌then◌else◌, ◌>>=◌,
}
use operating_systems_assign.CBuffer.{CBuffer, cbuffer_init, is_empty, is_full, enqueue, dequeue}

-- The device and the global variables. `thr` is what has been put out to the transmit register, and
-- `config` are the other writes to ports, each with the number of its register.
pub record Driver : Type 0 where
  pub cbuf_in : CBuffer
  pub cbuf_out : CBuffer
  pub isr_called : ℕ
  pub last_iir : ℕ
  pub int_send : ℕ
  pub int_received : ℕ
  pub int_error : ℕ
  pub system_failed : Bool
  pub uart_initialized : ℕ
  pub empty_thr_from_isr : ℕ
  pub thr : List ℕ
  pub config : List (ℕ × ℕ)

abbrev pub register_ier : ℕ
register_ier = 1

-- The UART and the buffers are set up when the device is opened for the first time; kmalloc has
-- returned the bytes `fresh_in` and `fresh_out`. DLL shares its number with THR, DLM with IER.
pub rs232_tut_open : Driver → List ℕ → List ℕ → Driver
rs232_tut_open d fresh_in fresh_out =
    if d.uart_initialized + 1 == 1
    then (record d {
      uart_initialized = d.uart_initialized + 1;
      cbuf_in = cbuffer_init fresh_in 80;
      cbuf_out = cbuffer_init fresh_out 40;
      config =
          d.config
          ++ ((3, 128) ∷ (0, 12) ∷ (1, 0) ∷ (3, 3) ∷ (register_ier, 7) ∷ (2, 0) ∷ (4, 15) ∷ []);
    })
    else record d { uart_initialized = d.uart_initialized + 1 }

-- The buffers that are freed with the last file stay as they are here, and are not used again before
-- the next open.
pub rs232_tut_release : Driver → Driver
rs232_tut_release d =
    if d.uart_initialized - 1 == 0
    then (record d {
      uart_initialized = d.uart_initialized - 1;
      config = d.config ++ ((register_ier, 0) ∷ []);
    })
    else record d { uart_initialized = d.uart_initialized - 1 }

-- The first waiting byte goes to the transmit register; `none` is the failed dequeue.
unfoldable pub send_first : Driver → Option Driver
send_first d =
    let r = dequeue d.cbuf_out 0 in
    if r.0 == 0 then some (record d { cbuf_out = r.1.1; thr = d.thr ++ (r.1.0 ∷ []) }) else none

-- The case RS232_DATA_AVAIL. Where the buffer is full, cbuffer_dequeue is given the character that is
-- thrown away, which was never set, in the place of a pointer: `none` is the write through it.
unfoldable pub data_avail : Driver → ℕ → Option Driver
data_avail d received =
    if is_full d.cbuf_in
    then none
    else some
        (record d { int_received = d.int_received + 1; cbuf_in = (enqueue d.cbuf_in received).1 })

-- The case RS232_EMPTY_THR.
unfoldable pub empty_thr : Driver → Option Driver
empty_thr d =
    if is_empty d.cbuf_out
    then some (record d { int_send = d.int_send + 1; empty_thr_from_isr = 1 })
    else send_first (record d { int_send = d.int_send + 1 })

-- A reading of the identification register, and the byte that the receive register then holds.
unfoldable pub handle : Driver → ℕ → ℕ → Option Driver
handle d iir received =
    let cause = bit_and 6 iir in
    let seen : Driver = record d { last_iir = iir } in
    if cause == 4
    then data_avail seen received
    else if cause == 2
    then empty_thr seen
    else if cause == 6
    then some (record seen { int_error = d.int_error + 1 })
    else some seen

-- The loop of rs232_tut_isr over the readings of the identification register; behind the last one
-- nothing is pending.
unfoldable pub isr_loop : List (ℕ × ℕ) → Driver → Option Driver
isr_loop [] d = some d
isr_loop ((iir, received) ∷ readings) d =
    if bit_and 1 iir == 0 then (handle d iir received >>= isr_loop readings) else some d

unfoldable pub rs232_tut_isr : List (ℕ × ℕ) → Driver → Option Driver
rs232_tut_isr readings d =
    if d.system_failed
    then some d
    else isr_loop readings (record d { isr_called = d.isr_called + 1 })

-- The calls of a program share the device with the interrupts: no lock is held. `interrupts i p` is
-- what they do to the driver at the point p of round i, between two steps of the call. A step is a
-- call of a function of cbuffer.c, whose two ends are the program's and the handler's, or the
-- sending of a byte by hand: the UART has been idle since the flag empty_thr_from_isr was set, and
-- has no cause to take a byte before it has been given one.
module _ (interrupts : ℕ → ℕ → Driver → Driver) where
  -- The part of the loop of rs232_tut_write that finds a slot for a byte. Point 1 is behind the test for
  -- a full buffer, point 2 in wait_event_interruptible; `none` in the pair is the result -1.
  unfoldable pub make_room : ℕ → Driver → Bool × Driver
  make_room i d =
      let d₁ = interrupts i 1 d in
      if is_full d.cbuf_out
      then (if d₁.empty_thr_from_isr == 1
          then (elim (send_first (record d₁ { empty_thr_from_isr = 0 })) [
            | none ↦ (false, record d₁ { empty_thr_from_isr = 0 })
            | some sent ↦ (true, interrupts i 2 sent)
          ])
          else (true, interrupts i 2 d₁))
      else (true, d₁)

  -- A round of the loop of rs232_tut_write for the byte i, where `rest` is what the later rounds do: a
  -- status of copy_from_user other than 0 is `none`, and the byte otherwise. The result is the size,
  -- or `none` for -1. Point 0 is behind copy_from_user, point 3 behind the enqueue.
  unfoldable pub write_round :
      (Driver → Option ℕ × Driver) → Option ℕ → ℕ → Driver → Option ℕ × Driver
  write_round rest none i d = (some i, interrupts i 0 d)
  write_round rest (some c) i d =
      let room = make_room i (interrupts i 0 d) in
      let r = enqueue room.1.cbuf_out c in
      if not room.0
      then (none, room.1)
      else if r.0 == 0
      then rest (interrupts i 3 (record room.1 { cbuf_out = r.1 }))
      else (some i, interrupts i 3 room.1)

  -- The loop, n rounds from the byte i on.
  unfoldable pub write_loop : (ℕ → Option ℕ) → ℕ → ℕ → Driver → Option ℕ × Driver
  write_loop copy_from_user zero i d = (some i, d)
  write_loop copy_from_user (suc n) i d =
      write_round (write_loop copy_from_user n (i + 1)) (copy_from_user i) i d

  -- What the sending of a first byte by hand leaves behind and returns.
  unfoldable pub started : ℕ → Driver → Option Driver → Option ℕ × Driver
  started size d none = (none, d)
  started size d (some sent) = (some size, record sent { empty_thr_from_isr = 0 })

  -- The end of rs232_tut_write, which -1 in the loop does not reach: the first byte is sent by hand if
  -- the UART already waits for it.
  unfoldable pub start_sending : Option ℕ → Driver → Option ℕ × Driver
  start_sending none d = (none, d)
  start_sending (some size) d =
      if d.empty_thr_from_isr == 1 then started size d (send_first d) else (some size, d)

  unfoldable pub rs232_tut_write : (ℕ → Option ℕ) → ℕ → Driver → Option ℕ × Driver
  rs232_tut_write copy_from_user maximum_size d =
      let copied = write_loop copy_from_user maximum_size 0 d in start_sending copied.0 copied.1

  -- The loop of rs232_tut_read, n rounds from the place i of the program's buffer on: the size, the
  -- bytes that have reached the program, and the driver. copy_to_user tells whether its status is 0.
  -- Point 1 is behind the test for an empty buffer, point 2 behind the dequeue, point 3 behind
  -- copy_to_user.
  unfoldable pub read_loop : (ℕ → ℕ → Bool) → ℕ → ℕ → List ℕ → Driver → ℕ × (List ℕ × Driver)
  read_loop copy_to_user zero i copied d = (i, (copied, d))
  read_loop copy_to_user (suc n) i copied d =
      let d₁ = interrupts i 1 d in
      let r = dequeue d₁.cbuf_in 0 in
      let d₂ = interrupts i 2 (record d₁ { cbuf_in = r.1.1 }) in
      let rest = read_loop copy_to_user n (i + 1) (copied ++ (r.1.0 ∷ [])) (interrupts i 3 d₂) in
      if is_empty d.cbuf_in
      then (i, (copied, d₁))
      else if not (r.0 == 0)
      then (i, (copied, d₂))
      else if copy_to_user i r.1.0
      then rest
      else (i, (copied, d₂))

  -- rs232_tut_read; what interrupts do while it sleeps, or where it need not sleep, is at point 0 of
  -- round 0.
  unfoldable pub rs232_tut_read : (ℕ → ℕ → Bool) → ℕ → Driver → ℕ × (List ℕ × Driver)
  rs232_tut_read copy_to_user maximum_size d =
      read_loop copy_to_user maximum_size 0 [] (interrupts 0 0 d)
