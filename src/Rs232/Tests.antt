-- ===== src/Rs232/Tests.antt =====
-- The driver of dev1-rs232-driver/rs232_tut-0.2/driver/rs232_tp.c with buffers of three slots.
use operating_systems_assign.Prelude.{
  ℕ, ◌+◌, ◌≤◌, ◌<◌, ◌≡◌, refl, sym, ◌&&◌, ◌==◌, ◌⊎◌, inl, inr, Bool, true, false, Option, none,
  some, List, [], ◌∷◌, ◌++◌, if◌then◌else◌, Bool-cases, length, arith,
}
use operating_systems_assign.CBuffer.{
  CBuffer, is_empty, is_full, space_left, current_size, enqueue, dequeue, IsValid,
}
use operating_systems_assign.CBuffer.Window.{contents, window}
use operating_systems_assign.CBuffer.Contents.{enqueue-IsValid, enqueue-size, space_left-contents}
use operating_systems_assign.Rs232.{
  Driver, send_first, empty_thr, handle, isr_loop, rs232_tut_isr, make_room, write_round,
  write_loop, started, start_sending, rs232_tut_write, rs232_tut_read,
}
use operating_systems_assign.Rs232.Bytes.{stream, IsOpen, enqueue_room}
use operating_systems_assign.Rs232.Interrupts.{
  delivered, received, room_for_one, rs232_tut_isr-received, rs232_tut_isr_overrun,
}
use mathlib.Core.List.{append-nil}
use operating_systems_assign.Rs232.Reading.{arrived, Fits, Delivers, rs232_tut_read_lem}

abbrev empty_buffer : CBuffer
empty_buffer = record { cbuff = 32 ∷ 32 ∷ 32 ∷ []; size = 3; head = 0; tail = 0 }

abbrev two_bytes : CBuffer
two_bytes = record { cbuff = 65 ∷ 66 ∷ 32 ∷ []; size = 3; head = 2; tail = 0 }

abbrev opened : CBuffer → Driver
opened input = record {
  cbuf_in = input;
  cbuf_out = empty_buffer;
  isr_called = 0;
  last_iir = 0;
  int_send = 0;
  int_received = 0;
  int_error = 0;
  system_failed = false;
  uart_initialized = 1;
  empty_thr_from_isr = 1;
  thr = [];
  config = [];
}

opened-IsOpen : IsOpen (opened empty_buffer)
opened-IsOpen = ((refl, omega arith, omega arith), (refl, omega arith, omega arith), omega arith)

full-IsOpen : IsOpen (opened two_bytes)
full-IsOpen = ((refl, omega arith, omega arith), (refl, omega arith, omega arith), omega arith)

-- Two bytes arrive, and then nothing is pending.
abbrev arrivals : List (ℕ × ℕ)
arrivals = (4, 72) ∷ (6, 0) ∷ (4, 73) ∷ (1, 0) ∷ []

arrivals_fit : length (received arrivals) ≤ space_left (opened empty_buffer).cbuf_in
unfolding received delivered space_left is_empty
arrivals_fit = omega arith

rs232_tut_isr-received_example :
    (d' : Driver) × (rs232_tut_isr arrivals (opened empty_buffer) ≡ some d')
    × IsOpen d'
    × (stream d' ≡ stream (opened empty_buffer))
    × (contents d'.cbuf_in ≡ contents (opened empty_buffer).cbuf_in ++ received arrivals)
rs232_tut_isr-received_example =
    rs232_tut_isr-received arrivals (opened empty_buffer) opened-IsOpen refl arrivals_fit

arrivals_do_not_fit : space_left (opened two_bytes).cbuf_in < length (received arrivals)
unfolding received delivered space_left is_empty is_full
arrivals_do_not_fit = omega arith

rs232_tut_isr_overrun_example : rs232_tut_isr arrivals (opened two_bytes) ≡ none
rs232_tut_isr_overrun_example =
    rs232_tut_isr_overrun arrivals (opened two_bytes) full-IsOpen refl arrivals_do_not_fit

-- The UART reports that it is idle while a writer sleeps.
abbrev after_isr : Driver → Option Driver → Driver
after_isr d none = d
after_isr d (some d') = d'

abbrev nap : Driver → Driver
nap d = after_isr d (rs232_tut_isr ((2, 0) ∷ []) d)

-- So it does at every point of a call.
abbrev naps : ℕ → ℕ → Driver → Driver
naps i p d = nap d

-- Four bytes through a buffer that holds two.
abbrev message : ℕ → Option ℕ
message i = some (65 + i)

-- The interrupts send each byte before the next one is there.
message_sent : (rs232_tut_write naps message 4 (opened empty_buffer)).1.thr ≡ 65 ∷ 66 ∷ 67 ∷ 68 ∷ []
unfolding rs232_tut_write write_loop write_round make_room send_first start_sending started
    rs232_tut_isr isr_loop handle empty_thr enqueue dequeue is_full is_empty
message_sent = refl

-- A program that writes one byte, while the UART reports that it is idle between the two last steps,
-- gets -1, and the byte has been sent.
failed_though_sent : (rs232_tut_write naps message 1 (opened empty_buffer)).0 ≡ none
unfolding rs232_tut_write write_loop write_round make_room send_first start_sending started
    rs232_tut_isr isr_loop handle empty_thr enqueue dequeue is_full is_empty
failed_though_sent = refl

abbrev copies_all : ℕ → ℕ → Bool
copies_all i b = true

abbrev one_byte : CBuffer
one_byte = record { cbuff = 65 ∷ 32 ∷ 32 ∷ []; size = 3; head = 1; tail = 0 }

one_byte-IsValid : IsValid one_byte
one_byte-IsValid = (refl, omega arith, omega arith)

-- A byte arrives behind the test of the first round for an empty buffer.
abbrev is_there : ℕ → ℕ → Bool
is_there i p = i == 0 && p == 1

abbrev one_arrives : ℕ → ℕ → List ℕ
one_arrives i p = if is_there i p then 66 ∷ [] else []

abbrev arrives : ℕ → ℕ → Driver → Driver
arrives i p d = if is_there i p then record d { cbuf_in = (enqueue d.cbuf_in 66).1 } else d

arrives-Delivers : Delivers one_arrives arrives
arrives-Delivers i p d v fits = elim (Bool-cases (is_there i p)) [
  | inr e ↦ rw e (v, sym (append-nil (contents d.cbuf_in)), refl)
  | inl e ↦
      let one : length (one_arrives i p) ≡ 1 = rw e refl in
      let room =
        room_for_one d.cbuf_in v (omega (arith, fits, one, (space_left-contents d.cbuf_in v).1)) in
      rw e (
        enqueue-IsValid d.cbuf_in 66 v,
        (enqueue_room d.cbuf_in 66 v room).1,
        enqueue-size d.cbuf_in 66,
      )
]

one_byte-Fits : Fits (length (one_arrives 0 0) + length (arrived one_arrives 0 5)) (opened one_byte)
unfolding arrived contents window current_size
one_byte-Fits = omega arith

rs232_tut_read_lem_example :
    (bs : List ℕ) × ((rs232_tut_read arrives copies_all 5 (opened one_byte)).0 ≡ length bs)
    × ((rs232_tut_read arrives copies_all 5 (opened one_byte)).1.0 ≡ bs)
    × IsValid (rs232_tut_read arrives copies_all 5 (opened one_byte)).1.1.cbuf_in
    × (((length bs ≡ 5)
          × (bs ++ contents (rs232_tut_read arrives copies_all 5 (opened one_byte)).1.1.cbuf_in
              ≡ (contents one_byte ++ one_arrives 0 0) ++ arrived one_arrives 0 5))
        ⊎ ((length bs < 5)
            × (bs ≡ (contents one_byte ++ one_arrives 0 0) ++ arrived one_arrives 0 (length bs))
            × (contents (rs232_tut_read arrives copies_all 5 (opened one_byte)).1.1.cbuf_in
                ≡ one_arrives (0 + length bs) 1)))
rs232_tut_read_lem_example =
    rs232_tut_read_lem copies_all (λ i b. refl) one_arrives arrives arrives-Delivers 5
      (opened one_byte) one_byte-IsValid one_byte-Fits
