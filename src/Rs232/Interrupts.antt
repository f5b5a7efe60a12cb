-- ===== src/Rs232/Interrupts.antt =====
-- The interrupts of the UART, handled by rs232_tut_isr of
-- dev1-rs232-driver/rs232_tut-0.2/driver/rs232_tp.c.
use operating_systems_assign.Prelude.{
  ℕ, ◌+◌, ◌-◌, ◌≤◌, ◌<◌, ◌≡◌, refl, sym, ap, ◌∙◌, inl, inr, true, false, none, some, List, [], ◌∷◌,
  ◌++◌, bit_and, ◌==◌, ==_iff, if◌then◌else◌, Bool-cases, lt-cases, length, length-append, arith,
}
use mathlib.Core.List.{append-nil, append_assoc}
use operating_systems_assign.CBuffer.{CBuffer, is_full, is_empty, space_left, enqueue, IsValid}
use operating_systems_assign.CBuffer.Window.{contents}
use operating_systems_assign.CBuffer.Contents.{
  is_full-length, enqueue-IsValid, enqueue-size, space_left-contents,
}
use operating_systems_assign.Rs232.{Driver, data_avail, empty_thr, handle, isr_loop, rs232_tut_isr}
use operating_systems_assign.Rs232.Bytes.{stream, IsOpen, Progress, enqueue_room, send_first_lem}

-- The bytes that a reading delivers.
unfoldable pub delivered : ℕ → ℕ → List ℕ
delivered iir b = if bit_and 6 iir == 4 then b ∷ [] else []

-- Those that the readings deliver before nothing is pending.
unfoldable pub received : List (ℕ × ℕ) → List ℕ
received [] = []
received ((iir, b) ∷ readings) =
    let rest = received readings in if bit_and 1 iir == 0 then delivered iir b ++ rest else []

one_delivered : (iir b : ℕ) → (bit_and 6 iir == 4) ≡ true → delivered iir b ≡ b ∷ []
unfolding delivered
one_delivered iir b e = rw e refl

none_delivered : (iir b : ℕ) → (bit_and 6 iir == 4) ≡ false → delivered iir b ≡ []
unfolding delivered
none_delivered iir b e = rw e refl

no-Progress : (d : Driver) → IsOpen d → Progress d [] d
no-Progress d o = (o, refl, sym (append-nil (contents d.cbuf_in)), refl)

data_avail_lem :
    (d : Driver) (b : ℕ)
    → IsOpen d
    → is_full d.cbuf_in ≡ false
    → (d' : Driver) × (data_avail d b ≡ some d') × Progress d (b ∷ []) d'
unfolding data_avail
data_avail_lem d b (vi, vo, h) e = (
  record d { int_received = d.int_received + 1; cbuf_in = (enqueue d.cbuf_in b).1 },
  rw e refl,
  (
    (enqueue-IsValid d.cbuf_in b vi, vo, h),
    refl,
    (enqueue_room d.cbuf_in b vi e).1,
    enqueue-size d.cbuf_in b,
  ),
)

empty_thr_lem : (d : Driver) → IsOpen d → (d' : Driver) × (empty_thr d ≡ some d') × Progress d [] d'
unfolding empty_thr
empty_thr_lem d o = elim (Bool-cases (is_empty d.cbuf_out)) [
  | inl e ↦
      (record d { int_send = d.int_send + 1; empty_thr_from_isr = 1 }, rw e refl, no-Progress d o)
  | inr e ↦
      let counted : Driver = record d { int_send = d.int_send + 1 } in
      let (d', sent, o', same, input) = send_first_lem counted o e in
      (
        d',
        rw e sent,
        (o', same, rw input (sym (append-nil (contents d.cbuf_in))), ap (λ cb. cb.size) input),
      )
]

pub room_for_one :
    (cb : CBuffer) → IsValid cb → length (contents cb) < cb.size - 1 → is_full cb ≡ false
room_for_one cb v h = is_full-length cb v ∙ ground (arith, h)

handle_lem :
    (d : Driver) (iir b : ℕ)
    → IsOpen d
    → length (contents d.cbuf_in) + length (delivered iir b) ≤ d.cbuf_in.size - 1
    → (d' : Driver) × (handle d iir b ≡ some d') × Progress d (delivered iir b) d'
unfolding handle delivered
handle_lem d iir b o room =
    let seen : Driver = record d { last_iir = iir } in
    let rest : (bit_and 6 iir == 4) ≡ true → length (contents d.cbuf_in) < d.cbuf_in.size - 1 =
      λ e. omega (arith, room, ap length (one_delivered iir b e)) in
    elim (Bool-cases (bit_and 6 iir == 4)) [
      | inl e ↦ rw e (data_avail_lem seen b o (room_for_one d.cbuf_in o.0 (rest e)))
      | inr e ↦ rw e (elim (Bool-cases (bit_and 6 iir == 2)) [
        | inl f ↦ rw f (empty_thr_lem seen o)
        | inr f ↦ rw f (elim (Bool-cases (bit_and 6 iir == 6)) [
          | inl g ↦ rw g (record seen { int_error = d.int_error + 1 }, refl, no-Progress d o)
          | inr g ↦ rw g (seen, refl, no-Progress d o)
        ])
      ])
    ]

further :
    (d d' d'' : Driver) (bs cs : List ℕ)
    → Progress d bs d'
    → Progress d' cs d''
    → Progress d (bs ++ cs) d''
further d d' d'' bs cs (o, s, i, z) (o', s', i', z') =
    (o', s' ∙ s, i' ∙ ap (λ q. q ++ cs) i ∙ append_assoc (contents d.cbuf_in) bs cs, z' ∙ z)

received_cons :
    (iir b : ℕ) (readings : List (ℕ × ℕ))
    → (bit_and 1 iir == 0) ≡ true
    → received ((iir, b) ∷ readings) ≡ delivered iir b ++ received readings
unfolding received
received_cons iir b readings e = rw e refl

received_end :
    (iir b : ℕ) (readings : List (ℕ × ℕ))
    → (bit_and 1 iir == 0) ≡ false
    → received ((iir, b) ∷ readings) ≡ []
unfolding received
received_end iir b readings e = rw e refl

nothing_received : received [] ≡ []
unfolding received
nothing_received = refl

isr_loop_lem :
    (readings : List (ℕ × ℕ)) (d : Driver)
    → IsOpen d
    → length (contents d.cbuf_in) + length (received readings) ≤ d.cbuf_in.size - 1
    → (d' : Driver) × (isr_loop readings d ≡ some d') × Progress d (received readings) d'
unfolding isr_loop received
isr_loop_lem [] d o room = (d, refl, no-Progress d o)
isr_loop_lem ((iir, b) ∷ readings) d o room = elim (Bool-cases (bit_and 1 iir == 0)) [
  | inr e ↦ rw e (d, refl, no-Progress d o)
  | inl e ↦
      let here = received_cons iir b readings e in
      let all = ap length here ∙ length-append (delivered iir b) (received readings) in
      let (d₁, handled, p₁) = handle_lem d iir b o (omega (arith, room, all)) in
      let fill = ap length p₁.2 ∙ length-append (contents d.cbuf_in) (delivered iir b) in
      let (d₂, looped, p₂) = isr_loop_lem readings d₁ p₁.0 (omega (arith, room, all, fill, p₁.3)) in
      rw (e, handled) (d₂, looped, further d d₁ d₂ (delivered iir b) (received readings) p₁ p₂)
]

isr_running :
    (readings : List (ℕ × ℕ)) (d : Driver)
    → d.system_failed ≡ false
    → rs232_tut_isr readings d ≡ isr_loop readings (record d { isr_called = d.isr_called + 1 })
unfolding rs232_tut_isr
isr_running readings d f =
    ap
      (λ failed.
        if failed then some d else isr_loop readings (record d { isr_called = d.isr_called + 1 }))
      f

-- Readings of the identification register that deliver at most as many bytes as cbuf_in has space
-- left, while the driver is open and has not failed: the handler returns, the bytes wait in cbuf_in
-- in their order behind those before, what was sent and what waits in cbuf_out are together
-- unchanged, and the buffers stay valid.
pub rs232_tut_isr-received :
    (readings : List (ℕ × ℕ)) (d : Driver)
    → IsOpen d
    → d.system_failed ≡ false
    → length (received readings) ≤ space_left d.cbuf_in
    → (d' : Driver) × (rs232_tut_isr readings d ≡ some d')
      × IsOpen d'
      × (stream d' ≡ stream d)
      × (contents d'.cbuf_in ≡ contents d.cbuf_in ++ received readings)
rs232_tut_isr-received readings d o f h =
    let counted : Driver = record d { isr_called = d.isr_called + 1 } in
    let space = (space_left-contents d.cbuf_in o.0).1 in
    let (d', run, p) = isr_loop_lem readings counted o (omega (arith, h, space)) in
    (d', isr_running readings d f ∙ run, p.0, p.1, p.2)

too_many :
    (d : Driver) (iir b : ℕ)
    → IsOpen d
    → d.cbuf_in.size - 1 < length (contents d.cbuf_in) + length (delivered iir b)
    → handle d iir b ≡ none
unfolding handle delivered data_avail
too_many d iir b o h =
    let space = (space_left-contents d.cbuf_in o.0).1 in
    elim (Bool-cases (bit_and 6 iir == 4)) [
      | inr e ↦ absurd (omega (arith, space, h, ap length (none_delivered iir b e)))
      | inl e ↦
          let full : is_full d.cbuf_in ≡ true =
            is_full-length d.cbuf_in o.0
            ∙ (==_iff (length (contents d.cbuf_in)) (d.cbuf_in.size - 1)).1
                (omega (arith, space, h, ap length (one_delivered iir b e))) in
          rw (e, full) refl
    ]

isr_loop_overrun :
    (readings : List (ℕ × ℕ)) (d : Driver)
    → IsOpen d
    → d.cbuf_in.size - 1 < length (contents d.cbuf_in) + length (received readings)
    → isr_loop readings d ≡ none
unfolding isr_loop
isr_loop_overrun [] d o h =
    absurd (omega (arith, h, ap length nothing_received, (space_left-contents d.cbuf_in o.0).1))
isr_loop_overrun ((iir, b) ∷ readings) d o h =
    let space = (space_left-contents d.cbuf_in o.0).1 in
    elim (Bool-cases (bit_and 1 iir == 0)) [
      | inr e ↦ absurd (omega (arith, space, h, ap length (received_end iir b readings e)))
      | inl e ↦
          let here = received_cons iir b readings e in
          let all = ap length here ∙ length-append (delivered iir b) (received readings) in
          elim (lt-cases (d.cbuf_in.size - 1)
            (length (contents d.cbuf_in) + length (delivered iir b))) [
              | inl l ↦ rw (e, too_many d iir b o l) refl
              | inr g ↦
                  let (d₁, handled, p₁) = handle_lem d iir b o g in
                  let fill =
                    ap length p₁.2 ∙ length-append (contents d.cbuf_in) (delivered iir b) in
                  rw (e, handled)
                    (isr_loop_overrun readings d₁ p₁.0 (omega (arith, h, all, fill, p₁.3)))
            ]
    ]

-- Readings that deliver more bytes than cbuf_in has space left, while the driver is open and has not
-- failed, make the handler write through a character that was never set as if it were a pointer.
pub rs232_tut_isr_overrun :
    (readings : List (ℕ × ℕ)) (d : Driver)
    → IsOpen d
    → d.system_failed ≡ false
    → space_left d.cbuf_in < length (received readings)
    → rs232_tut_isr readings d ≡ none
rs232_tut_isr_overrun readings d o f h =
    let counted : Driver = record d { isr_called = d.isr_called + 1 } in
    let space = (space_left-contents d.cbuf_in o.0).1 in
    isr_running readings d f ∙ isr_loop_overrun readings counted o (omega (arith, h, space))
