-- ===== src/Rs232/Reading.antt =====
-- rs232_tut_read of dev1-rs232-driver/rs232_tut-0.2/driver/rs232_tp.c.
use operating_systems_assign.Prelude.{
  ℕ, zero, suc, ◌+◌, ◌-◌, ◌≤◌, ◌<◌, ◌≡◌, refl, sym, ap, subst, ◌∙◌, ◌⊎◌, inl, inr, Bool, true,
  false, List, [], ◌∷◌, ◌++◌, Bool-cases, length, length-append, arith,
}
use mathlib.Core.List.{append-nil, append_assoc}
use operating_systems_assign.CBuffer.{CBuffer, is_empty, dequeue, IsValid}
use operating_systems_assign.CBuffer.Window.{contents}
use operating_systems_assign.CBuffer.Contents.{empty-contents, dequeue-IsValid, dequeue-size}
use operating_systems_assign.Rs232.{Driver, read_loop, rs232_tut_read}
use operating_systems_assign.Rs232.Bytes.{dequeue_first}

-- The bytes that arrive in n rounds from round i on, where `arrivals i p` are those at a point.
unfoldable pub arrived : (ℕ → ℕ → List ℕ) → ℕ → ℕ → List ℕ
arrived arrivals i zero = []
arrived arrivals i (suc n) =
    arrivals i 1 ++ (arrivals i 2 ++ (arrivals i 3 ++ arrived arrivals (i + 1) n))

-- There is space for k more bytes.
abbrev pub Fits : ℕ → Driver → Type 0
Fits k d = length (contents d.cbuf_in) + k ≤ d.cbuf_in.size - 1

-- The bytes `bs` have been put behind those that wait.
abbrev pub Receives : List ℕ → Driver → Driver → Type 0
Receives bs d d' =
    IsValid d'.cbuf_in
    × (contents d'.cbuf_in ≡ contents d.cbuf_in ++ bs)
    × (d'.cbuf_in.size ≡ d.cbuf_in.size)

-- Interrupts put what arrives behind the bytes that wait, while there is space for it.
abbrev pub Delivers : (ℕ → ℕ → List ℕ) → (ℕ → ℕ → Driver → Driver) → Type 0
Delivers arrivals interrupts =
    (i p : ℕ) (d : Driver)
    → IsValid d.cbuf_in
    → Fits (length (arrivals i p)) d
    → Receives (arrivals i p) d (interrupts i p d)

module _ (copy_to_user : ℕ → ℕ → Bool) (copies : (i b : ℕ) → copy_to_user i b ≡ true)
    (arrivals : ℕ → ℕ → List ℕ) (interrupts : ℕ → ℕ → Driver → Driver)
    (delivers : Delivers arrivals interrupts) where
  -- The bytes that n rounds move from the waiting ones to the program, and those that are left: n
  -- bytes of what waits and arrives, or, before an empty buffer, all that waited and arrived.
  abbrev Moved : ℕ → ℕ → List ℕ → List ℕ → List ℕ → Type 0
  Moved n i waiting bs left =
      ((length bs ≡ n) × (bs ++ left ≡ waiting ++ arrived arrivals i n))
      ⊎ ((length bs < n)
          × (bs ≡ waiting ++ arrived arrivals i (length bs))
          × (left ≡ arrivals (i + length bs) 1))

  abbrev Loop : ℕ → ℕ → List ℕ → Driver → ℕ × (List ℕ × Driver) → Type 0
  Loop n i copied d r =
      (bs : List ℕ) × (r.0 ≡ i + length bs)
      × (r.1.0 ≡ copied ++ bs)
      × IsValid r.1.1.cbuf_in
      × Moved n i (contents d.cbuf_in) bs (contents r.1.1.cbuf_in)

  -- The first byte of what waits, then what arrives in three points, and what follows.
  joined :
      (c : ℕ) (waiting taken a₁ a₂ a₃ rest bs : List ℕ)
      → waiting ++ a₁ ≡ c ∷ taken
      → bs ≡ ((taken ++ a₂) ++ a₃) ++ rest
      → c ∷ bs ≡ waiting ++ (a₁ ++ (a₂ ++ (a₃ ++ rest)))
  joined c waiting taken a₁ a₂ a₃ rest bs e f =
      ap (λ q. c ∷ q) (f ∙ append_assoc (taken ++ a₂) a₃ rest ∙ append_assoc taken a₂ (a₃ ++ rest))
      ∙ ap (λ q. q ++ (a₂ ++ (a₃ ++ rest))) (sym e)
      ∙ append_assoc waiting a₁ (a₂ ++ (a₃ ++ rest))

  not_empty :
      (d d₁ : Driver) (bs : List ℕ)
      → IsValid d.cbuf_in
      → is_empty d.cbuf_in ≡ false
      → Receives bs d d₁
      → is_empty d₁.cbuf_in ≡ false
  not_empty d d₁ bs v e (v₁, all, same) = elim (Bool-cases (is_empty d₁.cbuf_in)) [
    | inr f ↦ f
    | inl f ↦
        let none_left = sym (empty-contents d₁.cbuf_in v₁ f) ∙ all in
        absurd (
          omega (
            arith,
            ap length none_left,
            length-append (contents d.cbuf_in) bs,
            ap length (dequeue_first d.cbuf_in 0 v e).1,
          ))
  ]

  -- What is left of the space in a round, behind each of its points.
  round_lengths :
      (n i : ℕ)
      → length (arrived arrivals i (suc n))
        ≡ length (arrivals i 1)
          + (length (arrivals i 2) + (length (arrivals i 3) + length (arrived arrivals (i + 1) n)))
  unfolding arrived
  round_lengths n i =
      let later = arrived arrivals (i + 1) n in
      length-append (arrivals i 1) (arrivals i 2 ++ (arrivals i 3 ++ later))
      ∙ ap (λ k. length (arrivals i 1) + k)
          (length-append (arrivals i 2) (arrivals i 3 ++ later)
            ∙ ap (λ k. length (arrivals i 2) + k) (length-append (arrivals i 3) later))

  -- A round that reads a byte: what it takes off, and the driver behind its interrupts.
  abbrev dequeued : ℕ → Driver → ℕ × (ℕ × CBuffer)
  dequeued i d = dequeue (interrupts i 1 d).cbuf_in 0

  abbrev behind_round : ℕ → Driver → Driver
  behind_round i d =
      interrupts i 3 (interrupts i 2 (record (interrupts i 1 d) { cbuf_in = (dequeued i d).1.1 }))

  abbrev Round : ℕ → ℕ → Driver → Type 0
  Round n i d =
      ((dequeued i d).0 ≡ 0)
      × (contents d.cbuf_in ++ arrivals i 1 ≡ (dequeued i d).1.0 ∷ contents (dequeued i d).1.1)
      × IsValid (behind_round i d).cbuf_in
      × (contents (behind_round i d).cbuf_in
          ≡ (contents (dequeued i d).1.1 ++ arrivals i 2) ++ arrivals i 3)
      × Fits (length (arrived arrivals (i + 1) n)) (behind_round i d)

  round_lem :
      (n i : ℕ) (d : Driver)
      → IsValid d.cbuf_in
      → is_empty d.cbuf_in ≡ false
      → Fits (length (arrived arrivals i (suc n))) d
      → Round n i d
  round_lem n i d v e fits =
      let sizes = round_lengths n i in
      let (v₁, all₁, size₁) = delivers i 1 d v (omega (arith, fits, sizes)) in
      let cb = (interrupts i 1 d).cbuf_in in
      let first =
        dequeue_first cb 0 v₁
          (not_empty d (interrupts i 1 d) (arrivals i 1) v e (v₁, all₁, size₁)) in
      let taken : Driver = record (interrupts i 1 d) { cbuf_in = (dequeued i d).1.1 } in
      let long₁ = ap length all₁ ∙ length-append (contents d.cbuf_in) (arrivals i 1) in
      let shorter = ap length first.1 in
      let size = dequeue-size cb 0 ∙ size₁ in
      let (v₂, all₂, size₂) =
        delivers i 2 taken (dequeue-IsValid cb 0 v₁)
          (omega (arith, fits, sizes, long₁, shorter, size)) in
      let long₂ = ap length all₂ ∙ length-append (contents (dequeued i d).1.1) (arrivals i 2) in
      let d₂ = interrupts i 2 taken in
      let (v₃, all₃, size₃) =
        delivers i 3 d₂ v₂ (omega (arith, fits, sizes, long₁, shorter, size, long₂, size₂)) in
      let long₃ = ap length all₃ ∙ length-append (contents d₂.cbuf_in) (arrivals i 3) in
      (
        first.0,
        sym all₁ ∙ first.1,
        v₃,
        all₃ ∙ ap (λ q. q ++ arrivals i 3) all₂,
        omega (arith, fits, sizes, long₁, shorter, size, long₂, size₂, long₃, size₃),
      )

  -- The first byte in front of what the later rounds move.
  joined_round :
      (n i : ℕ) (c : ℕ) (waiting taken later bs left : List ℕ)
      → waiting ++ arrivals i 1 ≡ c ∷ taken
      → later ≡ (taken ++ arrivals i 2) ++ arrivals i 3
      → Moved n (i + 1) later bs left
      → Moved (suc n) i waiting (c ∷ bs) left
  unfolding arrived
  joined_round n i c waiting taken later bs left e f (inl (full, all)) = inl (
    omega (arith, full),
    joined c waiting taken (arrivals i 1) (arrivals i 2) (arrivals i 3) (arrived arrivals (i + 1) n)
        (bs ++ left) e (all ∙ ap (λ q. q ++ arrived arrivals (i + 1) n) f),
  )
  joined_round n i c waiting taken later bs left e f (inr (less, all, kept)) =
      let shift : i + 1 + length bs ≡ i + suc (length bs) = omega arith in
      inr (
        omega (arith, less),
        joined c waiting taken (arrivals i 1) (arrivals i 2) (arrivals i 3)
            (arrived arrivals (i + 1) (length bs)) bs e
            (all ∙ ap (λ q. q ++ arrived arrivals (i + 1) (length bs)) f),
        kept ∙ ap (λ j. arrivals j 1) shift,
      )

  -- A round on an empty buffer.
  ended_round :
      (n i : ℕ) (copied : List ℕ) (d : Driver)
      → IsValid d.cbuf_in
      → is_empty d.cbuf_in ≡ true
      → Fits (length (arrivals i 1)) d
      → Loop (suc n) i copied d (i, (copied, interrupts i 1 d))
  unfolding arrived
  ended_round n i copied d v e fits =
      let (v₁, all, size) = delivers i 1 d v fits in
      let nothing = empty-contents d.cbuf_in v e in
      let here : i ≡ i + 0 = omega arith in
      (
        [],
        here,
        sym (append-nil copied),
        v₁,
        inr (
          omega arith,
          sym (append-nil (contents d.cbuf_in) ∙ nothing),
          all ∙ ap (λ q. q ++ arrivals i 1) nothing ∙ ap (λ j. arrivals j 1) here,
        ),
      )

  read_loop_lem :
      (n i : ℕ) (copied : List ℕ) (d : Driver)
      → IsValid d.cbuf_in
      → Fits (length (arrived arrivals i n)) d
      → Loop n i copied d (read_loop interrupts copy_to_user n i copied d)
  unfolding read_loop arrived
  read_loop_lem zero i copied d v fits = (
    [],
    omega arith,
    sym (append-nil copied),
    v,
    inl (refl, sym (append-nil (contents d.cbuf_in))),
  )
  read_loop_lem (suc n) i copied d v fits = elim (Bool-cases (is_empty d.cbuf_in)) [
    | inl e ↦ rw e (ended_round n i copied d v e (omega (arith, fits, round_lengths n i)))
    | inr e ↦
        let (ok, first, v₃, later, fits₃) = round_lem n i d v e fits in
        let c = (dequeued i d).1.0 in
        let (bs, size, out, v', moved) =
          read_loop_lem n (i + 1) (copied ++ (c ∷ [])) (behind_round i d) v₃ fits₃ in
        rw (e, ok, copies i c)
          (
            c ∷ bs,
            omega (arith, size),
            out ∙ append_assoc copied (c ∷ []) bs,
            v',
            joined_round n i c (contents d.cbuf_in) (contents (dequeued i d).1.1)
                (contents (behind_round i d).cbuf_in) bs _ first later moved,
          )
  ]

  -- Where every byte can be copied to the program and cbuf_in is valid, and interrupts between the
  -- steps of the call put what arrives behind the bytes that wait, with space for all of it:
  -- rs232_tut_read returns the number of bytes that it gives the program. They are, in their order,
  -- the first of those that waited and arrived, as many as it asks for, and the others are left; or
  -- they are fewer, and then all that waited and arrived until the buffer was found empty.
  pub rs232_tut_read_lem :
      (maximum_size : ℕ) (d : Driver)
      → IsValid d.cbuf_in
      → Fits (length (arrivals 0 0) + length (arrived arrivals 0 maximum_size)) d
      → (bs : List ℕ) × ((rs232_tut_read interrupts copy_to_user maximum_size d).0 ≡ length bs)
        × ((rs232_tut_read interrupts copy_to_user maximum_size d).1.0 ≡ bs)
        × IsValid (rs232_tut_read interrupts copy_to_user maximum_size d).1.1.cbuf_in
        × Moved maximum_size 0
            (contents d.cbuf_in ++ arrivals 0 0)
            bs
            (contents (rs232_tut_read interrupts copy_to_user maximum_size d).1.1.cbuf_in)
  unfolding rs232_tut_read
  rs232_tut_read_lem maximum_size d v fits =
      let got = delivers 0 0 d v (omega (arith, fits)) in
      let long = ap length got.1 ∙ length-append (contents d.cbuf_in) (arrivals 0 0) in
      let (bs, size, out, v', moved) =
        read_loop_lem maximum_size 0 [] (interrupts 0 0 d) got.0
          (omega (arith, fits, long, got.2)) in
      (
        bs,
        size ∙ omega arith,
        out,
        v',
        subst
            (λ waiting. Moved maximum_size 0 waiting bs (
              contents
                (read_loop interrupts copy_to_user maximum_size 0 []
                  (interrupts 0 0 d)).1.1.cbuf_in))
            got.1 moved,
      )
