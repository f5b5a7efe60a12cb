-- ===== src/CBuffer/Contents.antt =====
-- The circular buffer of dev1-rs232-driver/rs232_tut-0.2/driver/cbuffer.c as a queue: what its
-- operations do to the bytes that wait in it.
use operating_systems_assign.Prelude.{
  ℕ, suc, ◌+◌, ◌-◌, ◌%◌, ◌<◌, ◌≤◌, ◌≡◌, ◌↔◌, ◌≢◌, refl, sym, ap, ◌∙◌, inl, inr, true, false, [],
  ◌∷◌, ◌++◌, ◌==◌, Bool-cases, ==_iff, eq_of_iff, length, get_or, set, length-set, arith,
}
use native.Mathlib.Nat.{mod-lt}
use operating_systems_assign.CBuffer.{
  CBuffer, is_empty, is_full, current_size, space_left, enqueue, dequeue, IsValid,
}
use operating_systems_assign.CBuffer.Window.{
  window, contents, distance, length-window, window-set, window-set_ne, distance-cases, next-cases,
  next-lt, distance-next, distance_self,
}
use operating_systems_assign.CBuffer.Fifo.{put, take_off}

pub length-contents : (cb : CBuffer) → length (contents cb) ≡ current_size cb
unfolding contents
length-contents cb = length-window cb.cbuff cb.size cb.tail (current_size cb)

full_distance :
    (size t h : ℕ) → t < size → h < size → ((h + 1) % size ≡ t) ↔ (distance size t h ≡ size - 1)
full_distance size t h p q = elim (distance-cases size t h p q) [
  | inl c ↦ elim (next-cases size h q) [
    | inl d ↦ (λ e. omega (arith, c, d, e), λ e. omega (arith, c, d, e))
    | inr d ↦ (λ e. omega (arith, c, d, e), λ e. omega (arith, c, d, e))
  ]
  | inr c ↦ elim (next-cases size h q) [
    | inl d ↦ (λ e. omega (arith, c, d, e), λ e. omega (arith, c, d, e))
    | inr d ↦ (λ e. omega (arith, c, d, e), λ e. omega (arith, c, d, e))
  ]
]

-- One more byte between the tail and the head.
head_step :
    (size t h : ℕ)
    → t < size
    → h < size
    → (h + 1) % size ≢ t
    → distance size t ((h + 1) % size) ≡ distance size t h + 1
head_step size t h p q ne = elim (distance-cases size t h p q) [
  | inl c ↦ elim (distance-cases size t ((h + 1) % size) p (next-lt size h q)) [
    | inl d ↦ elim (next-cases size h q) [
      | inl e ↦ grind (arith, c, d, e, ne)
      | inr e ↦ omega (arith, c, d, e)
    ]
    | inr d ↦ elim (next-cases size h q) [
      | inl e ↦ omega (arith, c, d, e)
      | inr e ↦ omega (arith, c, d, e)
    ]
  ]
  | inr c ↦ elim (distance-cases size t ((h + 1) % size) p (next-lt size h q)) [
    | inl d ↦ elim (next-cases size h q) [
      | inl e ↦ grind (arith, c, d, e, ne)
      | inr e ↦ grind (arith, c, d, e, ne)
    ]
    | inr d ↦ elim (next-cases size h q) [
      | inl e ↦ omega (arith, c, d, e)
      | inr e ↦ omega (arith, c, d, e)
    ]
  ]
]

-- The test of a full buffer is that of a full queue.
pub is_full-length :
    (cb : CBuffer) → IsValid cb → is_full cb ≡ (length (contents cb) == cb.size - 1)
unfolding is_full current_size distance
is_full-length cb (l, h, t) =
    let full = full_distance cb.size cb.tail cb.head t h in
    eq_of_iff (is_full cb) (length (contents cb) == cb.size - 1) (
      λ e.
          (==_iff (length (contents cb)) (cb.size - 1)).1
            (length-contents cb ∙ full.0 ((==_iff ((cb.head + 1) % cb.size) cb.tail).0 e)),
      λ e.
          (==_iff ((cb.head + 1) % cb.size) cb.tail).1
            (full.1 (sym (length-contents cb) ∙ (==_iff (length (contents cb)) (cb.size - 1)).0 e)),
    )

pub enqueue-IsValid : (cb : CBuffer) (b : ℕ) → IsValid cb → IsValid (enqueue cb b).1
unfolding enqueue
enqueue-IsValid cb b (l, h, t) = elim (Bool-cases (is_full cb)) [
  | inl e ↦ rw e (l, h, t)
  | inr e ↦ rw e (length-set cb.cbuff cb.head b ∙ l, next-lt cb.size cb.head h, t)
]

pub dequeue-IsValid : (cb : CBuffer) (b : ℕ) → IsValid cb → IsValid (dequeue cb b).1.1
unfolding dequeue
dequeue-IsValid cb b (l, h, t) = elim (Bool-cases (is_empty cb)) [
  | inl e ↦ rw e (l, h, t)
  | inr e ↦ rw e (length-set cb.cbuff cb.tail 255 ∙ l, h, next-lt cb.size cb.tail t)
]

pub enqueue-size : (cb : CBuffer) (b : ℕ) → (enqueue cb b).1.size ≡ cb.size
unfolding enqueue
enqueue-size cb b = elim (Bool-cases (is_full cb)) [ inl e ↦ rw e refl | inr e ↦ rw e refl ]

pub dequeue-size : (cb : CBuffer) (b : ℕ) → (dequeue cb b).1.1.size ≡ cb.size
unfolding dequeue
dequeue-size cb b = elim (Bool-cases (is_empty cb)) [ inl e ↦ rw e refl | inr e ↦ rw e refl ]

not_full : (cb : CBuffer) → is_full cb ≡ false → (cb.head + 1) % cb.size ≢ cb.tail
unfolding is_full
not_full cb e q = ground (arith, e, q)

not_empty : (cb : CBuffer) → is_empty cb ≡ false → cb.tail ≢ cb.head
unfolding is_empty
not_empty cb e q = ground (arith, e, q)

-- The contents behind a write at the head.
pub contents-put :
    (cb : CBuffer) (b : ℕ)
    → IsValid cb
    → is_full cb ≡ false
    → contents (record cb { cbuff = set cb.cbuff cb.head b; head = (cb.head + 1) % cb.size })
      ≡ contents cb ++ (b ∷ [])
unfolding contents current_size distance
contents-put cb b (l, h, t) e =
    let d = distance cb.size cb.tail cb.head in
    let step = head_step cb.size cb.tail cb.head t h (not_full cb e) in
    let longer : distance cb.size cb.tail ((cb.head + 1) % cb.size) ≡ suc d = omega (arith, step) in
    ap (window (set cb.cbuff cb.head b) cb.size cb.tail) longer
    ∙ window-set cb.cbuff cb.size cb.tail cb.head b d l t h refl

within_size :
    (cb : CBuffer)
    → cb.tail < cb.size
    → cb.head < cb.size
    → distance cb.size ((cb.tail + 1) % cb.size) cb.head
      ≤ distance cb.size ((cb.tail + 1) % cb.size) cb.tail
within_size cb t h =
    let next = (cb.tail + 1) % cb.size in
    let q = next-lt cb.size cb.tail t in
    let last = (full_distance cb.size next cb.tail q t).0 refl in
    elim (distance-cases cb.size next cb.head q h) [
      | inl c ↦ omega (arith, last, c)
      | inr c ↦ omega (arith, last, c)
    ]

-- The contents of a buffer that is not empty, and those behind a read at the tail.
pub contents-take_off :
    (cb : CBuffer)
    → IsValid cb
    → is_empty cb ≡ false
    → contents cb
      ≡ get_or cb.cbuff cb.tail 0
        ∷ contents (record cb { cbuff = set cb.cbuff cb.tail 255; tail = (cb.tail + 1) % cb.size })
unfolding contents current_size distance window
contents-take_off cb (l, h, t) e =
    let next = (cb.tail + 1) % cb.size in
    let step = distance-next cb.size cb.tail cb.head t h (not_empty cb e) in
    let longer : distance cb.size cb.tail cb.head ≡ suc (distance cb.size next cb.head) =
      omega (arith, step) in
    ap (window cb.cbuff cb.size cb.tail) longer
    ∙ ap (λ bs. get_or cb.cbuff cb.tail 0 ∷ bs)
        (sym (
          window-set_ne cb.cbuff cb.size next cb.tail 255 (distance cb.size next cb.head)
            (next-lt cb.size cb.tail t) t (within_size cb t h)))

pub empty-contents : (cb : CBuffer) → IsValid cb → is_empty cb ≡ true → contents cb ≡ []
unfolding contents current_size distance window is_empty
empty-contents cb (l, h, t) e =
    let same : cb.head ≡ cb.tail = (==_iff cb.head cb.tail).0 e in
    ap (λ j. window cb.cbuff cb.size cb.tail (distance cb.size cb.tail j)) same
    ∙ ap (window cb.cbuff cb.size cb.tail) (distance_self cb.size cb.tail t)

-- Enqueue on the buffer is `put` on its contents.
pub enqueue-contents :
    (cb : CBuffer) (b : ℕ)
    → IsValid cb
    → ((enqueue cb b).0, contents (enqueue cb b).1) ≡ put (cb.size - 1) (contents cb) b
unfolding enqueue put
enqueue-contents cb b v = elim (Bool-cases (is_full cb)) [
  | inl e ↦ rw (sym (is_full-length cb v), e) refl
  | inr e ↦ rw (sym (is_full-length cb v), e) (ap (λ q. (0, q)) (contents-put cb b v e))
]

-- Dequeue on the buffer takes the first byte off its contents.
pub dequeue-contents :
    (cb : CBuffer) (b : ℕ)
    → IsValid cb
    → ((dequeue cb b).0, ((dequeue cb b).1.0, contents (dequeue cb b).1.1))
      ≡ take_off (contents cb) b
unfolding dequeue take_off
dequeue-contents cb b v = elim (Bool-cases (is_empty cb)) [
  | inl e ↦ rw (e, empty-contents cb v e) refl
  | inr e ↦ rw e (sym (ap (λ q. take_off q b) (contents-take_off cb v e)))
]

current_size-lt : (cb : CBuffer) → IsValid cb → current_size cb < cb.size
unfolding current_size
current_size-lt cb (l, h, t) = mod-lt (cb.head + cb.size - cb.tail) (omega arith)

-- In a valid buffer, current_size is the number of bytes that wait, and space_left is what is missing
-- to size - 1.
pub space_left-contents :
    (cb : CBuffer)
    → IsValid cb
    → (current_size cb ≡ length (contents cb))
      × (space_left cb + length (contents cb) ≡ cb.size - 1)
unfolding space_left
space_left-contents cb v =
    let same = length-contents cb in
    elim (Bool-cases (is_empty cb)) [
      | inl e ↦
          rw (e, empty-contents cb v e) (sym same ∙ ap length (empty-contents cb v e), omega arith)
      | inr e ↦ elim (Bool-cases (is_full cb)) [
        | inl f ↦
            let full =
              (==_iff (length (contents cb)) (cb.size - 1)).0 (sym (is_full-length cb v) ∙ f) in
            rw (e, f) (sym same, omega (arith, full))
        | inr f ↦ rw (e, f) (sym same, omega (arith, same, current_size-lt cb v))
      ]
    ]
