-- ===== src/CBuffer/Window.antt =====
-- The bytes between the tail and the head of the circular buffer of
-- dev1-rs232-driver/rs232_tut-0.2/driver/cbuffer.c, and what a write does to them.
use operating_systems_assign.Prelude.{
  ℕ, zero, suc, ◌+◌, ◌-◌, ◌%◌, ◌≤◌, ◌<◌, ◌≡◌, refl, sym, ap, ap₂, ◌∙◌, ◌⊎◌, ◌≢◌, inl, inr, List, [],
  ◌∷◌, ◌++◌, lt-cases, length, get_or, set, get_or-set_self, get_or-set_ne, arith,
}
use native.Mathlib.Nat.{mod-eq_of_lt, mod_self, add-mod_right}
use operating_systems_assign.CBuffer.{CBuffer, current_size}

-- The n bytes from the index i on, around the end of the array.
unfoldable pub window : List ℕ → ℕ → ℕ → ℕ → List ℕ
window cells size i zero = []
window cells size i (suc n) = get_or cells i 0 ∷ window cells size ((i + 1) % size) n

-- The queue that the buffer stands for.
unfoldable pub contents : CBuffer → List ℕ
contents cb = window cb.cbuff cb.size cb.tail (current_size cb)

-- The number of steps from the index i to the index j.
unfoldable pub distance : ℕ → ℕ → ℕ → ℕ
distance size i j = (j + size - i) % size

pub next-cases :
    (size i : ℕ)
    → i < size
    → ((i + 1 ≡ size) × ((i + 1) % size ≡ 0)) ⊎ ((i + 1 < size) × ((i + 1) % size ≡ i + 1))
next-cases size i h = elim (lt-cases (i + 1) size) [
  | inl l ↦ inr (l, mod-eq_of_lt l)
  | inr g ↦ let e : i + 1 ≡ size = omega arith in inl (e, ap (λ k. k % size) e ∙ mod_self size)
]

pub distance-cases :
    (size i j : ℕ)
    → i < size
    → j < size
    → ((i ≤ j) × (distance size i j ≡ j - i)) ⊎ ((j < i) × (distance size i j ≡ j + size - i))
unfolding distance
distance-cases size i j p q = elim (lt-cases j i) [
  | inl l ↦ inr (l, mod-eq_of_lt (omega arith))
  | inr g ↦
      let e : j + size - i ≡ (j - i) + size = omega arith in
      inl (g, ap (λ k. k % size) e ∙ add-mod_right (j - i) size ∙ mod-eq_of_lt (omega arith))
]

pub length-window : (cells : List ℕ) (size i n : ℕ) → length (window cells size i n) ≡ n
unfolding window
length-window cells size i zero = refl
length-window cells size i (suc n) = ap suc (length-window cells size ((i + 1) % size) n)

pub distance_self : (size i : ℕ) → i < size → distance size i i ≡ 0
distance_self size i p = elim (distance-cases size i i p p) [
  | inl c ↦ omega (arith, c.1)
  | inr c ↦ absurd (omega (arith, c.0))
]

zero_distance : (size i j : ℕ) → i < size → j < size → distance size i j ≡ 0 → i ≡ j
zero_distance size i j p q e = elim (distance-cases size i j p q) [
  | inl c ↦ omega (arith, c.0, c.1)
  | inr c ↦ omega (arith, c.0, c.1)
]

pub next-lt : (size i : ℕ) → i < size → (i + 1) % size < size
next-lt size i p = elim (next-cases size i p) [
  | inl c ↦ omega (arith, c.1)
  | inr c ↦ omega (arith, c.0, c.1)
]

-- A step from i towards another index j.
pub distance-next :
    (size i j : ℕ)
    → i < size
    → j < size
    → i ≢ j
    → distance size ((i + 1) % size) j + 1 ≡ distance size i j
distance-next size i j p q ne = elim (distance-cases size i j p q) [
  | inl c ↦ elim (distance-cases size ((i + 1) % size) j (next-lt size i p) q) [
    | inl d ↦ elim (next-cases size i p) [
      | inl e ↦ grind (arith, c, d, e, ne)
      | inr e ↦ grind (arith, c, d, e, ne)
    ]
    | inr d ↦ elim (next-cases size i p) [
      | inl e ↦ grind (arith, c, d, e, ne)
      | inr e ↦ grind (arith, c, d, e, ne)
    ]
  ]
  | inr c ↦ elim (distance-cases size ((i + 1) % size) j (next-lt size i p) q) [
    | inl d ↦ elim (next-cases size i p) [
      | inl e ↦ grind (arith, c, d, e, ne)
      | inr e ↦ grind (arith, c, d, e, ne)
    ]
    | inr d ↦ elim (next-cases size i p) [
      | inl e ↦ grind (arith, c, d, e, ne)
      | inr e ↦ grind (arith, c, d, e, ne)
    ]
  ]
]

apart : (size i j n : ℕ) → i < size → suc n ≤ distance size i j → i ≢ j
apart size i j n p h e = omega (arith, h, distance_self size i p, ap (distance size i) e)

-- A write behind the window.
pub window-set_ne :
    (cells : List ℕ) (size i j v n : ℕ)
    → i < size
    → j < size
    → n ≤ distance size i j
    → window (set cells j v) size i n ≡ window cells size i n
unfolding window
window-set_ne cells size i j v zero p q h = refl
window-set_ne cells size i j v (suc n) p q h =
    let ne : i ≢ j = apart size i j n p h in
    let d = distance-next size i j p q ne in
    ap₂ (λ b bs. b ∷ bs) (get_or-set_ne cells j i v 0 (λ e. ne (sym e)))
      (window-set_ne cells size ((i + 1) % size) j v n (next-lt size i p) q (omega (arith, d, h)))

-- A write at the end of the window makes it one byte longer.
pub window-set :
    (cells : List ℕ) (size i j v n : ℕ)
    → length cells ≡ size
    → i < size
    → j < size
    → n ≡ distance size i j
    → window (set cells j v) size i (suc n) ≡ window cells size i n ++ (v ∷ [])
unfolding window
window-set cells size i j v zero l p q h =
    let e : i ≡ j = zero_distance size i j p q (sym h) in
    ap (λ b. b ∷ []) (rw e (get_or-set_self cells j v 0 (omega arith)))
window-set cells size i j v (suc n) l p q h =
    let ne : i ≢ j = apart size i j n p (omega (arith, h)) in
    let d = distance-next size i j p q ne in
    ap₂ (λ b bs. b ∷ bs) (get_or-set_ne cells j i v 0 (λ e. ne (sym e)))
      (window-set cells size ((i + 1) % size) j v n l (next-lt size i p) q (omega (arith, d, h)))
