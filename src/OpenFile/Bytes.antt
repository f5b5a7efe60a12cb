-- ===== src/OpenFile/Bytes.antt =====
-- Byte arrays looked at byte by byte.
use operating_systems_assign.Prelude.{
  ℕ, zero, suc, ◌+◌, ◌-◌, ◌≤◌, ◌<◌, ◌≡◌, refl, ap, ap₂, ◌∙◌, Bool, ◌&&◌, List, [], ◌∷◌, ◌++◌, ltb,
  leb, if◌then◌else◌, length, length-append, length-take, length-drop, get_or, take, drop, arith,
  lt-cases, inl, inr, lt→ltb, le→ltb, le→leb,
}
use operating_systems_assign.OpenFile.{copy_into}

pub get_or-append :
    (xs ys : List ℕ) (i : ℕ)
    → get_or (xs ++ ys) i 0
      ≡ (if ltb i (length xs) then get_or xs i 0 else get_or ys (i - length xs) 0)
get_or-append [] ys i = ground arith
get_or-append (x ∷ xs) ys zero = ground arith
get_or-append (x ∷ xs) ys (suc i) = get_or-append xs ys i ∙ ground arith

pub get_or-take : (n : ℕ) (xs : List ℕ) (i : ℕ) → i < n → get_or (take n xs) i 0 ≡ get_or xs i 0
get_or-take zero xs i h = elim h [ ]
get_or-take (suc n) [] i h = refl
get_or-take (suc n) (x ∷ xs) zero h = refl
get_or-take (suc n) (x ∷ xs) (suc i) h = get_or-take n xs i (omega arith)

pub get_or-drop : (n : ℕ) (xs : List ℕ) (i : ℕ) → get_or (drop n xs) i 0 ≡ get_or xs (n + i) 0
get_or-drop zero xs i = ap (λ k. get_or xs k 0) (omega arith)
get_or-drop (suc n) [] i = refl
get_or-drop (suc n) (x ∷ xs) i = get_or-drop n xs i ∙ ground arith

-- The n values of f from p on.
unfoldable pub tabulate : (ℕ → ℕ) → ℕ → ℕ → List ℕ
tabulate f p zero = []
tabulate f p (suc n) = f p ∷ tabulate f (p + 1) n

pub length-tabulate : (f : ℕ → ℕ) (p n : ℕ) → length (tabulate f p n) ≡ n
unfolding tabulate
length-tabulate f p zero = refl
length-tabulate f p (suc n) = ap suc (length-tabulate f (p + 1) n)

pub get_or-tabulate : (f : ℕ → ℕ) (p n i : ℕ) → i < n → get_or (tabulate f p n) i 0 ≡ f (p + i)
unfolding tabulate
get_or-tabulate f p zero i h = elim h [ ]
get_or-tabulate f p (suc n) zero h = ap f (omega arith)
get_or-tabulate f p (suc n) (suc i) h =
    get_or-tabulate f (p + 1) n i (omega arith) ∙ ap f (omega arith)

-- An array is known by its length and its bytes.
pub eq-tabulate :
    (xs : List ℕ) (f : ℕ → ℕ) (p n : ℕ)
    → length xs ≡ n
    → ((i : ℕ) → i < n → get_or xs i 0 ≡ f (p + i))
    → xs ≡ tabulate f p n
unfolding tabulate
eq-tabulate [] f p zero l h = refl
eq-tabulate [] f p (suc n) l h = absurd (omega arith)
eq-tabulate (x ∷ xs) f p zero l h = absurd (omega arith)
eq-tabulate (x ∷ xs) f p (suc n) l h =
    ap₂ ◌∷◌ (h 0 (omega arith) ∙ ap f (omega arith))
      (eq-tabulate xs f (p + 1) n (omega arith) λ i q. h (suc i) (omega arith) ∙ ap f (omega arith))

pub length-copy_into :
    (buf : List ℕ) (at : ℕ) (bytes : List ℕ)
    → at + length bytes ≤ length buf
    → length (copy_into buf at bytes) ≡ length buf
unfolding copy_into
length-copy_into buf at bytes h = omega (
  arith,
  length-append (take at buf) (bytes ++ drop (at + length bytes) buf),
  length-append bytes (drop (at + length bytes) buf),
  length-take at buf,
  length-drop (at + length bytes) buf,
)

-- Is i one of the n numbers from p on?
abbrev pub between : ℕ → ℕ → ℕ → Bool
between p n i = leb p i && ltb i (p + n)

pub get_or-copy_into :
    (buf : List ℕ) (at : ℕ) (bytes : List ℕ) (i : ℕ)
    → at + length bytes ≤ length buf
    → get_or (copy_into buf at bytes) i 0
      ≡ (if between at (length bytes) i then get_or bytes (i - at) 0 else get_or buf i 0)
unfolding copy_into
get_or-copy_into buf at bytes i h = get_or-append (take at buf) tail i ∙ elim (lt-cases i at) [
  | inl before ↦ ground (arith, length-take at buf, get_or-take at buf i before)
  | inr a ↦
      rw (room, le→ltb i at a, le→leb at i a, get_or-append bytes rest (i - at))
        (elim (lt-cases i (at + length bytes)) [
          | inl b ↦
              rw (lt→ltb i (at + length bytes) b, lt→ltb (i - at) (length bytes) (omega arith))
          | inr b ↦
              rw
                (
                  le→ltb i (at + length bytes) b,
                  le→ltb (i - at) (length bytes) (omega arith),
                  get_or-drop (at + length bytes) buf (i - at - length bytes),
                )
                (ap (λ k. get_or buf k 0) (omega arith))
        ])
]
  where
    rest : List ℕ
    rest = drop (at + length bytes) buf

    tail : List ℕ
    tail = bytes ++ rest

    room : length (take at buf) ≡ at
    room = omega (arith, length-take at buf)
