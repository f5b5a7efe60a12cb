-- ===== src/Directory/Names.antt =====
-- When the C library's comparison and copy take two names for the same: a name counts up to its
-- terminator, and up to nine characters.
use operating_systems_assign.Prelude.{
  ℕ, zero, suc, ◌≡◌, refl, ◌↔◌, true, List, [], ◌∷◌, ◌++◌, ◌==◌, if◌then◌else◌, arith,
}
use operating_systems_assign.Directory.{first_char, next_chars, strncmp_eq, strncpy_chars}

-- The characters of a string before its terminator, at most n.
unfoldable pub chars : ℕ → List ℕ → List ℕ
chars zero s = []
chars (suc n) s =
    let rest = first_char s ∷ chars n (next_chars s) in if first_char s == 0 then [] else rest

pub strncmp_eq_iff : (n : ℕ) (a b : List ℕ) → (strncmp_eq n a b ≡ true) ↔ (chars n a ≡ chars n b)
unfolding strncmp_eq chars
strncmp_eq_iff zero a b = (λ h. refl, λ h. refl)
strncmp_eq_iff (suc n) a b =
    let ih = strncmp_eq_iff n (next_chars a) (next_chars b) in
    (λ h. ground (arith, ih.0), λ h. ground (arith, ih.1))

chars-nil : (n : ℕ) → chars n [] ≡ []
unfolding chars
chars-nil zero = refl
chars-nil (suc n) = refl

-- What strncpy stores reads back as the name, whatever stands behind it.
pub chars-strncpy :
    (n : ℕ) (src rest : List ℕ) → chars n (strncpy_chars n src ++ rest) ≡ chars n src
unfolding chars strncpy_chars
chars-strncpy zero src rest = refl
chars-strncpy (suc n) src rest = ground (arith, chars-strncpy n (next_chars src) rest)
