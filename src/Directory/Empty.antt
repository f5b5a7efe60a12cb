-- ===== src/Directory/Empty.antt =====
-- When IsEmpty holds: Remove uses it to refuse a directory with files.
use operating_systems_assign.Prelude.{
  ℕ, ◌≡◌, refl, sym, ◌∙◌, inl, inr, ◌≢◌, Bool, true, false, ◌||◌, none, List, [], ◌∷◌, arith,
  Bool-cases, eq_of_iff,
}
use operating_systems_assign.Directory.{
  DirectoryEntry, Directory, matches, find, strncmp_eq, strcmp_eq, is_empty_loop, is_empty, dot,
  dot_dot,
}
use operating_systems_assign.Directory.Names.{strncmp_eq_iff}
use operating_systems_assign.Directory.Lookup.{entry_in, same_name, find-none_iff}

-- The two names that CreateDirectory enters.
abbrev pub is_dots : List ℕ → Bool
is_dots name = strcmp_eq name dot || strcmp_eq name dot_dot

-- Against "." and ".." strcmp and strncmp agree: both literals are shorter than nine characters.
strncmp-strcmp_dot : (s : List ℕ) → strncmp_eq 9 s dot ≡ strcmp_eq s dot
unfolding strncmp_eq strcmp_eq
strncmp-strcmp_dot s = ground arith

strncmp-strcmp_dot_dot : (s : List ℕ) → strncmp_eq 9 s dot_dot ≡ strcmp_eq s dot_dot
unfolding strncmp_eq strcmp_eq
strncmp-strcmp_dot_dot s = ground arith

-- Entries whose name compares alike.
same_as : (a b c : List ℕ) → strncmp_eq 9 a b ≡ true → strncmp_eq 9 a c ≡ strncmp_eq 9 b c
same_as a b c h =
    let same = (strncmp_eq_iff 9 a b).0 h in
    eq_of_iff _ _ (
      λ p. (strncmp_eq_iff 9 b c).1 (sym same ∙ (strncmp_eq_iff 9 a c).0 p),
      λ p. (strncmp_eq_iff 9 a c).1 (same ∙ (strncmp_eq_iff 9 b c).0 p),
    )

-- An entry that IsEmpty passes over is not in use, or is "." or "..".
passed :
    (name : List ℕ) (e : DirectoryEntry)
    → same_name name dot ≡ false
    → same_name name dot_dot ≡ false
    → matches name e ≡ true
    → (e.in_use ≡ true) × (strcmp_eq e.name dot ≡ false) × (strcmp_eq e.name dot_dot ≡ false)
unfolding matches
passed name e p q m =
    let alike : strncmp_eq 9 e.name name ≡ true = ground arith in
    (
      ground arith,
      sym (strncmp-strcmp_dot e.name) ∙ same_as e.name name dot alike ∙ p,
      sym (strncmp-strcmp_dot_dot e.name) ∙ same_as e.name name dot_dot alike ∙ q,
    )

is_empty_loop_lem :
    (es : List DirectoryEntry) (name : List ℕ)
    → is_empty_loop es ≡ true
    → same_name name dot ≡ false
    → same_name name dot_dot ≡ false
    → entry_in name es ≡ none
unfolding is_empty_loop entry_in
is_empty_loop_lem [] name h p q = refl
is_empty_loop_lem (e ∷ es) name h p q = elim (Bool-cases (matches name e)) [
  | inl m ↦ let (u, a, b) = passed name e p q m in absurd (ground arith)
  | inr m ↦ rw m (is_empty_loop_lem es name (ground arith) p q)
]

-- In a directory that IsEmpty accepts, no name but "." and ".." is found.
pub is_empty-find :
    (d : Directory) (name : List ℕ)
    → is_empty d ≡ true
    → same_name name dot ≡ false
    → same_name name dot_dot ≡ false
    → find d name ≡ none
unfolding is_empty
is_empty-find d name h p q = (find-none_iff d name).1 (is_empty_loop_lem d.table name h p q)

strncmp_eq_refl : (n : ℕ) (a : List ℕ) → strncmp_eq n a a ≡ true
strncmp_eq_refl n a = (strncmp_eq_iff n a a).1 refl

not_empty_loop_lem :
    (es : List DirectoryEntry)
    → is_empty_loop es ≡ false
    → (name : List ℕ) × (entry_in name es ≢ none)
      × (same_name name dot ≡ false)
      × (same_name name dot_dot ≡ false)
unfolding is_empty_loop entry_in matches
not_empty_loop_lem [] h = cc
not_empty_loop_lem (e ∷ es) h = elim (Bool-cases (is_empty_loop es)) [
  | inr more ↦ let (name, f, p, q) = not_empty_loop_lem es more in (name, ground arith, p, q)
  | inl fine ↦ (
    e.name,
    ground (arith, strncmp_eq_refl 9 e.name),
    ground (arith, strncmp-strcmp_dot e.name),
    ground (arith, strncmp-strcmp_dot_dot e.name),
  )
]

-- In a directory that IsEmpty rejects, some name other than "." and ".." is found.
pub not_empty-find :
    (d : Directory)
    → is_empty d ≡ false
    → (name : List ℕ) × (find d name ≢ none)
      × (same_name name dot ≡ false)
      × (same_name name dot_dot ≡ false)
unfolding is_empty
not_empty-find d h =
    let (name, f, p, q) = not_empty_loop_lem d.table h in
    (name, λ e. f ((find-none_iff d name).0 e), p, q)
