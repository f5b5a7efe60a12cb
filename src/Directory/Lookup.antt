-- ===== src/Directory/Lookup.antt =====
-- A directory as a finite map from names to sectors: Find and FindDirectory look the map up, Add
-- extends it.
use operating_systems_assign.Prelude.{
  ℕ, suc, ◌+◌, ◌≡◌, refl, ap, sym, ◌∙◌, ◌⊎◌, inl, inr, ◌↔◌, ◌≢◌, Bool, true, false, not, ◌&&◌,
  Option, none, some, List, [], ◌∷◌, ◌++◌, if◌then◌else◌, get_elem?, drop, arith, ◌>>=◌, Bool-cases,
  Option-cases, eq_of_iff, ◌||◌, subst,
}
use operating_systems_assign.Directory.{
  DirectoryEntry, Directory, strncmp_eq, strncpy_chars, file_name_max_len, matches, find_index_loop,
  find_index, find, find_directory, fill, add_loop, add,
}
use operating_systems_assign.Directory.Names.{chars, strncmp_eq_iff, chars-strncpy}

-- The first entry in use under a name.
unfoldable pub entry_in : List ℕ → List DirectoryEntry → Option DirectoryEntry
entry_in name [] = none
entry_in name (e ∷ es) = if matches name e then some e else entry_in name es

abbrev pub same_name : List ℕ → List ℕ → Bool
same_name a b = strncmp_eq file_name_max_len a b

-- The loop of FindIndex, and the entry that its result stands for.
pub find_index_loop_lem :
    (name : List ℕ) (es : List DirectoryEntry) (i : ℕ)
    → ((find_index_loop name i es ≡ none) × (entry_in name es ≡ none))
      ⊎ ((j : ℕ) × (e : DirectoryEntry) × (find_index_loop name i es ≡ some (i + j))
          × (get_elem? es j ≡ some e)
          × (entry_in name es ≡ some e)
          × (matches name e ≡ true))
unfolding find_index_loop entry_in
find_index_loop_lem name [] i = inl (refl, refl)
find_index_loop_lem name (e ∷ es) i = elim (Bool-cases (matches name e)) [
  | inl m ↦ inr (0, e, rw m (ap some (omega arith)), refl, rw m, m)
  | inr m ↦ elim (find_index_loop_lem name es (i + 1)) [
    | inl (p, q) ↦ inl (rw m p, rw m q)
    | inr (j, f, p, g, q, t) ↦ inr (suc j, f, rw m (p ∙ ap some (omega arith)), g, rw m q, t)
  ]
]

-- Names that strncmp takes for the same match the same entries.
pub matches-same_name :
    (e : DirectoryEntry) (a b : List ℕ) → same_name a b ≡ true → matches a e ≡ matches b e
unfolding matches
matches-same_name e a b h =
    ap (λ t. e.in_use && t)
      (eq_of_iff _ _ (
        λ p. (strncmp_eq_iff 9 e.name b).1 ((strncmp_eq_iff 9 e.name a).0 p ∙ same),
        λ p. (strncmp_eq_iff 9 e.name a).1 ((strncmp_eq_iff 9 e.name b).0 p ∙ sym same),
      ))
  where
    same : chars 9 a ≡ chars 9 b
    same = (strncmp_eq_iff 9 a b).0 h

pub entry_in-same_name :
    (a b : List ℕ) (es : List DirectoryEntry) → same_name a b ≡ true → entry_in a es ≡ entry_in b es
unfolding entry_in
entry_in-same_name a b [] h = refl
entry_in-same_name a b (e ∷ es) h =
    ground (arith, matches-same_name e a b h, entry_in-same_name a b es h)

-- Find answers the sector of the first entry in use under the name.
pub find_lem :
    (d : Directory) (name : List ℕ) → find d name ≡ (entry_in name d.table >>= λ e. some e.sector)
unfolding find find_index
find_lem d name = elim (find_index_loop_lem name d.table 0) [
  | inl (p, q) ↦ rw (p, q)
  | inr (j, e, p, g, q, t) ↦ let here : 0 + j ≡ j = omega arith in rw (p, q, here, g)
]

pub find_directory_lem :
    (d : Directory) (name : List ℕ)
    → find_directory d name
      ≡ (entry_in name d.table >>= λ e. if e.is_directory then some e.sector else none)
unfolding find_directory find_index
find_directory_lem d name = elim (find_index_loop_lem name d.table 0) [
  | inl (p, q) ↦ rw (p, q)
  | inr (j, e, p, g, q, t) ↦ let here : 0 + j ≡ j = omega arith in rw (p, q, here, g)
]

pub find_index-none :
    (d : Directory) (name : List ℕ) → (find_index d name ≡ none) ↔ (entry_in name d.table ≡ none)
unfolding find_index
find_index-none d name = elim (find_index_loop_lem name d.table 0) [
  | inl (p, q) ↦ (λ h. q, λ h. p)
  | inr (j, e, p, g, q, t) ↦ (λ h. cc, λ h. cc)
]

-- The name that Add stores is the name that it was given, up to nine characters.
pub matches-fill :
    (e : DirectoryEntry) (name other : List ℕ) (s : ℕ) (b : Bool)
    → matches other (fill e name s b) ≡ same_name name other
unfolding matches fill
matches-fill e name other s b = eq_of_iff _ _ (
  λ h.
      (strncmp_eq_iff 9 name other).1
        (sym stored ∙ (strncmp_eq_iff 9 (strncpy_chars 9 name ++ drop 9 e.name) other).0 h),
  λ h.
      (strncmp_eq_iff 9 (strncpy_chars 9 name ++ drop 9 e.name) other).1
        (stored ∙ (strncmp_eq_iff 9 name other).0 h),
)
  where
    stored : chars 9 (strncpy_chars 9 name ++ drop 9 e.name) ≡ chars 9 name
    stored = chars-strncpy 9 name (drop 9 e.name)

pub matches-in_use : (e : DirectoryEntry) (a : List ℕ) → e.in_use ≡ false → matches a e ≡ false
unfolding matches
matches-in_use e a h = rw h

pub add_loop_lem :
    (name other : List ℕ) (s : ℕ) (b : Bool) (es fs : List DirectoryEntry)
    → add_loop name s b es ≡ some fs
    → entry_in name es ≡ none
    → (filled : DirectoryEntry) × (filled.sector ≡ s)
      × (filled.is_directory ≡ b)
      × (entry_in other fs ≡ (if same_name name other then some filled else entry_in other es))
unfolding add_loop entry_in fill
add_loop_lem name other s b [] fs e n = cc
add_loop_lem name other s b (x ∷ es) fs e n = elim (Bool-cases x.in_use) [
  | inr u ↦ (
    fill x name s b,
    refl,
    refl,
    ground (arith, matches-fill x name other s b, matches-in_use x other u),
  )
  | inl u ↦ elim (Option-cases (add_loop name s b es)) [
    | inl p ↦ absurd (ground arith)
    | inr (rest, p) ↦
        let (filled, q, r, t) = add_loop_lem name other s b es rest p (ground arith) in
        (filled, q, r, ground (arith, t, matches-same_name x name other))
  ]
]

-- Add succeeds, for a name that is not in the directory, exactly if an entry is free.
pub has_free : List DirectoryEntry → Bool
has_free [] = false
has_free (e ∷ es) = not e.in_use || has_free es

add_loop-has_free :
    (name : List ℕ) (s : ℕ) (b : Bool) (es : List DirectoryEntry)
    → (add_loop name s b es ≡ none) ↔ (has_free es ≡ false)
unfolding add_loop has_free
add_loop-has_free name s b [] = (λ h. refl, λ h. refl)
add_loop-has_free name s b (e ∷ es) =
    let ih = add_loop-has_free name s b es in (λ h. ground (arith, ih.0), λ h. ground (arith, ih.1))

-- The sector that a name has, and the sector that it has as a directory.
abbrev pub bindings : Directory → List ℕ → Option ℕ × Option ℕ
bindings d name = (find d name, find_directory d name)

pub find-none_iff :
    (d : Directory) (name : List ℕ) → (find d name ≡ none) ↔ (entry_in name d.table ≡ none)
find-none_iff d name = elim (Option-cases (entry_in name d.table)) [
  | inl p ↦ (λ h. p, λ h. rw (find_lem d name, p))
  | inr (e, p) ↦ (λ h. ground (arith, find_lem d name), λ h. cc)
]

-- How Add ends: with nothing done, or with the table of its loop.
pub add_cases :
    (d : Directory) (name : List ℕ) (s : ℕ) (b : Bool)
    → ((add d name s b ≡ (false, d)) × ((find d name ≢ none) ⊎ (has_free d.table ≡ false)))
      ⊎ ((fs : List DirectoryEntry) × (add d name s b ≡ (true, record { table = fs }))
          × (add_loop name s b d.table ≡ some fs)
          × (entry_in name d.table ≡ none)
          × (find d name ≡ none)
          × (has_free d.table ≡ true))
unfolding add
add_cases d name s b = elim (Option-cases (find_index d name)) [
  | inr (i, p) ↦ inl (
    rw (p, add),
    inl (λ h. let q = (find_index-none d name).1 ((find-none_iff d name).0 h) in cc),
  )
  | inl p ↦ elim (Option-cases (add_loop name s b d.table)) [
    | inl q ↦ inl (rw (p, q, add), inr ((add_loop-has_free name s b d.table).0 q))
    | inr (fs, q) ↦
        let e = (find_index-none d name).0 p in
        inr (
          fs,
          rw (p, q, add),
          q,
          e,
          (find-none_iff d name).1 e,
          ground (arith, (add_loop-has_free name s b d.table).1),
        )
  ]
]

-- Add reports TRUE exactly if the name is not in the directory and an entry is free.
pub add_iff :
    (d : Directory) (name : List ℕ) (s : ℕ) (b : Bool)
    → ((add d name s b).0 ≡ true) ↔ ((find d name ≡ none) × (has_free d.table ≡ true))
add_iff d name s b = elim (add_cases d name s b) [
  | inl (p, inl f) ↦ rw p (λ h. cc, λ h. absurd (f h.0))
  | inl (p, inr f) ↦ rw p (λ h. cc, λ h. cc)
  | inr (fs, p, _, _, f, g) ↦ rw p (λ h. (f, g), λ h. refl)
]

-- After FALSE the directory is as it was.
pub add_fails :
    (d d' : Directory) (name : List ℕ) (s : ℕ) (b : Bool) → add d name s b ≡ (false, d') → d' ≡ d
add_fails d d' name s b h = elim (add_cases d name s b) [
  | inl (p, _) ↦ cc
  | inr (fs, p, _, _, _, _) ↦ cc
]

-- After TRUE the name is found at the new sector, and as a directory if it was added as one, and
-- every other name as before; names count by their first nine characters.
pub add_binds :
    (d d' : Directory) (name other : List ℕ) (s : ℕ) (b : Bool)
    → add d name s b ≡ (true, d')
    → bindings d' other
      ≡ (if same_name name other then (some s, if b then some s else none) else bindings d other)
add_binds d d' name other s b h = elim (add_cases d name s b) [
  | inl (p, _) ↦ cc
  | inr (fs, p, q, e, _, _) ↦
      let (filled, t, u, l) = add_loop_lem name other s b d.table fs q e in
      let same : record { table = fs } ≡ d' = cc in
      subst
        (λ x. bindings x other ≡ (
          if same_name name other then (some s, if b then some s else none) else bindings d other))
        same
        (ground (
          arith,
          l,
          t,
          u,
          find_lem (record { table = fs }) other,
          find_directory_lem (record { table = fs }) other,
          find_lem d other,
          find_directory_lem d other,
        ))
]
