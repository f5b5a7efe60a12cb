-- ===== src/Directory/Unique.antt =====
-- Names stay unique, so Remove takes a name out for good; and when a directory is empty.
use operating_systems_assign.Prelude.{
  ℕ, zero, suc, ◌+◌, ◌≡◌, refl, ap, sym, ◌∙◌, ◌⊎◌, inl, inr, ◌↔◌, ◌≢◌, Bool, true, false, none,
  some, List, [], ◌∷◌, if◌then◌else◌, drop, arith, Bool-cases, Option-cases, subst,
}
use operating_systems_assign.Directory.{
  DirectoryEntry, Directory, matches, find_index_loop, find_index, find, fill, add_loop, add,
  release, remove, strncpy_chars,
}
use operating_systems_assign.Directory.Names.{chars, strncmp_eq_iff, chars-strncpy}
use operating_systems_assign.Directory.Lookup.{
  entry_in, same_name, find_index_loop_lem, entry_in-same_name, matches-in_use, add_loop_lem,
  find-none_iff, add_cases, bindings, find_lem, find_directory_lem, find_index-none,
  matches-same_name,
}

-- No entry behind an entry in use has its name.
abbrev pub Unique : List DirectoryEntry → Type 0
Unique [] = Unit {0}
Unique (e ∷ es) = ((e.in_use ≡ true) → entry_in e.name es ≡ none) × Unique es

-- What Remove does to the table, without its index.
erase : List ℕ → List DirectoryEntry → List DirectoryEntry
erase name [] = []
erase name (e ∷ es) = if matches name e then record e { in_use = false } ∷ es else e ∷ erase name es

release-find_index :
    (name : List ℕ) (es : List DirectoryEntry) (i j : ℕ)
    → find_index_loop name i es ≡ some (i + j)
    → release j es ≡ erase name es
unfolding find_index_loop release erase
release-find_index name [] i j h = cc
release-find_index name (e ∷ es) i zero h = elim (Bool-cases (matches name e)) [
  | inl m ↦ rw m
  | inr m ↦ elim (find_index_loop_lem name es (i + 1)) [
    | inl (p, q) ↦ absurd (ground arith)
    | inr (k, f, p, g, q, t) ↦ absurd (ground arith)
  ]
]
release-find_index name (e ∷ es) i (suc j) h = elim (Bool-cases (matches name e)) [
  | inl m ↦ absurd (ground arith)
  | inr m ↦ rw m (ap (λ r. e ∷ r) (release-find_index name es (i + 1) j (ground (arith))))
]

same_name_iff : (a b : List ℕ) → (same_name a b ≡ true) ↔ (chars 9 a ≡ chars 9 b)
same_name_iff a b = strncmp_eq_iff 9 a b

-- What matches a name has that name.
matches-name :
    (name : List ℕ) (e : DirectoryEntry)
    → matches name e ≡ true
    → (e.in_use ≡ true) × (chars 9 e.name ≡ chars 9 name)
unfolding matches
matches-name name e h = (ground arith, (strncmp_eq_iff 9 e.name name).0 (ground arith))

matches_self :
    (name : List ℕ) (e : DirectoryEntry)
    → e.in_use ≡ true
    → chars 9 e.name ≡ chars 9 name
    → matches name e ≡ true
unfolding matches
matches_self name e u h = rw (u, (strncmp_eq_iff 9 e.name name).1 h)

entry_in-erase :
    (name other : List ℕ) (es : List DirectoryEntry)
    → Unique es
    → entry_in other (erase name es) ≡ (if same_name name other then none else entry_in other es)
unfolding entry_in erase
entry_in-erase name other [] u = ground arith
entry_in-erase name other (e ∷ es) u = elim (Bool-cases (matches name e)) [
  | inl m ↦
      let (used, same) = matches-name name e m in
      elim (Bool-cases (same_name name other)) [
        | inl s ↦
            let alike = (same_name_iff e.name other).1 (same ∙ (same_name_iff name other).0 s) in
            ground (
              arith,
              matches-in_use (record e { in_use = false }) other refl,
              entry_in-same_name e.name other es alike,
              u.0 used,
            )
        | inr s ↦ elim (Bool-cases (matches other e)) [
          | inl t ↦
              let alike = (same_name_iff name other).1 (sym same ∙ (matches-name other e t).1) in
              absurd (ground arith)
          | inr t ↦ ground (arith, matches-in_use (record e { in_use = false }) other refl)
        ]
      ]
  | inr m ↦ ground (arith, entry_in-erase name other es u.1, matches-same_name e name other)
]

remove_table :
    (d : Directory) (name : List ℕ) (i : ℕ)
    → find_index d name ≡ some i
    → release i d.table ≡ erase name d.table
unfolding find_index
remove_table d name i h = release-find_index name d.table 0 i (h ∙ ap some (omega arith))

remove_cases :
    (d : Directory) (name : List ℕ)
    → ((remove d name ≡ (false, d)) × (find d name ≡ none) × (entry_in name d.table ≡ none))
      ⊎ ((remove d name ≡ (true, record { table = erase name d.table })) × (find d name ≢ none))
unfolding remove
remove_cases d name = elim (Option-cases (find_index d name)) [
  | inl p ↦
      let e = (find_index-none d name).0 p in inl (rw (p, remove), (find-none_iff d name).1 e, e)
  | inr (i, p) ↦ inr (
    rw (p, remove, remove_table d name i p),
    λ h. let q = (find_index-none d name).1 ((find-none_iff d name).0 h) in cc,
  )
]

-- Remove reports TRUE exactly if the name is in the directory.
pub remove_iff : (d : Directory) (name : List ℕ) → ((remove d name).0 ≡ true) ↔ (find d name ≢ none)
remove_iff d name = elim (remove_cases d name) [
  | inl (p, f, _) ↦ rw p (λ h. cc, λ h. absurd (h f))
  | inr (p, f) ↦ rw p (λ h. f, λ h. refl)
]

bindings_of_entry :
    (d : Directory) (name : List ℕ) → entry_in name d.table ≡ none → bindings d name ≡ (none, none)
bindings_of_entry d name h = rw (find_lem d name, find_directory_lem d name, h)

-- In a directory whose names are unique, the name is not found after Remove, and every other name
-- is found as before.
pub remove_binds :
    (d : Directory) (name other : List ℕ)
    → Unique d.table
    → bindings (remove d name).1 other
      ≡ (if same_name name other then (none, none) else bindings d other)
remove_binds d name other u = elim (remove_cases d name) [
  | inl (p, f, e) ↦ rw p (elim (Bool-cases (same_name name other)) [
    | inl s ↦ rw s (bindings_of_entry d other (sym (entry_in-same_name name other d.table s) ∙ e))
    | inr s ↦ rw s
  ])
  | inr (p, f) ↦ rw p (
      ground (
        arith,
        entry_in-erase name other d.table u,
        find_lem (record { table = erase name d.table }) other,
        find_directory_lem (record { table = erase name d.table }) other,
        find_lem d other,
        find_directory_lem d other,
      ))
]

erase-none :
    (name other : List ℕ) (es : List DirectoryEntry)
    → entry_in other es ≡ none
    → entry_in other (erase name es) ≡ none
unfolding entry_in erase
erase-none name other [] h = refl
erase-none name other (e ∷ es) h =
    ground
      (arith, erase-none name other es, matches-in_use (record e { in_use = false }) other refl)

erase-Unique : (name : List ℕ) (es : List DirectoryEntry) → Unique es → Unique (erase name es)
unfolding erase
erase-Unique name [] u = tt
erase-Unique name (e ∷ es) u = elim (Bool-cases (matches name e)) [
  | inl m ↦ rw m (λ h. cc, u.1)
  | inr m ↦ rw m (λ h. erase-none name e.name es (u.0 h), erase-Unique name es u.1)
]

add_loop-Unique :
    (name : List ℕ) (s : ℕ) (b : Bool) (es fs : List DirectoryEntry)
    → add_loop name s b es ≡ some fs
    → entry_in name es ≡ none
    → Unique es
    → Unique fs
unfolding add_loop entry_in fill strncpy_chars
add_loop-Unique name s b [] fs e n u = cc
add_loop-Unique name s b (x ∷ es) fs e n u = elim (Bool-cases x.in_use) [
  | inr free ↦
      let same : fill x name s b ∷ es ≡ fs = ground arith in
      subst Unique same (
        λ h. entry_in-same_name _ name es (alike x) ∙ ground (arith, matches-in_use x name free),
        u.1,
      )
  | inl used ↦ elim (Option-cases (add_loop name s b es)) [
    | inl p ↦ absurd (ground arith)
    | inr (rest, p) ↦
        let same : x ∷ rest ≡ fs = ground arith in
        let (filled, _, _, l) = add_loop_lem name x.name s b es rest p (ground arith) in
        subst Unique same (
          λ h. elim (Bool-cases (same_name name x.name)) [
            | inl t ↦
                absurd
                  (ground (arith, matches_self name x used (sym ((same_name_iff name x.name).0 t))))
            | inr t ↦ rw (l, t) (u.0 used)
          ],
          add_loop-Unique name s b es rest p (ground arith) u.1,
        )
  ]
]
  where
    alike : (x : DirectoryEntry) → same_name (fill x name s b).name name ≡ true
    alike x = (same_name_iff _ name).1 (chars-strncpy 9 name (drop 9 x.name))

-- Add and Remove keep the names of a directory unique.
pub update-Unique :
    (d : Directory) (name : List ℕ) (s : ℕ) (b : Bool)
    → Unique d.table
    → Unique (add d name s b).1.table × Unique (remove d name).1.table
update-Unique d name s b u = (added, removed)
  where
    added : Unique (add d name s b).1.table
    added = elim (add_cases d name s b) [
      | inl (p, _) ↦ rw p u
      | inr (fs, p, q, e, _, _) ↦ rw p (add_loop-Unique name s b d.table fs q e u)
    ]

    removed : Unique (remove d name).1.table
    removed = elim (remove_cases d name) [
      | inl (p, _, _) ↦ rw p u
      | inr (p, _) ↦ rw p (erase-Unique name d.table u)
    ]
