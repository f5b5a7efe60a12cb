-- ===== src/OpenFileTable/Slots.antt =====
-- What FindFile and RemoveAllFiles do with entries that hold no handle.
use operating_systems_assign.Prelude.{
  ℕ, suc, ◌+◌, ◌<◌, ◌≡◌, refl, ap, subst, ◌∙◌, ◌⊎◌, inl, inr, ◌&&◌, none, some, List, [], ◌∷◌, ◌++◌,
  ltb, ◌==◌, if◌then◌else◌, arith, Bool-cases, Option-cases,
}
use operating_systems_assign.OpenFileTable.{
  FileHandle, Pointer, wild, null, to, Store, deref, OpenFileTable, find_file_loop, find_file,
  get_file, freed, remove_all_loop, remove_all_files,
}

-- An entry that an open handle of the sector fills.
abbrev pub Holds : OpenFileTable → ℕ → Pointer → Type 0
Holds t s p = (h : FileHandle) × (deref t.store p ≡ some h) × (0 < h.use_count) × (h.sector ≡ s)

find_file_loop_prefix :
    (store : Store) (s i : ℕ) (ps qs : List Pointer) (p : Pointer)
    → find_file_loop store s i ps ≡ some none
    → deref store p ≡ none
    → find_file_loop store s i (ps ++ (p ∷ qs)) ≡ none
unfolding find_file_loop
find_file_loop_prefix store s i [] qs p h e = ground arith
find_file_loop_prefix store s i (x ∷ ps) qs p h e = elim (Option-cases (deref store x)) [
  | inl d ↦ rw d
  | inr (f, d) ↦ elim (Bool-cases (ltb 0 f.use_count && f.sector == s)) [
    | inl m ↦ absurd (ground arith)
    | inr m ↦ ground (arith, find_file_loop_prefix store s (i + 1) ps qs p (ground arith) e)
  ]
]

-- FindFile dereferences every entry up to the one that it returns: where an entry holds no handle
-- and no entry before it matches, the call is an access through a bad pointer.
pub find_file_bad_entry :
    (t : OpenFileTable) (s : ℕ) (ps qs : List Pointer) (p : Pointer)
    → t.table ≡ ps ++ (p ∷ qs)
    → find_file (record t { table = ps }) s ≡ some none
    → deref t.store p ≡ none
    → find_file t s ≡ none
unfolding find_file
find_file_bad_entry t s ps qs p e h d =
    ap (find_file_loop t.store s 0) e ∙ find_file_loop_prefix t.store s 0 ps qs p h d

find_file_loop_lem :
    (t : OpenFileTable) (s i k : ℕ) (ps : List Pointer)
    → find_file_loop t.store s i ps ≡ some (some k)
    → (j : ℕ) × (k ≡ i + j) × Holds t s (get_file (record t { table = ps }) j)
unfolding find_file_loop get_file
find_file_loop_lem t s i k [] h = cc
find_file_loop_lem t s i k (x ∷ ps) h = elim (Option-cases (deref t.store x)) [
  | inl d ↦ absurd (ground arith)
  | inr (f, d) ↦ elim (Bool-cases (ltb 0 f.use_count && f.sector == s)) [
    | inl m ↦ (0, ground arith, (f, d, ground arith, ground arith))
    | inr m ↦
        let (j, e, holds) = find_file_loop_lem t s (i + 1) k ps (ground arith) in
        (suc j, omega arith, holds)
  ]
]

-- An index that FindFile returns is that of a handle in use for the sector.
pub find_file_sound :
    (t : OpenFileTable) (s k : ℕ) → find_file t s ≡ some (some k) → Holds t s (get_file t k)
unfolding find_file
find_file_sound t s k h =
    let (j, e, holds) = find_file_loop_lem t s 0 k t.table h in
    let same : j ≡ k = omega arith in subst (λ x. Holds t s (get_file t x)) same holds

deref_bad : (store : Store) (p : Pointer) → (p ≡ null) ⊎ (p ≡ wild) → deref store p ≡ none
unfolding deref
deref_bad store null b = refl
deref_bad store wild b = refl
deref_bad store (to a) b = absurd (ground arith)

remove_all_loop_bad :
    (store : Store) (ps qs : List Pointer) (p : Pointer)
    → (p ≡ null) ⊎ (p ≡ wild)
    → remove_all_loop store (ps ++ (p ∷ qs)) ≡ none
unfolding remove_all_loop
remove_all_loop_bad store [] qs p b = rw (deref_bad store p b)
remove_all_loop_bad store (x ∷ ps) qs p b = elim (Option-cases (deref store x)) [
  | inl d ↦ rw d
  | inr (h, d) ↦
      rw (d, remove_all_loop_bad (if ltb 1 h.use_count then freed x store else store) ps qs p b)
]

-- RemoveAllFiles dereferences every entry: it ends in an access through a bad pointer as soon as
-- one entry is null or was never set, which is the case unless all ten entries are filled.
pub remove_all_files_bad_entry :
    (t : OpenFileTable) (ps qs : List Pointer) (p : Pointer)
    → t.table ≡ ps ++ (p ∷ qs)
    → (p ≡ null) ⊎ (p ≡ wild)
    → remove_all_files t ≡ none
unfolding remove_all_files
remove_all_files_bad_entry t ps qs p e b =
    rw (ap (remove_all_loop t.store) e ∙ remove_all_loop_bad t.store ps qs p b)
