-- ===== src/OpenFileTable/Lifetime.antt =====
-- Adding a handle to the table and removing it.
use operating_systems_assign.Prelude.{
  ℕ, zero, suc, ◌+◌, ◌-◌, ◌<◌, ◌≡◌, ◌≢◌, refl, ap, ap₂, sym, ◌∙◌, true, false, ◌&&◌, none, some,
  List, [], ◌∷◌, ltb, leb, ◌==◌, ==_refl, get_or, lt→ltb, set, arith, Bool-cases, Option-cases,
  ◌>>=◌, inl, inr, is_nonneg,
}
use operating_systems_assign.OpenFileTable.{
  FileHandle, Pointer, wild, null, to, Store, put, deref, find_file_loop, increment_use_count,
  decrement_use_count, OpenFileTable, pred_int, empty_at, is_handle, add_file_loop, add_file,
  handle_index, remove_file,
}

-- The handle at an address is not in the table.
abbrev pub NotIn : ℕ → List Pointer → Type 0
NotIn f [] = Unit {0}
NotIn f (wild ∷ ps) = NotIn f ps
NotIn f (null ∷ ps) = NotIn f ps
NotIn f (to a ∷ ps) = (a ≢ f) × NotIn f ps

-- The entry that AddFile chooses is where RemoveFile finds the handle again.
add_then_find :
    (store : Store) (f i k : ℕ) (ps : List Pointer)
    → NotIn f ps
    → add_file_loop store f i ps ≡ some (empty_at k)
    → (j : ℕ) × (k ≡ i + j)
      × (handle_index f i (set ps j (to f)) ≡ some (some k))
      × (set (set ps j (to f)) j null ≡ ps)
unfolding add_file_loop handle_index is_handle
add_then_find store f i k [] n e = cc
add_then_find store f i k (wild ∷ ps) n e = cc
add_then_find store f i k (null ∷ ps) n e = (0, ground arith, ground (arith, ==_refl f), refl)
add_then_find store f i k (to a ∷ ps) n e = elim (Option-cases (store a)) [
  | inl p ↦ absurd (ground arith)
  | inr (h, p) ↦ elim (Option-cases (store f)) [
    | inl q ↦ absurd (ground arith)
    | inr (g, q) ↦ elim (Bool-cases (h.file_id == g.file_id)) [
      | inl same ↦ absurd (ground arith)
      | inr other ↦
          let (j, r, s, t) = add_then_find store f (i + 1) k ps n.1 (ground arith) in
          (suc j, omega arith, ground (arith, n.0), ap (λ qs. to a ∷ qs) t)
    ]
  ]
]

add_file_empty :
    (t : OpenFileTable) (f k : ℕ)
    → t.count < 10
    → add_file_loop t.store f 0 t.table ≡ some (empty_at k)
    → add_file t f ≡ some (true, record t { table = set t.table k (to f); count = t.count + 1 })
unfolding add_file
add_file_empty t f k c e =
    let room : (is_nonneg t.count && leb 10 t.count) ≡ false = ground arith in rw (room, e)

remove_file_last :
    (t : OpenFileTable) (f k : ℕ) (g : FileHandle)
    → t.store f ≡ some g
    → g.use_count ≡ 1
    → handle_index f 0 t.table ≡ some (some k)
    → remove_file t f
      ≡ some (
        true,
        record t {
          table = set t.table k null;
          count = pred_int t.count;
          store = put t.store f none;
        },
      )
unfolding remove_file
remove_file_last t f k g s u e =
    let last : ltb 1 g.use_count ≡ false = ground arith in rw (e, s, last)

-- A handle with one user that AddFile has put into a null entry is closed by RemoveFile: the
-- entries and the count are as they were before both calls, and the handle is freed.
pub remove_file-add_file :
    (t : OpenFileTable) (f k : ℕ) (g : FileHandle)
    → t.count < 10
    → t.store f ≡ some g
    → g.use_count ≡ 1
    → NotIn f t.table
    → add_file_loop t.store f 0 t.table ≡ some (empty_at k)
    → (add_file t f >>= λ r. remove_file r.1 f)
      ≡ some (true, record t { store = put t.store f none })
remove_file-add_file t f k g c s u n e = removed (add_then_find t.store f 0 k t.table n e)
  where
    added : OpenFileTable
    added = record t { table = set t.table k (to f); count = t.count + 1 }

    removed :
        (j : ℕ) × (k ≡ 0 + j)
          × (handle_index f 0 (set t.table j (to f)) ≡ some (some k))
          × (set (set t.table j (to f)) j null ≡ t.table)
        → (add_file t f >>= λ r. remove_file r.1 f)
          ≡ some (true, record t { store = put t.store f none })
    removed (j, p, q, r) =
        let same : j ≡ k = omega arith in
        rw (add_file_empty t f k c e) (
          remove_file_last added f k g s u
            (ap (λ m. handle_index f 0 (set t.table m (to f))) (sym same) ∙ q)
          ∙ ap₂
              (λ ps n. some (
                true,
                let s : OpenFileTable = record {
                  table = ps;
                  count = n;
                  store = put t.store f none;
                } in
                    s,
              ))
              (ap (λ m. set (set t.table m (to f)) m null) (sym same) ∙ r) (omega arith))

-- An entry that FindFile has passed or returned can be compared with a handle, so RemoveFile finds
-- the handle that FindFile returned.
pub handle_index-find_file_loop :
    (store : Store) (s a i k j : ℕ) (ps : List Pointer)
    → find_file_loop store s i ps ≡ some (some k)
    → k ≡ i + j
    → get_or ps j wild ≡ to a
    → (n : ℕ) × (handle_index a i ps ≡ some (some n))
unfolding find_file_loop handle_index is_handle deref
handle_index-find_file_loop store s a i k j [] e p g = cc
handle_index-find_file_loop store s a i k j (wild ∷ ps) e p g = absurd (ground arith)
handle_index-find_file_loop store s a i k j (null ∷ ps) e p g = absurd (ground arith)
handle_index-find_file_loop store s a i k zero (to b ∷ ps) e p g = (i, ground (arith, ==_refl a))
handle_index-find_file_loop store s a i k (suc j) (to b ∷ ps) e p g = elim (Bool-cases (a == b)) [
  | inl same ↦ (i, rw same)
  | inr other ↦ elim (Option-cases (store b)) [
    | inl q ↦ absurd (ground arith)
    | inr (h, q) ↦ elim (Bool-cases (ltb 0 h.use_count && h.sector == s)) [
      | inl m ↦ absurd (ground arith)
      | inr m ↦
          let (n, r) =
            handle_index-find_file_loop store s a (i + 1) k j ps (ground arith) (omega arith) g in
          (n, rw other r)
    ]
  ]
]

-- One more user and one less.
pub remove_file-increment_use_count :
    (t : OpenFileTable) (a j : ℕ) (h : FileHandle)
    → handle_index a 0 t.table ≡ some (some j)
    → t.store a ≡ some h
    → 0 < h.use_count
    → remove_file (record t { store = put t.store a (some (increment_use_count h)) }) a
      ≡ some (true, t)
unfolding remove_file put increment_use_count decrement_use_count
remove_file-increment_use_count t a j h e s u =
    rw (e, ==_refl a, lt→ltb 1 (h.use_count + 1) (omega arith))
      (λ i. some (true, record t { store = λ x. same x i }))
  where
    minus : (n : ℕ) → n + 1 - 1 ≡ n
    minus n = omega arith

    same :
        (x : ℕ)
        → put
            (put t.store a (some (increment_use_count h)))
            a
            (some (decrement_use_count (increment_use_count h)))
            x
          ≡ t.store x
    same x = elim (Bool-cases (a == x)) [
      | inl q ↦
          let here : a ≡ x = ground arith in
          rw q
            (ap some (λ i. record h { use_count = minus h.use_count i }) ∙ sym s ∙ ap t.store here)
      | inr q ↦ rw q refl
    ]
