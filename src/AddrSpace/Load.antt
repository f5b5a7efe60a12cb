-- ===== src/AddrSpace/Load.antt =====
-- LoadFromExecutable: the page fault handler's work on an address space.
use operating_systems_assign.Prelude.{
  ℕ, ◌<◌, ◌≡◌, refl, ap, ◌∙◌, ◌⊎◌, inl, inr, Bool, true, false, Option, none, some, List, [], ◌∷◌,
  ◌++◌, length, arith, Bool-cases, lt→ltb, ==_refl,
}
use operating_systems_assign.BitMap.{BitMap}
use operating_systems_assign.BitMap
use operating_systems_assign.BitMap.View.{bit}
use operating_systems_assign.BitMap.Find.{Found, Finds, find_lem}
use operating_systems_assign.AddrSpace.{
  AddrSpace, swap_out, place, load_missing, load_from_executable,
}
use operating_systems_assign.AddrSpace.Victim.{queued, queued-append}
use operating_systems_assign.AddrSpace.Consistent.{
  frame_of, valid_at, IsConsistent, contents, Keeps, IsPlaceable, Placed, place-Placed,
  place-IsConsistent, place-Keeps,
}
use operating_systems_assign.AddrSpace.SwapOut.{requeue, SwapsOut, swap_out_lem}

-- Pushing the page keeps the invariant.
push-IsConsistent :
    (s : AddrSpace) (page : ℕ)
    → IsConsistent s
    → page < length s.page_table
    → IsConsistent (record s { loaded_pages = s.loaded_pages ++ (page ∷ []) })
unfolding queued
push-IsConsistent s page c inside =
    requeue s (s.loaded_pages ++ (page ∷ [])) c
      (λ p v. ground (arith, queued-append s.loaded_pages (page ∷ []) p, c.is_queued p v))
      λ p h. elim (Bool-cases (queued s.loaded_pages p)) [
        | inl q ↦ c.in_table p q
        | inr q ↦
            let same : page ≡ p = ground (arith, queued-append s.loaded_pages (page ∷ []) p) in
            omega (arith, same)
      ]

-- A frame that Find has taken is one for the page.
Found-IsPlaceable :
    (s : AddrSpace) (page k : ℕ) (b : BitMap)
    → IsConsistent s
    → page < length s.page_table
    → valid_at s page ≡ false
    → queued s.loaded_pages page ≡ true
    → Found s.free_frame 0 k b
    → IsPlaceable (record s { free_frame = b }) page k
Found-IsPlaceable s page k b c inside missing q f = record {
  consistent = record {
    frames = f.writes.valid;
    within = λ p v. omega (arith, f.writes.same_bits, c.within p v);
    marked = λ p v. ground (arith, f.writes.bits (frame_of s p), c.marked p v);
    apart = c.apart;
    is_queued = c.is_queued;
    in_table = c.in_table;
  };
  inside = inside;
  missing = missing;
  page_queued = q;
  frame_within = omega (arith, f.writes.same_bits, f.within);
  frame_marked = ground (arith, f.writes.bits k, ==_refl k);
  unused = λ p v e. absurd (ground (arith, c.marked p v, ap (bit s.free_frame) e, f.was_clear));
}

-- What LoadFromExecutable does for a page: TRUE with the page in memory, or FALSE, which means that
-- no frame is free and no page of the address space is in memory.
abbrev pub Loads : AddrSpace → ℕ → Bool × AddrSpace → Type 0
Loads s page r =
    IsConsistent r.1
    × Keeps s r.1
    × (((r.0 ≡ true) × (valid_at r.1 page ≡ true))
        ⊎ ((r.0 ≡ false)
            × ((f : ℕ) → f < s.free_frame.num_bits → bit s.free_frame f ≡ true)
            × ((p : ℕ) → valid_at s p ≡ false)))

placed-Loads :
    (read_at : ℕ → ℕ → List ℕ) (s s' : AddrSpace) (page frame : ℕ)
    → IsPlaceable s' page frame
    → Keeps s s'
    → Loads s page (true, place read_at s' page frame)
placed-Loads read_at s s' page frame c k =
    let s'' : AddrSpace = place read_at s' page frame in
    let d : Placed s' page frame s'' = place-Placed read_at s' page frame c in
    (
      place-IsConsistent s' s'' page frame c d,
      (λ p bytes e. place-Keeps s' s'' page frame c d p bytes (k p bytes e)),
      inl (refl, d.valid_bits page ∙ ground (arith, ==_refl page)),
    )

load_missing_lem :
    (read_at : ℕ → ℕ → List ℕ) (s : AddrSpace) (page : ℕ)
    → IsConsistent s
    → page < length s.page_table
    → valid_at s page ≡ false
    → queued s.loaded_pages page ≡ true
    → (r : Bool × AddrSpace) × (load_missing read_at s page ≡ some r) × Loads s page r
unfolding load_missing SwapsOut contents
load_missing_lem read_at s page c inside missing q = searched (find_lem s.free_frame c.frames)
  where
    swapped :
        ((f : ℕ) → f < s.free_frame.num_bits → bit s.free_frame f ≡ true)
        → BitMap.find s.free_frame ≡ some (none, s.free_frame)
        → (r : Option ℕ × AddrSpace) × (swap_out s ≡ some r) × SwapsOut s page r
        → (r : Bool × AddrSpace) × (load_missing read_at s page ≡ some r) × Loads s page r
    swapped full e (r, u, inl (n, nv, c', k)) =
        ((false, r.1), rw (e, u, n) refl, (c', k, inr (refl, full, nv)))
    swapped full e (r, u, inr (f, n, c', k)) = (
      (true, place read_at r.1 page f),
      rw (e, u, n) refl,
      placed-Loads read_at s r.1 page f c' k,
    )

    searched :
        (r : Option ℕ × BitMap) × (BitMap.find s.free_frame ≡ some r) × Finds s.free_frame 0 r
        → (r : Bool × AddrSpace) × (load_missing read_at s page ≡ some r) × Loads s page r
    searched (r, e, inl (u, full)) =
        swapped (λ f l. full f (omega arith) l) (e ∙ ap some u)
          (swap_out_lem s page c inside missing q)
    searched (r, e, inr (k, b, u, f)) = (
      (true, place read_at (record s { free_frame = b }) page k),
      rw (e ∙ ap some u) refl,
      placed-Loads read_at s (record s { free_frame = b }) page k
          (Found-IsPlaceable s page k b c inside missing q f) (λ p bytes h. h),
    )

-- On an address space that satisfies the invariant, LoadFromExecutable of a page of the table always
-- returns, keeps the invariant and what every page that has been loaded holds, and returns TRUE with
-- the page in memory; or it returns FALSE, when every frame is taken and no page of the address space
-- is in memory.
pub load_from_executable_lem :
    (read_at : ℕ → ℕ → List ℕ) (s : AddrSpace) (page : ℕ)
    → IsConsistent s
    → page < length s.page_table
    → (r : Bool × AddrSpace) × (load_from_executable read_at s page ≡ some r) × Loads s page r
unfolding load_from_executable contents queued
load_from_executable_lem read_at s page c inside = elim (Bool-cases (valid_at s page)) [
  | inl v ↦ (
    (true, pushed),
    rw (lt→ltb page (length s.page_table) inside, v) refl,
    (push-IsConsistent s page c inside, (λ p bytes h. h), inl (refl, v)),
  )
  | inr v ↦
      let (r, e, l) =
        load_missing_lem read_at pushed page (push-IsConsistent s page c inside) inside v
          (ground (arith, queued-append s.loaded_pages (page ∷ []) page, ==_refl page)) in
      (r, rw (lt→ltb page (length s.page_table) inside, v) e, l)
]
  where
    pushed : AddrSpace
    pushed = record s { loaded_pages = s.loaded_pages ++ (page ∷ []) }
