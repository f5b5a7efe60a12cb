-- ===== src/AddrSpace/SwapOut.antt =====
-- SwapOut: a page of the address space gives its frame up.
use operating_systems_assign.Prelude.{
  ℕ, ◌<◌, ◌≡◌, ◌≢◌, refl, ap, sym, ◌∙◌, ◌⊎◌, inl, inr, true, false, Option, none, some, List, [],
  ◌∷◌, ◌==◌, if◌then◌else◌, length, length-set, arith, Bool-cases, ℕ_discrete, ==_refl,
}
use operating_systems_assign.AddrSpace.{
  TranslationEntry, AddrSpace, entry, in_swap_file, victim_loop, swapped_out, swap_out,
}
use operating_systems_assign.AddrSpace.Victim.{queued, Chosen, victim_loop_lem}
use operating_systems_assign.AddrSpace.Consistent.{
  frame_of, valid_at, IsConsistent, contents, Keeps, entry-set, IsPlaceable,
}

-- A queue with the same pages, or with one more of the table.
pub requeue :
    (s : AddrSpace) (queue : List ℕ)
    → IsConsistent s
    → ((p : ℕ) → valid_at s p ≡ true → queued queue p ≡ true)
    → ((p : ℕ) → queued queue p ≡ true → p < length s.page_table)
    → IsConsistent (record s { loaded_pages = queue })
requeue s queue c q t = record {
  frames = c.frames;
  within = c.within;
  marked = c.marked;
  apart = c.apart;
  is_queued = q;
  in_table = t;
}

module _ (s : AddrSpace) (page v : ℕ) (rest : List ℕ) (c : IsConsistent s)
    (inside : page < length s.page_table) (missing : valid_at s page ≡ false)
    (page_queued : queued s.loaded_pages page ≡ true)
    (same : (p : ℕ) → queued (v ∷ rest) p ≡ queued s.loaded_pages p)
    (chosen : valid_at s v ≡ true) where
  abbrev out : AddrSpace
  out = swapped_out s v (v ∷ rest)

  out_entry :
      (q : ℕ)
      → (valid_at out q ≡ (if v == q then false else valid_at s q))
        × (frame_of out q ≡ (if v == q then in_swap_file else frame_of s q))
  unfolding swapped_out queued
  out_entry q =
      let new : TranslationEntry = record (entry s.page_table v) {
        valid = false;
        physical_page = in_swap_file;
      } in
      let v_inside : v < length s.page_table =
        c.in_table v (sym (same v) ∙ ground (arith, ==_refl v)) in
      ground (arith, entry-set s.page_table v q new v_inside)

  out_before :
      (p : ℕ)
      → valid_at out p ≡ true
      → (v ≢ p) × (valid_at s p ≡ true) × (frame_of out p ≡ frame_of s p)
  out_before p h = elim (ℕ_discrete v p) [
    | yes e ↦ absurd (ground (arith, e, (out_entry p).0))
    | no e ↦ (e, ground (arith, e, (out_entry p).0), ground (arith, e, (out_entry p).1))
  ]

  out_length : length out.page_table ≡ length s.page_table
  unfolding swapped_out
  out_length =
      length-set s.page_table v
        (record (entry s.page_table v) { valid = false; physical_page = in_swap_file })

  still_queued : (p : ℕ) → v ≢ p → queued s.loaded_pages p ≡ true → queued out.loaded_pages p ≡ true
  unfolding swapped_out queued
  still_queued p n h = ground (arith, n, same p)

  out-IsConsistent : IsConsistent out
  unfolding swapped_out queued
  out-IsConsistent = record {
    frames = c.frames;
    within = λ p h. let (n, u, f) = out_before p h in rw f (c.within p u);
    marked = λ p h. let (n, u, f) = out_before p h in rw f (c.marked p u);
    apart = λ p q n h k.
        let (_, u, f) = out_before p h in
        let (_, w, g) = out_before q k in λ e. c.apart p q n u w (sym f ∙ e ∙ g);
    is_queued = λ p h. let (n, u, f) = out_before p h in still_queued p n (c.is_queued p u);
    in_table = λ p h. rw out_length (c.in_table p (ground (arith, same p)));
  }

  out-IsPlaceable : IsPlaceable out page (frame_of s v)
  unfolding swapped_out
  out-IsPlaceable =
      let other : v ≢ page = λ e. absurd (ground (arith, e, chosen, missing)) in
      record {
        consistent = out-IsConsistent;
        inside = rw out_length inside;
        missing = ground (arith, other, (out_entry page).0);
        page_queued = still_queued page other page_queued;
        frame_within = c.within v chosen;
        frame_marked = c.marked v chosen;
        unused = λ p h.
            let (n, u, f) = out_before p h in
            λ e. c.apart p v (λ i. n (sym i)) u chosen (sym f ∙ e);
      }

  out-Keeps : Keeps s out
  unfolding contents swapped_out
  out-Keeps p bytes e = elim (ℕ_discrete v p) [
    | yes q ↦
        let held : some (s.main_memory (frame_of s v)) ≡ some bytes =
          ground (arith, q, chosen, e) in
        let moved : contents out p ≡ some (s.main_memory (frame_of s v)) =
          ground (arith, q, (out_entry p).0, (out_entry p).1) in
        moved ∙ held
    | no q ↦ ground (arith, q, (out_entry p).0, (out_entry p).1, e)
  ]

-- What SwapOut returns for a page that is not in memory: a frame for it, or -1 if no page of the
-- address space is in memory.
unfoldable pub SwapsOut : AddrSpace → ℕ → Option ℕ × AddrSpace → Type 0
SwapsOut s page r =
    ((r.0 ≡ none) × ((p : ℕ) → valid_at s p ≡ false) × IsConsistent r.1 × Keeps s r.1)
    ⊎ ((f : ℕ) × (r.0 ≡ some f) × IsPlaceable r.1 page f × Keeps s r.1)

pub swap_out_lem :
    (s : AddrSpace) (page : ℕ)
    → IsConsistent s
    → page < length s.page_table
    → valid_at s page ≡ false
    → queued s.loaded_pages page ≡ true
    → (r : Option ℕ × AddrSpace) × (swap_out s ≡ some r) × SwapsOut s page r
unfolding swap_out SwapsOut contents queued
swap_out_lem s page c inside missing q =
    ended (victim_loop_lem s.loaded_pages s.page_table c.in_table)
  where
    some_queued : (queue : List ℕ) → queued queue page ≡ true → (length queue == 0) ≡ false
    some_queued [] h = cc
    some_queued (x ∷ queue) h = ground arith

    ended :
        (r : Option ℕ × List ℕ) × (victim_loop (length s.loaded_pages) s.loaded_pages s.page_table
            ≡ some r)
          × Chosen s.page_table s.loaded_pages r
        → (r : Option ℕ × AddrSpace) × (swap_out s ≡ some r) × SwapsOut s page r
    ended (r, e, (k, inl (n, f))) = (
      (none, record s { loaded_pages = r.1 }),
      rw (some_queued s.loaded_pages q, e, n) refl,
      inl (
        refl,
        none_valid,
        requeue s r.1 c (λ p h. k p ∙ c.is_queued p h) (λ p h. c.in_table p (sym (k p) ∙ h)),
        λ p b h. h,
      ),
    )
      where
        none_valid : (p : ℕ) → valid_at s p ≡ false
        none_valid p = elim (Bool-cases (valid_at s p)) [
          | inl v ↦ f p (c.is_queued p v)
          | inr v ↦ v
        ]
    ended (r, e, (k, inr (v, rest, u, chosen))) =
        let same : (p : ℕ) → queued (v ∷ rest) p ≡ queued s.loaded_pages p =
          λ p. ap (λ x. queued x.1 p) (sym u) ∙ k p in
        (
          (some (frame_of s v), swapped_out s v (v ∷ rest)),
          rw (some_queued s.loaded_pages q, e, ap (λ x. x.0) u, ap (λ x. x.1) u) refl,
          inr (
            frame_of s v,
            refl,
            out-IsPlaceable s page v rest c inside missing q same chosen,
            out-Keeps s page v rest c inside missing q same chosen,
          ),
        )
