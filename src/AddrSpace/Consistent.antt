-- ===== src/AddrSpace/Consistent.antt =====
-- The invariant of an address space, and what it keeps when a page moves.
use operating_systems_assign.Prelude.{
  ℕ, ◌<◌, ◌≡◌, ◌≢◌, refl, ap, sym, ◌∙◌, Bool, true, false, Option, none, some, List, ◌==◌,
  if◌then◌else◌, length, length-set, set, get_or-set_self, get_or-set_ne, arith, Bool-cases, inl,
  inr, ◌⊎◌, ℕ_discrete, ==_refl,
}
use operating_systems_assign.BitMap.View.{IsValid, bit}
use operating_systems_assign.AddrSpace.{
  TranslationEntry, AddrSpace, unmapped, entry, in_swap_file, place, swap_in, load_page,
}
use operating_systems_assign.AddrSpace.Victim.{queued, is_valid}

abbrev pub frame_of : AddrSpace → ℕ → ℕ
frame_of s p = (entry s.page_table p).physical_page

abbrev pub valid_at : AddrSpace → ℕ → Bool
valid_at s p = is_valid s.page_table p

-- A page in memory has a marked frame of its own, and is queued.
pub record IsConsistent (s : AddrSpace) : Type 0 where
  pub frames : IsValid s.free_frame
  pub within : (p : ℕ) → valid_at s p ≡ true → frame_of s p < s.free_frame.num_bits
  pub marked : (p : ℕ) → valid_at s p ≡ true → bit s.free_frame (frame_of s p) ≡ true
  pub apart :
      (p q : ℕ) → p ≢ q → valid_at s p ≡ true → valid_at s q ≡ true → frame_of s p ≢ frame_of s q
  pub is_queued : (p : ℕ) → valid_at s p ≡ true → queued s.loaded_pages p ≡ true
  pub in_table : (p : ℕ) → queued s.loaded_pages p ≡ true → p < length s.page_table

-- What a page that has been loaded holds, in memory or in the swap file.
unfoldable pub contents : AddrSpace → ℕ → Option (List ℕ)
contents s p =
    if valid_at s p
    then some (s.main_memory (frame_of s p))
    else (if frame_of s p == in_swap_file then some (s.swap_file p) else none)

-- Every page that has been loaded holds what it held.
abbrev pub Keeps : AddrSpace → AddrSpace → Type 0
Keeps s s' = (p : ℕ) (bytes : List ℕ) → contents s p ≡ some bytes → contents s' p ≡ some bytes

pub entry-set :
    (table : List TranslationEntry) (p q : ℕ) (e : TranslationEntry)
    → p < length table
    → entry (set table p e) q ≡ (if p == q then e else entry table q)
unfolding entry
entry-set table p q e h = elim (ℕ_discrete p q) [
  | yes same ↦
      ap (entry (set table p e)) (sym same)
      ∙ get_or-set_self table p e (unmapped p) h
      ∙ ground (arith, same)
  | no other ↦ get_or-set_ne table p q e (unmapped q) other ∙ ground arith
]

-- The page may go into the frame, which no page in memory has.
pub record IsPlaceable (s : AddrSpace) (page frame : ℕ) : Type 0 where
  pub consistent : IsConsistent s
  pub inside : page < length s.page_table
  pub missing : valid_at s page ≡ false
  pub page_queued : queued s.loaded_pages page ≡ true
  pub frame_within : frame < s.free_frame.num_bits
  pub frame_marked : bit s.free_frame frame ≡ true
  pub unused : (p : ℕ) → valid_at s p ≡ true → frame_of s p ≢ frame

-- The page is in the frame, and everything else is as it was.
pub record Placed (s : AddrSpace) (page frame : ℕ) (s' : AddrSpace) : Type 0 where
  pub valid_bits : (q : ℕ) → valid_at s' q ≡ (if page == q then true else valid_at s q)
  pub frame_numbers : (q : ℕ) → frame_of s' q ≡ (if page == q then frame else frame_of s q)
  pub memory : (f : ℕ) → frame ≢ f → s'.main_memory f ≡ s.main_memory f
  pub restored : frame_of s page ≡ in_swap_file → s'.main_memory frame ≡ s.swap_file page
  pub swap : (q : ℕ) → page ≢ q → s'.swap_file q ≡ s.swap_file q
  pub same_frames : s'.free_frame ≡ s.free_frame
  pub same_queue : s'.loaded_pages ≡ s.loaded_pages
  pub same_length : length s'.page_table ≡ length s.page_table

==_ne : (p q : ℕ) → p ≢ q → (p == q) ≡ false
==_ne p q h = ground arith

pub place-Placed :
    (read_at : ℕ → ℕ → List ℕ) (s : AddrSpace) (page frame : ℕ)
    → IsPlaceable s page frame
    → Placed s page frame (place read_at s page frame)
unfolding place swap_in load_page
place-Placed read_at s page frame c = elim (Bool-cases (frame_of s page == in_swap_file)) [
  | inl e ↦ rw e from_swap
  | inr e ↦ rw e (loaded λ q. let same : frame_of s page ≡ in_swap_file = q in ground arith)
]
  where
    from_swap : Placed s page frame (swap_in s page frame)
    from_swap =
        let new : TranslationEntry = record (entry s.page_table page) {
          physical_page = frame;
          valid = true;
        } in
        record {
          valid_bits = λ q. ground (arith, entry-set s.page_table page q new c.inside);
          frame_numbers = λ q. ground (arith, entry-set s.page_table page q new c.inside);
          memory = λ f h. rw (==_ne frame f h) refl;
          restored = λ h. rw (==_refl frame) refl;
          swap = λ q h. rw (==_ne page q h) refl;
          same_frames = refl;
          same_queue = refl;
          same_length = length-set s.page_table page new;
        }

    loaded : (frame_of s page ≢ in_swap_file) → Placed s page frame (load_page read_at s page frame)
    loaded not_swapped =
        let new : TranslationEntry = record (entry s.page_table page) {
          virtual_page = page;
          physical_page = frame;
          valid = true;
        } in
        record {
          valid_bits = λ q. ground (arith, entry-set s.page_table page q new c.inside);
          frame_numbers = λ q. ground (arith, entry-set s.page_table page q new c.inside);
          memory = λ f h. rw (==_ne frame f h) refl;
          restored = λ h. absurd (not_swapped h);
          swap = λ q h. refl;
          same_frames = refl;
          same_queue = refl;
          same_length = length-set s.page_table page new;
        }

module _ (s s' : AddrSpace) (page frame : ℕ) (c : IsPlaceable s page frame)
    (d : Placed s page frame s') where
  -- A page in memory is the new one, or was there before in the same frame.
  before :
      (p : ℕ)
      → valid_at s' p ≡ true
      → ((page ≡ p) × (frame_of s' p ≡ frame))
        ⊎ ((page ≢ p) × (valid_at s p ≡ true) × (frame_of s' p ≡ frame_of s p))
  before p v = elim (ℕ_discrete page p) [
    | yes e ↦ inl (e, ground (arith, e, d.frame_numbers p))
    | no e ↦ inr (e, ground (arith, e, d.valid_bits p), ground (arith, e, d.frame_numbers p))
  ]

  pub place-IsConsistent : IsConsistent s'
  place-IsConsistent = record {
    frames = rw d.same_frames c.consistent.frames;
    within = λ p v. rw d.same_frames (elim (before p v) [
      | inl (e, f) ↦ rw f c.frame_within
      | inr (e, u, f) ↦ rw f (c.consistent.within p u)
    ]);
    marked = λ p v. rw d.same_frames (elim (before p v) [
      | inl (e, f) ↦ rw f c.frame_marked
      | inr (e, u, f) ↦ rw f (c.consistent.marked p u)
    ]);
    apart = λ p q n v w. elim (before p v) [
      | inl (e, f) ↦ elim (before q w) [
        | inl (e', f') ↦ absurd (n (sym e ∙ e'))
        | inr (e', u', f') ↦ λ h. c.unused q u' (sym f' ∙ sym h ∙ f)
      ]
      | inr (e, u, f) ↦ elim (before q w) [
        | inl (e', f') ↦ λ h. c.unused p u (sym f ∙ h ∙ f')
        | inr (e', u', f') ↦ λ h. c.consistent.apart p q n u u' (sym f ∙ h ∙ f')
      ]
    ];
    is_queued = λ p v. rw d.same_queue (elim (before p v) [
      | inl (e, f) ↦ ap (queued s.loaded_pages) (sym e) ∙ c.page_queued
      | inr (e, u, f) ↦ c.consistent.is_queued p u
    ]);
    in_table = λ p h.
        rw d.same_length (c.consistent.in_table p (ap (λ l. queued l p) (sym d.same_queue) ∙ h));
  }

  pub place-Keeps : Keeps s s'
  unfolding contents
  place-Keeps p bytes e = elim (ℕ_discrete page p) [
    | yes q ↦
        let swapped : (frame_of s page ≡ in_swap_file) × (s.swap_file page ≡ bytes) =
          ground (arith, q, c.missing, e) in
        let moved : contents s' p ≡ some (s'.main_memory frame) =
          ground (arith, q, d.valid_bits p, d.frame_numbers p) in
        moved ∙ ap some (d.restored swapped.0 ∙ swapped.1)
    | no q ↦ elim (Bool-cases (valid_at s p)) [
      | inl v ↦ ground (
        arith,
        q,
        d.valid_bits p,
        d.frame_numbers p,
        d.memory (frame_of s p) (λ h. c.unused p v (sym h)),
        e,
      )
      | inr v ↦ ground (arith, q, d.valid_bits p, d.frame_numbers p, d.swap p q, e)
    ]
  ]
