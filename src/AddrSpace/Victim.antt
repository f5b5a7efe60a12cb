-- ===== src/AddrSpace/Victim.antt =====
-- The queue of loaded pages: what the loop of SwapOut finds in it.
use operating_systems_assign.Prelude.{
  ℕ, ◌<◌, ◌≡◌, refl, ap, sym, ◌∙◌, ◌⊎◌, inl, inr, Bool, true, false, ◌||◌, Option, none, some, List,
  [], ◌∷◌, ◌++◌, ◌==◌, length, arith, lt→ltb, Bool-cases, ==_refl,
}
use mathlib.Core.List.{append_assoc, append-nil}
use operating_systems_assign.AddrSpace.{TranslationEntry, entry, victim_loop}

-- Is the page in the queue?
unfoldable pub queued : List ℕ → ℕ → Bool
queued [] p = false
queued (q ∷ queue) p = (q == p) || queued queue p

pub queued-append : (xs ys : List ℕ) (p : ℕ) → queued (xs ++ ys) p ≡ (queued xs p || queued ys p)
unfolding queued
queued-append [] ys p = refl
queued-append (x ∷ xs) ys p = ground (arith, queued-append xs ys p)

abbrev pub is_valid : List TranslationEntry → ℕ → Bool
is_valid table p = (entry table p).valid

-- How the loop ends: no page of the queue is valid, or the first valid one is at the front; the
-- queue holds the pages that it held.
abbrev pub Chosen : List TranslationEntry → List ℕ → Option ℕ × List ℕ → Type 0
Chosen table queue r =
    ((p : ℕ) → queued r.1 p ≡ queued queue p)
    × (((r.0 ≡ none) × ((p : ℕ) → queued queue p ≡ true → is_valid table p ≡ false))
        ⊎ ((v : ℕ) × (rest : List ℕ) × (r ≡ (some v, v ∷ rest)) × (is_valid table v ≡ true)))

queued-rotate :
    (x p : ℕ) (xs ys : List ℕ) → queued (xs ++ (ys ++ (x ∷ []))) p ≡ queued (x ∷ (xs ++ ys)) p
unfolding queued
queued-rotate x p xs ys =
    ground (
      arith,
      queued-append xs (ys ++ (x ∷ [])) p,
      queued-append ys (x ∷ []) p,
      queued-append xs ys p,
    )

Chosen-queued :
    (table : List TranslationEntry) (queue other : List ℕ) (r : Option ℕ × List ℕ)
    → ((p : ℕ) → queued queue p ≡ queued other p)
    → Chosen table queue r
    → Chosen table other r
Chosen-queued table queue other r same (k, inl (e, f)) =
    (λ p. k p ∙ same p, inl (e, λ p h. f p (same p ∙ h)))
Chosen-queued table queue other r same (k, inr c) = (λ p. k p ∙ same p, inr c)

victim_step :
    (todo done : List ℕ) (table : List TranslationEntry)
    → ((p : ℕ) → queued (todo ++ done) p ≡ true → p < length table)
    → ((p : ℕ) → queued done p ≡ true → is_valid table p ≡ false)
    → (r : Option ℕ × List ℕ) × (victim_loop (length todo) (todo ++ done) table ≡ some r)
      × Chosen table (todo ++ done) r
unfolding victim_loop queued
victim_step [] done table t d = ((none, done), refl, (λ p. refl, inl (refl, d)))
victim_step (x ∷ todo) done table t d = elim (Bool-cases (is_valid table x)) [
  | inl v ↦ (
    (some x, x ∷ (todo ++ done)),
    rw (lt→ltb x (length table) inside, v) refl,
    (λ p. refl, inr (x, todo ++ done, refl, v)),
  )
  | inr v ↦
      let (r, e, c) =
        victim_step todo (done ++ (x ∷ [])) table
          (λ p h. t p (sym (queued-rotate x p todo done) ∙ h))
          λ p h. passed p v (sym (queued-append done (x ∷ []) p) ∙ h) in
      (
        r,
        rw (lt→ltb x (length table) inside, v, append_assoc todo done (x ∷ [])) e,
        Chosen-queued table (todo ++ (done ++ (x ∷ []))) (x ∷ (todo ++ done)) r
            (λ p. queued-rotate x p todo done) c,
      )
]
  where
    inside : x < length table
    inside = t x (ground (arith, ==_refl x))

    passed :
        (p : ℕ)
        → is_valid table x ≡ false
        → (queued done p || ((x == p) || false)) ≡ true
        → is_valid table p ≡ false
    passed p v h = elim (Bool-cases (queued done p)) [
      | inl q ↦ d p q
      | inr q ↦ let same : x ≡ p = ground arith in ap (is_valid table) (sym same) ∙ v
    ]

-- The loop of SwapOut.
pub victim_loop_lem :
    (queue : List ℕ) (table : List TranslationEntry)
    → ((p : ℕ) → queued queue p ≡ true → p < length table)
    → (r : Option ℕ × List ℕ) × (victim_loop (length queue) queue table ≡ some r)
      × Chosen table queue r
unfolding queued
victim_loop_lem queue table t =
    let (r, e, c) =
      victim_step queue [] table (λ p h. t p (ap (λ q. queued q p) (sym (append-nil queue)) ∙ h))
        (λ p h. cc) in
    (
      r,
      ap (λ q. victim_loop (length queue) q table) (sym (append-nil queue)) ∙ e,
      Chosen-queued table (queue ++ []) queue r (λ p. ap (λ q. queued q p) (append-nil queue)) c,
    )
