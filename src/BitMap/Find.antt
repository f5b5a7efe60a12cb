-- ===== src/BitMap/Find.antt =====
-- What Find and NumClear compute.
use operating_systems_assign.Prelude.{
  ℕ, zero, suc, ◌+◌, ◌≤◌, ◌<◌, ◌≡◌, refl, ap, ◌∙◌, subst, ◌⊎◌, inl, inr, Bool, true, false, Option,
  none, some, if◌then◌else◌, arith, Bool-cases, ◌>>=◌, ℕ_discrete,
}
use operating_systems_assign.BitMap.{BitMap, find_loop, find, num_clear_loop, num_clear}
use operating_systems_assign.BitMap.View.{IsValid, bit, update, Writes, test_lem, mark_lem}

-- The first clear bit from i on is k, and it has been set.
pub record Found (b : BitMap) (i k : ℕ) (b' : BitMap) : Type 0 where
  pub after : i ≤ k
  pub within : k < b.num_bits
  pub was_clear : bit b k ≡ false
  pub first : (j : ℕ) → i ≤ j → j < k → bit b j ≡ true
  pub writes : Writes b k true b'

-- What a search from i on returns.
abbrev pub Finds : BitMap → ℕ → Option ℕ × BitMap → Type 0
Finds b i r =
    ((r ≡ (none, b)) × ((j : ℕ) → i ≤ j → j < b.num_bits → bit b j ≡ true))
    ⊎ ((k : ℕ) × (b' : BitMap) × (r ≡ (some k, b')) × Found b i k b')

Finds-skip :
    (b : BitMap) (i : ℕ) (r : Option ℕ × BitMap) → bit b i ≡ true → Finds b (i + 1) r → Finds b i r
Finds-skip b i r t (inl (e, all)) =
    inl (e, λ j h k. elim (ℕ_discrete i j) [ yes p ↦ rw (← p) t | no p ↦ all j (omega arith) k ])
Finds-skip b i r t (inr (k, b', e, f)) = inr (
  k,
  b',
  e,
  record {
    after = omega (arith, f.after);
    within = f.within;
    was_clear = f.was_clear;
    first =
        λ j h l. elim (ℕ_discrete i j) [ yes p ↦ rw (← p) t | no p ↦ f.first j (omega arith) l ];
    writes = f.writes;
  },
)

find_loop_lem :
    (n i : ℕ) (b : BitMap)
    → IsValid b
    → i + n ≡ b.num_bits
    → (r : Option ℕ × BitMap) × (find_loop n i b ≡ some r) × Finds b i r
unfolding find_loop
find_loop_lem zero i b v e = ((none, b), refl, inl (refl, λ j h k. absurd (omega arith)))
find_loop_lem (suc n) i b v e = elim (Bool-cases (bit b i)) [
  | inl t ↦
      let (r, p, f) = find_loop_lem n (i + 1) b v (omega arith) in
      (r, rw (test_lem b i v (omega arith), t) p, Finds-skip b i r t f)
  | inr t ↦
      let (b', p, w) = mark_lem b i v (omega arith) in
      (
        (some i, b'),
        rw (test_lem b i v (omega arith), t, p) refl,
        inr (
          i,
          b',
          refl,
          record {
            after = omega arith;
            within = omega arith;
            was_clear = t;
            first = λ j h l. absurd (omega arith);
            writes = w;
          },
        ),
      )
]

-- Find on a valid bitmap never aborts: it returns -1 with nothing changed if every bit is set, and otherwise the
-- least clear bit, which it has set.
pub find_lem : (b : BitMap) → IsValid b → (r : Option ℕ × BitMap) × (find b ≡ some r) × Finds b 0 r
unfolding find
find_lem b v = find_loop_lem b.num_bits 0 b v (omega arith)

-- How many of the n numbers from i on a set leaves out.
unfoldable pub clear_count : (ℕ → Bool) → ℕ → ℕ → ℕ
clear_count f i zero = 0
clear_count f i (suc n) = (if f i then 0 else 1) + clear_count f (i + 1) n

num_clear_loop_lem :
    (n i c : ℕ) (b : BitMap)
    → IsValid b
    → i + n ≡ b.num_bits
    → num_clear_loop n i c b ≡ some (c + clear_count (bit b) i n)
unfolding num_clear_loop clear_count
num_clear_loop_lem zero i c b v e = ap some (omega arith)
num_clear_loop_lem (suc n) i c b v e = rw (test_lem b i v (omega arith)) (
    num_clear_loop_lem n (i + 1) (if bit b i then c else c + 1) b v (omega arith)
    ∙ ap some (ground arith))

-- Counts of sets that agree.
pub clear_count-ext :
    (f g : ℕ → Bool) (i n : ℕ) → ((j : ℕ) → f j ≡ g j) → clear_count f i n ≡ clear_count g i n
unfolding clear_count
clear_count-ext f g i zero h = refl
clear_count-ext f g i (suc n) h = ground (arith, h i, clear_count-ext f g (i + 1) n h)

pub clear_count-all_set :
    (f : ℕ → Bool) (i n : ℕ) → ((j : ℕ) → i ≤ j → j < i + n → f j ≡ true) → clear_count f i n ≡ 0
unfolding clear_count
clear_count-all_set f i zero h = refl
clear_count-all_set f i (suc n) h = ground (
  arith,
  h i (omega arith) (omega arith),
  clear_count-all_set f (i + 1) n (λ j a c. h j (omega arith) (omega arith)),
)

clear_count-before :
    (f : ℕ → Bool) (v : Bool) (k i n : ℕ)
    → k < i
    → clear_count (update f k v) i n ≡ clear_count f i n
unfolding clear_count
clear_count-before f v k i zero h = refl
clear_count-before f v k i (suc n) h =
    ground (arith, clear_count-before f v k (i + 1) n (omega arith))

-- Setting a clear bit takes one from the count.
pub clear_count-update :
    (f : ℕ → Bool) (k i n : ℕ)
    → f k ≡ false
    → i ≤ k
    → k < i + n
    → clear_count (update f k true) i n + 1 ≡ clear_count f i n
unfolding clear_count
clear_count-update f k i zero e h l = absurd (omega arith)
clear_count-update f k i (suc n) e h l = elim (ℕ_discrete k i) [
  | yes p ↦ ground (arith, ap f p, clear_count-before f true k (i + 1) n (omega arith))
  | no p ↦ ground (arith, clear_count-update f k (i + 1) n e (omega arith) (omega arith))
]

-- How many bits are clear.
unfoldable pub total_clear : BitMap → ℕ
total_clear b = clear_count (bit b) 0 b.num_bits

pub total_clear-Writes :
    (b : BitMap) (k : ℕ) (b' : BitMap)
    → bit b k ≡ false
    → k < b.num_bits
    → Writes b k true b'
    → total_clear b' + 1 ≡ total_clear b
unfolding total_clear
total_clear-Writes b k b' e h w = omega (
  arith,
  ap (clear_count (bit b') 0) w.same_bits,
  clear_count-ext (bit b') (update (bit b) k true) 0 b.num_bits w.bits,
  clear_count-update (bit b) k 0 b.num_bits e (omega arith) (omega arith),
)

-- NumClear counts the clear bits.
pub num_clear_lem : (b : BitMap) → IsValid b → num_clear b ≡ some (total_clear b)
unfolding num_clear total_clear
num_clear_lem b v = num_clear_loop_lem b.num_bits 0 0 b v (omega arith) ∙ ap some (omega arith)

-- Where a bit is clear, Find returns one.
pub find_clear :
    (b : BitMap)
    → IsValid b
    → 0 < total_clear b
    → (k : ℕ) × (b' : BitMap) × (find b ≡ some (some k, b')) × Found b 0 k b'
unfolding total_clear
find_clear b v h = from_spec (find_lem b v)
  where
    from_spec :
        (r : Option ℕ × BitMap) × (find b ≡ some r) × Finds b 0 r
        → (k : ℕ) × (b' : BitMap) × (find b ≡ some (some k, b')) × Found b 0 k b'
    from_spec (r, p, inl (_, all)) = absurd (
        omega (arith, h, clear_count-all_set (bit b) 0 b.num_bits (λ j k l. all j k (omega arith))))
    from_spec (r, p, inr (k, b', q, f)) = (k, b', p ∙ ap some q, f)

-- On a valid bitmap a bit that Find returns is one clear bit fewer for NumClear, and the bitmap
-- stays valid.
pub num_clear-find :
    (b b' : BitMap) (i : ℕ)
    → IsValid b
    → find b ≡ some (some i, b')
    → (num_clear b ≡ (num_clear b' >>= λ c. some (c + 1))) × IsValid b'
num_clear-find b b' i v e = from_spec (find_lem b v)
  where
    counted :
        (k : ℕ) (b'' : BitMap)
        → Found b 0 k b''
        → num_clear b ≡ (num_clear b'' >>= λ c. some (c + 1))
    counted k b'' f =
        rw (num_clear_lem b v, num_clear_lem b'' f.writes.valid)
          (ap some (omega (arith, total_clear-Writes b k b'' f.was_clear f.within f.writes)))

    from_spec :
        (r : Option ℕ × BitMap) × (find b ≡ some r) × Finds b 0 r
        → (num_clear b ≡ (num_clear b' >>= λ c. some (c + 1))) × IsValid b'
    from_spec (r, p, inl (q, _)) = cc
    from_spec (r, p, inr (k, b'', q, f)) =
        let same : b'' ≡ b' = cc in
        subst (λ x. (num_clear b ≡ (num_clear x >>= λ c. some (c + 1))) × IsValid x) same
          (counted k b'' f, f.writes.valid)
