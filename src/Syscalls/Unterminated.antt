-- ===== src/Syscalls/Unterminated.antt =====
-- Strings without an end in reach, for CopyFromUser of
-- dev3-process-management/nachos.tp3/code/userprog/exception.cc.
use operating_systems_assign.Prelude.{
  ℕ, zero, suc, ◌+◌, ◌-◌, ◌≤◌, ◌<◌, ◌≡◌, ◌≢◌, refl, sym, ap, ◌∙◌, inl, inr, true, false, some, List,
  ◌==◌, Bool-cases, ==_iff, length, get_or, set, length-set, get_or-set_ne, minus_one, arith,
}
use operating_systems_assign.AddrSpace.{TranslationEntry}
use operating_systems_assign.Machine.Translation.{IsAllowed}
use operating_systems_assign.Syscalls.{
  Kernel, returned, exited, exit_process, copy_round, copy_loop, copy_string, max_filename_length,
}
use operating_systems_assign.Syscalls.Mapping.{
  SameMapping-refl, SameMapping-sym, OnlyRead, OnlyRead-trans, Holds, Holds-SameMapping,
  IsAllowed-SameMapping, Maps, user_address, fetch_byte_fails,
}
use operating_systems_assign.Syscalls.Strings.{copy_loop_step}

-- d rounds over characters that are no NUL, with n to come.
Reached : List TranslationEntry → ℕ → ℕ → ℕ → ℕ → ℕ → List ℕ → Kernel → Type 0
Reached table source r n i d buffer k =
    (buffer' : List ℕ) × (k' : Kernel) × (copy_loop source r i buffer k
      ≡ copy_loop source n (i + d) buffer' k')
    × (length buffer' ≡ length buffer)
    × OnlyRead table k k'
    × ((j : ℕ) → i + d ≤ j → get_or buffer' j 0 ≡ get_or buffer j 0)

reach :
    (d r n i source : ℕ) (bytes : ℕ → ℕ) (buffer : List ℕ) (k : Kernel)
    (table : List TranslationEntry)
    → r ≡ d + n
    → i + d ≤ length buffer
    → Maps k table
    → ((j : ℕ) → i ≤ j → j < i + d → Holds k table source j (bytes j))
    → ((j : ℕ) → i ≤ j → j < i + d → bytes j ≢ 0)
    → Reached table source r n i d buffer k
unfolding Reached
reach zero r n i source bytes buffer k table e h maps holds nonzero =
    let same : r ≡ n = omega arith in
    let stay : i + 0 ≡ i = omega arith in
    (
      buffer,
      k,
      ap (λ q. copy_loop source q i buffer k) same
          ∙ ap (λ q. copy_loop source n q buffer k) (sym stay),
      refl,
      (table, maps, SameMapping-refl table, refl, refl, refl, refl),
      λ j l. refl,
    )
reach (suc d) zero n i source bytes buffer k table e h maps holds nonzero =
    absurd (omega (arith, e))
reach (suc d) (suc r) n i source bytes buffer k table e h maps holds nonzero =
    let b = bytes i in
    let (k₁, round, (table₁, maps₁, same₁, memory₁, ended₁, exit₁, log₁)) =
      copy_loop_step source r i b buffer k table maps (holds i (omega arith) (omega arith))
        (omega arith) in
    let buffer₁ = set buffer i b in
    let goes_on : (b == 0) ≡ false = elim (Bool-cases (b == 0)) [
      | inl z ↦ absurd (nonzero i (omega arith) (omega arith) ((==_iff b 0).0 z))
      | inr f ↦ f
    ] in
    let next : i + 1 + d ≡ i + suc d = omega arith in
    let (buffer₂, k₂, rest, long₂, only₂, kept₂) =
      reach d r n (i + 1) source bytes buffer₁ k₁ table₁ (omega (arith, e))
        (omega (arith, h, length-set buffer i b)) maps₁
        (λ j l m.
          Holds-SameMapping k k₁ table table₁ source j (bytes j) same₁ memory₁
            (holds j (omega arith) (omega arith)))
        (λ j l m. nonzero j (omega arith) (omega arith)) in
    (
      buffer₂,
      k₂,
      round ∙ rw goes_on rest ∙ ap (λ q. copy_loop source n q buffer₂ k₂) next,
      long₂ ∙ length-set buffer i b,
      OnlyRead-trans table table₁ k k₁ k₂ same₁ memory₁ ended₁ exit₁ log₁ only₂,
      λ j l. kept₂ j (omega arith) ∙ get_or-set_ne buffer i j b 0 (λ q. omega (arith, q, l)),
    )

-- For 99 bytes without a NUL that can be read from the memory of the program, and a buffer of 100
-- bytes: CopyFromUser returns, and leaves the last byte of the buffer as it was, so that there need
-- be no NUL in it.
pub copy_string-unterminated :
    (source : ℕ) (bytes : ℕ → ℕ) (buffer : List ℕ) (k : Kernel) (table : List TranslationEntry)
    → length buffer ≡ max_filename_length
    → Maps k table
    → ((j : ℕ) → j < max_filename_length - 1 → Holds k table source j (bytes j))
    → ((j : ℕ) → j < max_filename_length - 1 → bytes j ≢ 0)
    → (buffer' : List ℕ) × (k' : Kernel) × (copy_string source buffer k
        ≡ some (returned buffer' k'))
      × (get_or buffer' (max_filename_length - 1) 0 ≡ get_or buffer (max_filename_length - 1) 0)
unfolding copy_string Reached copy_loop
copy_string-unterminated source bytes buffer k table l maps holds nonzero =
    let (buffer', k', run, long, only, kept) =
      reach (max_filename_length - 1) (max_filename_length - 1) 0 0 source bytes buffer k table refl
        (omega (arith, l)) maps (λ j a b. holds j b) (λ j a b. nonzero j b) in
    (buffer', k', run, kept (max_filename_length - 1) (omega arith))

-- Where a string is interrupted by an address that cannot be read, in front of its NUL and of the end
-- of the buffer of 100 bytes: CopyFromUser ends the process with the code -1.
pub copy_string-unreadable :
    (source stop : ℕ) (bytes : ℕ → ℕ) (buffer : List ℕ) (k : Kernel) (table : List TranslationEntry)
    → stop < max_filename_length - 1
    → length buffer ≡ max_filename_length
    → Maps k table
    → ((j : ℕ) → j < stop → Holds k table source j (bytes j))
    → ((j : ℕ) → j < stop → bytes j ≢ 0)
    → ¬ IsAllowed table (user_address source stop) 1 false
    → (k' : Kernel) × (copy_string source buffer k ≡ some (exited k'))
      × (k'.ended ≡ true)
      × (k'.exit_code ≡ minus_one)
      × (k'.log ≡ k.log)
unfolding copy_string Reached copy_loop copy_round exit_process
copy_string-unreadable source stop bytes buffer k table s l maps holds nonzero refused =
    let (buffer', k₁, run, long, (table₁, maps₁, same₁, memory₁, ended₁, exit₁, log₁), kept) =
      reach stop (max_filename_length - 1) (suc (max_filename_length - 2 - stop)) 0 source bytes
        buffer k table (omega (arith, s)) (omega (arith, l, s)) maps
        (λ j a b. holds j (omega (arith, b))) (λ j a b. nonzero j (omega (arith, b))) in
    let still = λ (allowed : IsAllowed table₁ (user_address source stop) 1 false).
      refused
        (IsAllowed-SameMapping table₁ table (user_address source stop) 1 false
          (SameMapping-sym table table₁ same₁) allowed).0 in
    let (k₂, fetch, log₂) = fetch_byte_fails k₁ table₁ source stop maps₁ still in
    let here : 0 + stop ≡ stop = omega arith in
    let n = suc (max_filename_length - 2 - stop) in
    (
      exit_process minus_one k₂,
      run ∙ ap (λ q. copy_loop source n q buffer' k₁) here ∙ rw fetch refl,
      refl,
      refl,
      log₂ ∙ log₁,
    )
