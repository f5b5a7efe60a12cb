-- ===== src/Syscalls/Strings.antt =====
-- The strings that CopyFromUser of dev3-process-management/nachos.tp3/code/userprog/exception.cc takes
-- from a program.
use operating_systems_assign.Prelude.{
  ℕ, zero, suc, ◌+◌, ◌-◌, ◌≤◌, ◌<◌, ◌≡◌, ◌≢◌, refl, sym, ap, subst, ◌∙◌, inl, inr, lt-cases, Option,
  some, List, ◌==◌, lt→ltb, if◌then◌else◌, Bool-cases, ==_iff, length, get_or, set, length-set,
  get_or-set_self, get_or-set_ne, arith,
}
use mathlib.Core.Bool.{true≢false}
use operating_systems_assign.AddrSpace.{TranslationEntry}
use operating_systems_assign.Syscalls.{
  Kernel, Outcome, returned, put_byte, copy_round, copy_loop, copy_string, max_filename_length,
}
use operating_systems_assign.Syscalls.Mapping.{
  OnlyRead, OnlyRead-trans, Holds, Holds-SameMapping, Maps, fetch_byte_lem,
}

-- A round that reads the byte b.
pub copy_loop_step :
    (source n i b : ℕ) (buffer : List ℕ) (k : Kernel) (table : List TranslationEntry)
    → Maps k table
    → Holds k table source i b
    → i < length buffer
    → (k' : Kernel) × (copy_loop source (suc n) i buffer k ≡ (
        if b == 0
        then some (returned (set buffer i b) k')
        else copy_loop source n (i + 1) (set buffer i b) k'))
      × OnlyRead table k k'
unfolding copy_loop copy_round put_byte
copy_loop_step source n i b buffer k table maps holds h =
    let (k', fetch, only) = fetch_byte_lem k table source i b maps holds in
    (k', rw (fetch, lt→ltb i (length buffer) h) refl, only)

-- What the loop leaves when it returns: the bytes from i to the end are copied, those before i kept.
abbrev Copied :
    List TranslationEntry → (ℕ → ℕ) → ℕ → ℕ → List ℕ → Kernel → Option (Outcome (List ℕ)) → Type 0
Copied table bytes i end buffer k result =
    (buffer' : List ℕ) × (k' : Kernel) × (result ≡ some (returned buffer' k'))
    × (length buffer' ≡ length buffer)
    × OnlyRead table k k'
    × ((j : ℕ) → j < i → get_or buffer' j 0 ≡ get_or buffer j 0)
    × ((j : ℕ) → i ≤ j → j ≤ end → get_or buffer' j 0 ≡ bytes j)

-- The loop on a string with its NUL at the place `end`.
terminated :
    (n i end source : ℕ) (bytes : ℕ → ℕ) (buffer : List ℕ) (k : Kernel)
    (table : List TranslationEntry)
    → i ≤ end
    → end < i + n
    → end < length buffer
    → Maps k table
    → ((j : ℕ) → i ≤ j → j ≤ end → Holds k table source j (bytes j))
    → ((j : ℕ) → i ≤ j → j < end → bytes j ≢ 0)
    → bytes end ≡ 0
    → Copied table bytes i end buffer k (copy_loop source n i buffer k)
terminated zero i end source bytes buffer k table p q r maps holds nonzero nul =
    absurd (omega arith)
terminated (suc n) i end source bytes buffer k table p q r maps holds nonzero nul =
    let b = bytes i in
    let (k₁, round, (table₁, maps₁, same₁, memory₁, ended₁, exit₁, log₁)) =
      copy_loop_step source n i b buffer k table maps (holds i (omega arith) p) (omega arith) in
    let buffer₁ = set buffer i b in
    let long = length-set buffer i b in
    let written : get_or buffer₁ i 0 ≡ b = get_or-set_self buffer i b 0 (omega arith) in
    let kept = λ (j : ℕ) (l : j < i). get_or-set_ne buffer i j b 0 (λ e. omega (arith, e, l)) in
    elim (Bool-cases (b == 0)) [
      | inl z ↦
          let here : i ≡ end = elim (lt-cases i end) [
            | inl l ↦ absurd (nonzero i (omega arith) l ((==_iff b 0).0 z))
            | inr g ↦ omega (arith, p, g)
          ] in
          (
            buffer₁,
            k₁,
            round ∙ rw z refl,
            long,
            (table₁, maps₁, same₁, memory₁, ended₁, exit₁, log₁),
            kept,
            λ j l m.
                let e : i ≡ j = omega (arith, here, l, m) in
                subst (λ q. get_or buffer₁ q 0 ≡ bytes q) e written,
          )
      | inr z ↦
          let before : i < end = elim (lt-cases i end) [
            | inl l ↦ l
            | inr g ↦
                let e : end ≡ i = omega (arith, p, g) in
                absurd (true≢false (sym ((==_iff b 0).1 (ap bytes (sym e) ∙ nul)) ∙ z))
          ] in
          let (buffer₂, k₂, rest, long₂, only₂, kept₂, copied₂) =
            terminated n (i + 1) end source bytes buffer₁ k₁ table₁ (omega arith) (omega arith)
              (omega (arith, long)) maps₁
              (λ j l m.
                Holds-SameMapping k k₁ table table₁ source j (bytes j) same₁ memory₁
                  (holds j (omega arith) m))
              (λ j l m. nonzero j (omega arith) m) nul in
          (
            buffer₂,
            k₂,
            round ∙ rw z rest,
            long₂ ∙ long,
            OnlyRead-trans table table₁ k k₁ k₂ same₁ memory₁ ended₁ exit₁ log₁ only₂,
            λ j l. kept₂ j (omega arith) ∙ kept j l,
            λ j l m. elim (lt-cases i j) [
              | inl f ↦ copied₂ j (omega arith) m
              | inr g ↦
                  let e : i ≡ j = omega (arith, l, g) in
                  subst (λ q. get_or buffer₂ q 0 ≡ bytes q) e (kept₂ i (omega arith) ∙ written)
            ],
          )
    ]

-- For a string of at most 98 characters and its NUL that can be read from the memory of the program,
-- and a buffer of 100 bytes: CopyFromUser returns, byte j of the buffer is then byte j of the string,
-- up to its NUL, and neither the memory nor the mapping of a page nor a global has changed.
pub copy_string-terminated :
    (source end : ℕ) (bytes : ℕ → ℕ) (buffer : List ℕ) (k : Kernel) (table : List TranslationEntry)
    → end < max_filename_length - 1
    → length buffer ≡ max_filename_length
    → Maps k table
    → ((j : ℕ) → j ≤ end → Holds k table source j (bytes j))
    → ((j : ℕ) → j < end → bytes j ≢ 0)
    → bytes end ≡ 0
    → (j : ℕ) → j ≤ end
    → (buffer' : List ℕ) × (k' : Kernel) × (copy_string source buffer k
        ≡ some (returned buffer' k'))
      × (get_or buffer' j 0 ≡ bytes j)
      × OnlyRead table k k'
unfolding copy_string
copy_string-terminated source end bytes buffer k table p l maps holds nonzero nul j h =
    let (buffer', k', run, long, only, kept, copied) =
      terminated (max_filename_length - 1) 0 end source bytes buffer k table (omega arith)
        (omega arith) (omega (arith, l, p)) maps (λ j a b. holds j b) (λ j a b. nonzero j b) nul in
    (buffer', k', run, copied j (omega arith) h, only)
