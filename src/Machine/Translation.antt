-- ===== src/Machine/Translation.antt =====
-- Translate of dev4-memory-management/nachos.tp4/code/machine/translate.cc for a machine with a page
-- table.
use operating_systems_assign.Prelude.{
  ℕ, zero, suc, ◌+◌, ◌*◌, ◌/◌, ◌%◌, ◌≤◌, ◌<◌, ◌≡◌, ◌≢◌, refl, sym, ap, ◌∙◌, ◌⊎◌, inl, inr, Bool,
  true, false, ◌&&◌, none, some, List, ◌==◌, Bool-cases, lt-cases, le→leb, lt→leb, lt→ltb, length,
  set, arith,
}
use mathlib.Core.Bool.{true≢false}
use operating_systems_assign.Prelude.Bits.{bit_and-one, bit_and-three}
use operating_systems_assign.AddrSpace.{TranslationEntry, entry, page_size}
use operating_systems_assign.Machine.{
  Machine, ExceptionType, page_fault, read_only, bus_error, address_error, num_phys_pages,
  memory_size, misaligned, find_entry, page_table_entry, table_of, entries, put_table, with_entries,
  touched, use_entry, translate,
}

-- The sizes that ReadMem and WriteMem know.
abbrev pub IsSize : ℕ → Type 0
IsSize size = (size ≡ 1) ⊎ (size ≡ 2) ⊎ (size ≡ 4)

zero-cases : (n : ℕ) → (((n == 0) ≡ true) × (n ≡ 0)) ⊎ (((n == 0) ≡ false) × (n ≢ 0))
zero-cases zero = inl (refl, refl)
zero-cases (suc n) = inr (ground arith, λ e. omega (arith, e))

misaligned_lem :
    (virt_addr size : ℕ)
    → IsSize size
    → ((misaligned virt_addr size ≡ true) × (virt_addr % size ≢ 0))
      ⊎ ((misaligned virt_addr size ≡ false) × (virt_addr % size ≡ 0))
unfolding misaligned
misaligned_lem v size (inl e) = rw e (inr (refl, omega arith))
misaligned_lem v size (inr (inl e)) =
    rw (e, bit_and-one v)
      (elim (zero-cases (v % 2)) [
        | inl z ↦ rw z.0 (inr (refl, z.1))
        | inr z ↦ rw z.0 (inl (refl, z.1))
      ])
misaligned_lem v size (inr (inr e)) =
    rw (e, bit_and-three v)
      (elim (zero-cases (v % 4)) [
        | inl z ↦ rw z.0 (inr (refl, z.1))
        | inr z ↦ rw z.0 (inl (refl, z.1))
      ])

-- The entry that the page table has for an address.
abbrev pub entry_for : List TranslationEntry → ℕ → TranslationEntry
entry_for table virt_addr = entry table (virt_addr / page_size)

-- What Translate wants of an access.
abbrev pub IsAllowed : List TranslationEntry → ℕ → ℕ → Bool → Type 0
IsAllowed table virt_addr size writing =
    (virt_addr % size ≡ 0)
    × (virt_addr / page_size < length table)
    × ((entry_for table virt_addr).valid ≡ true)
    × (((entry_for table virt_addr).read_only && writing) ≡ false)
    × ((entry_for table virt_addr).physical_page < num_phys_pages)

abbrev pub physical_address : List TranslationEntry → ℕ → ℕ
physical_address table virt_addr =
    (entry_for table virt_addr).physical_page * page_size + virt_addr % page_size

-- The machine behind the translation, with the bits of the entry set.
abbrev pub marked : Machine → List TranslationEntry → ℕ → Bool → Machine
marked m table virt_addr writing = record m {
  page_table =
      some (set table (virt_addr / page_size) (touched writing (entry_for table virt_addr)));
}

-- Why Translate raises an exception.
abbrev pub Cause : List TranslationEntry → ℕ → ℕ → Bool → ExceptionType → Type 0
Cause table virt_addr size writing exception =
    ((exception ≡ address_error)
      × ((virt_addr % size ≢ 0) ⊎ (length table ≤ virt_addr / page_size)))
    ⊎ ((exception ≡ page_fault)
        × (virt_addr / page_size < length table)
        × ((entry_for table virt_addr).valid ≡ false))
    ⊎ ((exception ≡ read_only)
        × (virt_addr / page_size < length table)
        × ((entry_for table virt_addr).valid ≡ true)
        × (((entry_for table virt_addr).read_only && writing) ≡ true))
    ⊎ ((exception ≡ bus_error)
        × (virt_addr / page_size < length table)
        × ((entry_for table virt_addr).valid ≡ true)
        × (num_phys_pages ≤ (entry_for table virt_addr).physical_page))

-- An aligned access does not cross the end of its page.
inside_page :
    (virt_addr size : ℕ)
    → IsSize size
    → virt_addr % size ≡ 0
    → virt_addr % page_size + size ≤ page_size
inside_page v size (inl e) a = omega (arith, e)
inside_page v size (inr (inl e)) a =
    (let even : v % 2 ≡ 0 = ap (λ k. v % k) (sym e) ∙ a in omega (arith, e, even))
inside_page v size (inr (inr e)) a =
    (let even : v % 4 ≡ 0 = ap (λ k. v % k) (sym e) ∙ a in omega (arith, e, even))

-- The tests behind that of the valid bit.
valid_entry :
    (m : Machine) (table : List TranslationEntry) (virt_addr size : ℕ) (writing : Bool)
    → IsSize size
    → m.tlb ≡ none
    → m.page_table ≡ some table
    → misaligned virt_addr size ≡ false
    → virt_addr % size ≡ 0
    → virt_addr / page_size < length table
    → (entry_for table virt_addr).valid ≡ true
    → ((((entry_for table virt_addr).read_only && writing) ≡ false)
        × ((entry_for table virt_addr).physical_page < num_phys_pages)
        × (translate m virt_addr size writing
            ≡ some (inr (physical_address table virt_addr, marked m table virt_addr writing)))
        × (virt_addr % page_size + size ≤ page_size)
        × (physical_address table virt_addr + size ≤ memory_size))
      ⊎ ((exception : ExceptionType) × (translate m virt_addr size writing ≡ some (inl exception))
          × Cause table virt_addr size writing exception)
unfolding translate find_entry page_table_entry use_entry entries table_of with_entries put_table
    entry
valid_entry m table v size w s t p a al l va =
    let inside = lt→leb (length table) (v / page_size) l in
    let found = lt→ltb (v / page_size) (length table) l in
    elim (Bool-cases ((entry_for table v).read_only && w)) [
      | inl ro ↦
          let eq : translate m v size w ≡ some (inl read_only) =
            rw (a, t, p, inside, found, va, ro) refl in
          inr (read_only, eq, inr (inr (inl (refl, l, va, ro))))
      | inr ro ↦ elim (lt-cases (entry_for table v).physical_page num_phys_pages) [
        | inr f ↦
            let high = le→leb num_phys_pages (entry_for table v).physical_page f in
            let eq : translate m v size w ≡ some (inl bus_error) =
              rw (a, t, p, inside, found, va, ro, high) refl in
            inr (bus_error, eq, inr (inr (inr (refl, l, va, f))))
        | inl f ↦
            let low = lt→leb num_phys_pages (entry_for table v).physical_page f in
            let page = inside_page v size s al in
            let fits : physical_address table v + size ≤ memory_size = omega (arith, page, f) in
            let checked = le→leb (physical_address table v + size) memory_size fits in
            let eq : translate m v size w
                ≡ some (inr (physical_address table v, marked m table v w)) =
              rw (a, t, p, inside, found, va, ro, low, checked) refl in
            inl (ro, f, eq, page, fits)
      ]
    ]

-- With a page table, for 1, 2 or 4 bytes, Translate never fails an assertion. Either the access is
-- allowed, and then it stays inside one page and inside the memory, at the frame of the entry and the
-- offset of the address, and only the bits of that entry change; or there is an exception, for the
-- reason that its name says, and but for an address error that reason is a bit or the frame of an
-- entry inside the table.
pub translate_lem :
    (m : Machine) (table : List TranslationEntry) (virt_addr size : ℕ) (writing : Bool)
    → IsSize size
    → m.tlb ≡ none
    → m.page_table ≡ some table
    → (IsAllowed table virt_addr size writing
        × (translate m virt_addr size writing
            ≡ some (inr (physical_address table virt_addr, marked m table virt_addr writing)))
        × (virt_addr % page_size + size ≤ page_size)
        × (physical_address table virt_addr + size ≤ memory_size))
      ⊎ ((exception : ExceptionType) × (translate m virt_addr size writing ≡ some (inl exception))
          × Cause table virt_addr size writing exception)
unfolding translate find_entry page_table_entry use_entry entries table_of with_entries put_table
translate_lem m table v size w s t p = elim (misaligned_lem v size s) [
  | inl a ↦ inr (address_error, rw a.0 refl, inl (refl, inl a.1))
  | inr a ↦ elim (lt-cases (v / page_size) (length table)) [
    | inr l ↦
        let out = le→leb (length table) (v / page_size) l in
        let eq : translate m v size w ≡ some (inl address_error) = rw (a.0, t, p, out) refl in
        inr (address_error, eq, inl (refl, inr l))
    | inl l ↦
        let inside = lt→leb (length table) (v / page_size) l in
        let found = lt→ltb (v / page_size) (length table) l in
        elim (Bool-cases (entry_for table v).valid) [
          | inr va ↦
              let eq : translate m v size w ≡ some (inl page_fault) =
                rw (a.0, t, p, inside, found, va) refl in
              inr (page_fault, eq, inr (inl (refl, l, va)))
          | inl va ↦ elim (valid_entry m table v size w s t p a.0 a.1 l va) [
            | inl ok ↦ inl ((a.1, l, va, ok.0, ok.1), ok.2, ok.3, ok.4)
            | inr bad ↦ inr bad
          ]
        ]
  ]
]

-- An allowed access has no cause for an exception.
IsAllowed-Cause :
    (table : List TranslationEntry) (virt_addr size : ℕ) (writing : Bool)
    (exception : ExceptionType)
    → IsAllowed table virt_addr size writing
    → ¬ Cause table virt_addr size writing exception
IsAllowed-Cause table v size w x (al, l, va, ro, f) (inl (e, inl c)) = c al
IsAllowed-Cause table v size w x (al, l, va, ro, f) (inl (e, inr c)) = omega (arith, l, c)
IsAllowed-Cause table v size w x (al, l, va, ro, f) (inr (inl (e, d, c))) = true≢false (sym va ∙ c)
IsAllowed-Cause table v size w x (al, l, va, ro, f) (inr (inr (inl (e, d, vt, c)))) =
    true≢false (sym c ∙ ro)
IsAllowed-Cause table v size w x (al, l, va, ro, f) (inr (inr (inr (e, d, vt, c)))) =
    omega (arith, f, c)

pub translate-IsAllowed :
    (m : Machine) (table : List TranslationEntry) (virt_addr size : ℕ) (writing : Bool)
    → IsSize size
    → m.tlb ≡ none
    → m.page_table ≡ some table
    → IsAllowed table virt_addr size writing
    → (translate m virt_addr size writing
        ≡ some (inr (physical_address table virt_addr, marked m table virt_addr writing)))
      × (physical_address table virt_addr + size ≤ memory_size)
translate-IsAllowed m table v size w s t p allowed = elim (translate_lem m table v size w s t p) [
  | inl ok ↦ (ok.1, ok.3)
  | inr (x, eq, cause) ↦ absurd (IsAllowed-Cause table v size w x allowed cause)
]
