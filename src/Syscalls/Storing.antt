-- ===== src/Syscalls/Storing.antt =====
-- CopyToUser of dev3-process-management/nachos.tp3/code/userprog/exception.cc.
use operating_systems_assign.Prelude.{
  ℕ, zero, suc, ◌+◌, ◌/◌, ◌%◌, ◌^◌, ◌≤◌, ◌<◌, ◌≡◌, ◌≢◌, refl, sym, ap, subst, ◌∙◌, inl, inr,
  lt-cases, lt→ltb, true, false, not, ◌||◌, none, some, List, ◌==◌, is_nonneg, length, get_or, set,
  length-set, get_or-set_self, get_or-set_ne, arith,
}
use operating_systems_assign.AddrSpace.{TranslationEntry, page_size}
use operating_systems_assign.Machine.{Machine, memory_size, write_value, finish_write, write_mem}
use operating_systems_assign.Machine.Translation.{
  IsAllowed, physical_address, marked, translate-IsAllowed,
}
use operating_systems_assign.Syscalls.{
  Kernel, returned, no_handler, store_round, store_loop, get_byte, copy_to_user,
}
use operating_systems_assign.Syscalls.Mapping.{
  SameMapping, SameMapping-refl, SameMapping-trans, touched-SameMapping, IsAllowed-SameMapping,
  Maps, user_address,
}

-- A byte of the program has been written, and pages are mapped as before.
abbrev Written : List TranslationEntry → ℕ → ℕ → Kernel → Machine → Type 0
Written table a v k m' =
    (table' : List TranslationEntry) × (m'.tlb ≡ none)
    × (m'.page_table ≡ some table')
    × SameMapping table table'
    × (m'.main_memory ≡ set k.machine.main_memory (physical_address table a) (v % 256))
    × (physical_address table a < length k.machine.main_memory)

write_byte_lem :
    (k : Kernel) (table : List TranslationEntry) (a v : ℕ)
    → Maps k table
    → length k.machine.main_memory ≡ memory_size
    → IsAllowed table a 1 true
    → (m' : Machine) × (write_mem no_handler a 1 v k.machine ≡ some (true, m'))
      × Written table a v k m'
unfolding write_mem finish_write write_value
write_byte_lem k table a v (t, p) l allowed =
    let (found, fits) = translate-IsAllowed k.machine table a 1 true (inl refl) t p allowed in
    let memory = set k.machine.main_memory (physical_address table a) (v % 256) in
    (
      record (marked k.machine table a true) { main_memory = memory },
      rw found refl,
      (
        _,
        t,
        refl,
        touched-SameMapping table (a / page_size) true allowed.1,
        refl,
        omega (arith, fits, l),
      ),
    )

-- The bytes of the buffer from i on are in the memory of the program, and no other has changed.
abbrev Stored : List TranslationEntry → List ℕ → ℕ → ℕ → ℕ → Kernel → Kernel → Type 0
Stored table buffer target i n k k' =
    (table' : List TranslationEntry) × Maps k' table'
    × SameMapping table table'
    × (k'.ended ≡ k.ended)
    × (k'.exit_code ≡ k.exit_code)
    × (k'.log ≡ k.log)
    × ((j : ℕ)
        → i ≤ j
        → j < i + n
        → get_or k'.machine.main_memory (physical_address table (user_address target j)) 0
          ≡ get_or buffer j 0 % 256)
    × ((q : ℕ)
        → ((j : ℕ) → i ≤ j → j < i + n → physical_address table (user_address target j) ≢ q)
        → get_or k'.machine.main_memory q 0 ≡ get_or k.machine.main_memory q 0)

store_loop_lem :
    (n i target : ℕ) (buffer : List ℕ) (k : Kernel) (table : List TranslationEntry)
    → Maps k table
    → i + n ≤ length buffer
    → length k.machine.main_memory ≡ memory_size
    → ((j : ℕ) → i ≤ j → j < i + n → IsAllowed table (user_address target j) 1 true)
    → ((a b : ℕ)
        → i ≤ a
        → a < b
        → b < i + n
        → physical_address table (user_address target a)
          ≢ physical_address table (user_address target b))
    → (k' : Kernel) × (store_loop buffer target n i k ≡ some (returned tt k'))
      × Stored table buffer target i n k k'
unfolding store_loop store_round get_byte
store_loop_lem zero i target buffer k table maps fits l allowed distinct = (
  k,
  refl,
  (
    table,
    maps,
    SameMapping-refl table,
    refl,
    refl,
    refl,
    λ j p q. absurd (omega arith),
    λ q h. refl,
  ),
)
store_loop_lem (suc n) i target buffer k table maps fits l allowed distinct =
    let v = get_or buffer i 0 in
    let a = user_address target i in
    let (m₁, wrote, (table₁, t₁, p₁, same₁, memory₁, inside)) =
      write_byte_lem k table a v maps l (allowed i (omega arith) (omega arith)) in
    let k₁ : Kernel = record k { machine = m₁ } in
    let at = λ (j : ℕ) (p : i ≤ j) (q : j < i + suc n).
      IsAllowed-SameMapping table table₁ (user_address target j) 1 true same₁ (allowed j p q) in
    let long : length m₁.main_memory ≡ memory_size =
      ap length memory₁
      ∙ length-set k.machine.main_memory (physical_address table a) (v % 256)
      ∙ l in
    let here = physical_address table a in
    let (k₂, rest, (table₂, maps₂, same₂, ended₂, exit₂, log₂, stored₂, others₂)) =
      store_loop_lem n (i + 1) target buffer k₁ table₁ (t₁, p₁) (omega (arith, fits)) long
        (λ j p q. (at j (omega arith) (omega arith)).0)
        (λ b c p q r e.
          distinct b c (omega arith) q (omega arith) (
            sym (at b (omega arith) (omega arith)).1 ∙ e ∙ (at c (omega arith) (omega arith)).1)) in
    (
      k₂,
      rw (lt→ltb i (length buffer) (omega (arith, fits)), wrote) rest,
      (
        table₂,
        maps₂,
        SameMapping-trans table table₁ table₂ same₁ same₂,
        ended₂,
        exit₂,
        log₂,
        λ j p q. elim (lt-cases i j) [
          | inl f ↦
              ap (λ x. get_or k₂.machine.main_memory x 0) (sym (at j p q).1)
              ∙ stored₂ j (omega arith) (omega arith)
          | inr f ↦
              let e : i ≡ j = omega (arith, p, f) in
              subst
                (λ x.
                  get_or k₂.machine.main_memory (physical_address table (user_address target x)) 0
                  ≡ get_or buffer x 0 % 256)
                e
                (others₂ here (λ c p' q' e'.
                    distinct i c (omega arith) (omega arith) (omega arith)
                      (sym e' ∙ (at c (omega arith) (omega arith)).1))
                  ∙ ap (λ m. get_or m here 0) memory₁
                  ∙ get_or-set_self k.machine.main_memory here (v % 256) 0 inside)
        ],
        λ q h.
            others₂ q (λ c p' q' e'.
              h c (omega arith) (omega arith) (sym (at c (omega arith) (omega arith)).1 ∙ e'))
            ∙ ap (λ m. get_or m q 0) memory₁
            ∙ get_or-set_ne k.machine.main_memory here q (v % 256) 0
                (h i (omega arith) (omega arith)),
      ),
    )

-- For 1 to 2 ^ 31 - 1 bytes of a buffer that has as many, whose places in the program may be written and have
-- different physical addresses: CopyToUser returns, the address of each place j holds byte j, and
-- no byte q of the memory that has none of these addresses, no mapping of a page and none of the
-- globals has changed.
pub copy_to_user_lem :
    (size target : ℕ) (buffer : List ℕ) (k : Kernel) (table : List TranslationEntry)
    → 0 < size
    → size < 2 ^ 31
    → size ≤ length buffer
    → Maps k table
    → length k.machine.main_memory ≡ memory_size
    → ((j : ℕ) → j < size → IsAllowed table (user_address target j) 1 true)
    → ((a b : ℕ)
        → a < b
        → b < size
        → physical_address table (user_address target a)
          ≢ physical_address table (user_address target b))
    → (j q : ℕ) → j < size
    → ((a : ℕ) → a < size → physical_address table (user_address target a) ≢ q)
    → (k' : Kernel) × (table' : List TranslationEntry) × (copy_to_user buffer target size k
        ≡ some (returned tt k'))
      × (get_or k'.machine.main_memory (physical_address table (user_address target j)) 0
          ≡ get_or buffer j 0 % 256)
      × (get_or k'.machine.main_memory q 0 ≡ get_or k.machine.main_memory q 0)
      × Maps k' table'
      × SameMapping table table'
      × (k'.ended ≡ k.ended)
      × (k'.exit_code ≡ k.exit_code)
      × (k'.log ≡ k.log)
unfolding copy_to_user
copy_to_user_lem size target buffer k table p s fits maps l allowed distinct j q inside others =
    let (k', run, (table', maps', same, ended', exit', log', stored, kept)) =
      store_loop_lem size 0 target buffer k table maps (omega (arith, fits)) l
        (λ a b c. allowed a (omega (arith, c))) (λ a b c d e. distinct a b d (omega (arith, e))) in
    let some_bytes : (size == 0 || not (is_nonneg size)) ≡ false = ground (arith, p, s) in
    (
      k',
      table',
      rw some_bytes run,
      stored j (omega arith) (omega (arith, inside)),
      kept q (λ a b c. others a (omega (arith, c))),
      maps',
      same,
      ended',
      exit',
      log',
    )
