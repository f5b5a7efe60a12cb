-- ===== src/Machine/Memory.antt =====
-- ReadMem and WriteMem of dev4-memory-management/nachos.tp4/code/machine/translate.cc.
use operating_systems_assign.Prelude.{
  ℕ, ◌+◌, ◌-◌, ◌*◌, ◌/◌, ◌%◌, ◌^◌, ◌≤◌, ◌<◌, ◌≡◌, ◌≢◌, refl, sym, ap, ◌∙◌, inl, inr, Bool, true,
  false, ◌&&◌, Option, none, some, List, ltb, ◌==◌, if◌then◌else◌, length, get_or, set, length-set,
  get_or-set_self, get_or-set_ne, arith,
}
use operating_systems_assign.AddrSpace.{TranslationEntry, entry, unmapped, page_size}
use operating_systems_assign.Machine.{
  Machine, ExceptionType, memory_size, touched, byte_at, read_value, write_value, finish_read,
  read_mem, finish_write, write_mem,
}
use operating_systems_assign.Machine.Translation.{
  IsSize, IsAllowed, entry_for, physical_address, marked, translate-IsAllowed,
}

-- The value that a load of `size` bytes gives where `v` was stored: its low bytes, one byte with
-- the sign of a char.
unfoldable pub stored : ℕ → ℕ → ℕ
stored size v =
    if size == 1
    then (if ltb (v % 256) 128 then v % 256 else v % 256 + (2 ^ 32 - 256))
    else if size == 2
    then v % 2 ^ 16
    else v % 2 ^ 32

-- Two bytes at different places.
set_two :
    (memory : List ℕ) (i j a b : ℕ)
    → i < length memory
    → j < length memory
    → i ≢ j
    → (get_or (set (set memory i a) j b) i 0 ≡ a)
      × (get_or (set (set memory i a) j b) j 0 ≡ b)
      × (length (set (set memory i a) j b) ≡ length memory)
set_two memory i j a b p q ne =
    let same = length-set memory i a in
    (
      get_or-set_ne (set memory i a) j i b 0 (λ e. ne (sym e)) ∙ get_or-set_self memory i a 0 p,
      get_or-set_self (set memory i a) j b 0 (omega (arith, q, same)),
      length-set (set memory i a) j b ∙ same,
    )

-- Two writes do not reach another place.
set_two_ne :
    (memory : List ℕ) (i j a b k : ℕ)
    → i ≢ k
    → j ≢ k
    → get_or (set (set memory i a) j b) k 0 ≡ get_or memory k 0
set_two_ne memory i j a b k p q =
    get_or-set_ne (set memory i a) j k b 0 q ∙ get_or-set_ne memory i k a 0 p

read_value-write_value :
    (memory : List ℕ) (p size v : ℕ)
    → IsSize size
    → p + size ≤ length memory
    → (after : List ℕ) × (write_value memory p size v ≡ some after)
      × (read_value after p size ≡ some (stored size v))
unfolding write_value read_value stored byte_at
read_value-write_value memory p size v (inl e) h =
    let h₀ : p < length memory = omega (arith, e, h) in
    (set memory p (v % 256), rw e refl, rw (e, get_or-set_self memory p (v % 256) 0 h₀) refl)
read_value-write_value memory p size v (inr (inl e)) h =
    let b₀ = v % 256 in
    let b₁ = v / 256 % 256 in
    let two =
      set_two memory p (p + 1) b₀ b₁ (omega (arith, e, h)) (omega (arith, e, h))
        (λ q. omega (arith, q)) in
    (set (set memory p b₀) (p + 1) b₁, rw e refl, rw (e, two.0, two.1) (ap some (omega arith)))
read_value-write_value memory p size v (inr (inr e)) h =
    let b₀ = v % 256 in
    let b₁ = v / 256 % 256 in
    let b₂ = v / 65536 % 256 in
    let b₃ = v / 16777216 % 256 in
    let half = set (set memory p b₀) (p + 1) b₁ in
    let two =
      set_two memory p (p + 1) b₀ b₁ (omega (arith, e, h)) (omega (arith, e, h))
        (λ q. omega (arith, q)) in
    let more =
      set_two half (p + 2) (p + 3) b₂ b₃ (omega (arith, e, h, two.2)) (omega (arith, e, h, two.2))
        (λ q. omega (arith, q)) in
    let keep = set_two_ne half (p + 2) (p + 3) b₂ b₃ in
    let low = keep p (λ q. omega (arith, q)) (λ q. omega (arith, q)) ∙ two.0 in
    let next = keep (p + 1) (λ q. omega (arith, q)) (λ q. omega (arith, q)) ∙ two.1 in
    (
      set (set half (p + 2) b₂) (p + 3) b₃,
      rw e refl,
      rw (e, low, next, more.0, more.1) (ap some (omega arith)),
    )

reading : (b : Bool) → (b && false) ≡ false
reading true = refl
reading false = refl

-- The entry whose bits a write has set allows the read of the same bytes.
marked-IsAllowed :
    (table : List TranslationEntry) (virt_addr size : ℕ)
    → IsAllowed table virt_addr size true
    → (IsAllowed
        (set table (virt_addr / page_size) (touched true (entry_for table virt_addr)))
        virt_addr
        size
        false)
      × (physical_address
            (set table (virt_addr / page_size) (touched true (entry_for table virt_addr)))
            virt_addr
          ≡ physical_address table virt_addr)
unfolding entry touched
marked-IsAllowed table v size (al, l, va, ro, f) =
    let e = touched true (entry_for table v) in
    let same : entry_for (set table (v / page_size) e) v ≡ e =
      get_or-set_self table (v / page_size) e (unmapped (v / page_size)) l in
    (
      (
        al,
        omega (arith, l, length-set table (v / page_size) e),
        ap (λ x. x.valid) same ∙ va,
        reading (entry_for (set table (v / page_size) e) v).read_only,
        omega (arith, f, ap (λ x. x.physical_page) same),
      ),
      ap (λ x. x.physical_page * page_size + v % page_size) same,
    )

-- With a page table and the whole memory, where Translate allows to write `size` bytes at an address:
-- WriteMem succeeds, and ReadMem of the same bytes then succeeds and gives the value that was written,
-- cut to its size.
pub read_mem-write_mem :
    (kernel : ExceptionType → Machine → Option Machine) (m : Machine)
    (table : List TranslationEntry) (virt_addr size v : ℕ)
    → IsSize size
    → m.tlb ≡ none
    → m.page_table ≡ some table
    → length m.main_memory ≡ memory_size
    → IsAllowed table virt_addr size true
    → (m' m'' : Machine) × (write_mem kernel virt_addr size v m ≡ some (true, m'))
      × (read_mem kernel virt_addr size m' ≡ some (some (stored size v), m''))
unfolding write_mem finish_write read_mem finish_read
read_mem-write_mem kernel m table a size v s t p len allowed =
    let d = physical_address table a in
    let (found, fits) = translate-IsAllowed m table a size true s t p allowed in
    let (after, wrote, reads) =
      read_value-write_value m.main_memory d size v s (omega (arith, fits, len)) in
    let m₁ = marked m table a true in
    let m₂ : Machine = record m₁ { main_memory = after } in
    let e = touched true (entry_for table a) in
    let table₁ = set table (a / page_size) e in
    let (allowed₁, same) = marked-IsAllowed table a size allowed in
    let (found₁, fits₁) = translate-IsAllowed m₂ table₁ a size false s t refl allowed₁ in
    let value : read_value after (physical_address table₁ a) size ≡ some (stored size v) =
      ap (λ q. read_value after q size) same ∙ reads in
    (m₂, marked m₂ table₁ a false, rw (found, wrote) refl, rw (found₁, value) refl)
