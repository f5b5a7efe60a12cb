-- ===== src/Machine.antt =====
-- dev4-memory-management/nachos.tp4/code/machine/translate.cc, machine.cc and machine.h: the memory
-- and the registers of the simulated MIPS machine, and the translation of addresses. An int is kept
-- as its 32-bit pattern, a char of memory as a number below 256; the host is little endian (i386).
-- The outer `none` is a failed ASSERT.
pub mod Translation
pub mod Memory
pub mod Multiply
pub mod Decode
pub mod Fields
pub mod Operations
pub mod Execute
pub mod Cases
pub mod Zero
pub mod Overflow
pub mod Rounds
pub mod Product
mod Tests
use operating_systems_assign.Prelude.{
  ℕ, zero, suc, ◌+◌, ◌-◌, ◌*◌, ◌/◌, ◌%◌, ◌^◌, ◌⊎◌, inl, inr, Bool, true, false, not, ◌&&◌, ◌||◌,
  Option, none, some, List, [], ◌∷◌, bit_and, ltb, leb, ◌==◌, if◌then◌else◌, length, get_or, set,
  ◌>>=◌, ◌>>◌, assert,
}
use operating_systems_assign.AddrSpace.{TranslationEntry, entry, page_size}

abbrev pub num_phys_pages : ℕ
num_phys_pages = 48

abbrev pub memory_size : ℕ
memory_size = num_phys_pages * page_size

abbrev pub load_reg : ℕ
load_reg = 37

abbrev pub load_value_reg : ℕ
load_value_reg = 38

abbrev pub bad_vaddr_reg : ℕ
bad_vaddr_reg = 39

-- The values of ExceptionType but NoException.
pub data ExceptionType : Type 0 where
  syscall page_fault read_only bus_error address_error overflow illegal_instr : ExceptionType

-- A null pointer to a table is `none`; pageTableSize is the length of the page table.
pub record Machine : Type 0 where
  pub main_memory : List ℕ
  pub registers : List ℕ
  pub tlb : Option (List TranslationEntry)
  pub page_table : Option (List TranslationEntry)

unfoldable pub register : Machine → ℕ → ℕ
register m r = get_or m.registers r 0

unfoldable pub write_register : Machine → ℕ → ℕ → Machine
write_register m r v = record m { registers = set m.registers r v }

-- DelayedLoad of mipssim.cc.
unfoldable pub delayed_load : ℕ → ℕ → Machine → Machine
delayed_load next_reg next_value m =
    let loaded = write_register m (register m load_reg) (register m load_value_reg) in
    let next = write_register loaded load_reg next_reg in
    write_register (write_register next load_value_reg next_value) 0 0

-- RaiseException, where `kernel` is the exception handler; the status of the interrupts is not kept.
unfoldable pub raise_exception :
    (ExceptionType → Machine → Option Machine) → ExceptionType → ℕ → Machine → Option Machine
raise_exception kernel which bad_vaddr m =
    kernel which (delayed_load 0 0 (write_register m bad_vaddr_reg bad_vaddr))

-- The test for alignment errors.
unfoldable pub misaligned : ℕ → ℕ → Bool
misaligned virt_addr size =
    (size == 4 && not (bit_and virt_addr 3 == 0)) || (size == 2 && not (bit_and virt_addr 1 == 0))

-- The loop over the entries of the TLB from number i on.
unfoldable pub tlb_loop : List TranslationEntry → ℕ → ℕ → ExceptionType ⊎ ℕ
tlb_loop [] i vpn = inl page_fault
tlb_loop (e ∷ es) i vpn =
    let later = tlb_loop es (i + 1) vpn in
    if e.valid && (e.virtual_page == vpn) then inr i else later

-- `pageTable[vpn]`; `none` is an access outside the table.
unfoldable pub page_table_entry : List TranslationEntry → ℕ → Option TranslationEntry
page_table_entry page_table vpn =
    if ltb vpn (length page_table) then some (entry page_table vpn) else none

-- The number of the entry for a virtual page.
unfoldable pub find_entry :
    Option (List TranslationEntry) → Option (List TranslationEntry) → ℕ → Option (ExceptionType ⊎ ℕ)
find_entry (some tlb) (some page_table) vpn = none
find_entry none none vpn = none
find_entry none (some page_table) vpn =
    if leb (length page_table) vpn
    then some (inl address_error)
    else (page_table_entry page_table vpn >>= λ e.
        some (if not e.valid then inl page_fault else inr vpn))
find_entry (some tlb) none vpn = some (tlb_loop tlb 0 vpn)

-- The entries of the table that is in use, and the machine with others.
unfoldable pub table_of :
    Option (List TranslationEntry) → Option (List TranslationEntry) → List TranslationEntry
table_of (some tlb) page_table = tlb
table_of none (some page_table) = page_table
table_of none none = []

unfoldable pub entries : Machine → List TranslationEntry
entries m = table_of m.tlb m.page_table

unfoldable pub put_table :
    Option (List TranslationEntry) → Machine → List TranslationEntry → Machine
put_table (some tlb) m es = record m { tlb = some es }
put_table none m es = record m { page_table = some es }

unfoldable pub with_entries : Machine → List TranslationEntry → Machine
with_entries m es = put_table m.tlb m es

-- `entry->use = TRUE`, and the dirty bit of a write.
unfoldable pub touched : Bool → TranslationEntry → TranslationEntry
touched writing e = record e { use_bit = true; dirty = if writing then true else e.dirty }

-- The end of Translate for the entry that was found: the exception, or the physical address and the
-- machine with the bits set.
unfoldable pub use_entry :
    Machine → ℕ → ℕ → Bool → ExceptionType ⊎ ℕ → Option (ExceptionType ⊎ (ℕ × Machine))
use_entry m virt_addr size writing (inl exception) = some (inl exception)
use_entry m virt_addr size writing (inr i) =
    let e = entry (entries m) i in
    let phys_addr = e.physical_page * page_size + virt_addr % page_size in
    let used = with_entries m (set (entries m) i (touched writing e)) in
    if e.read_only && writing
    then some (inl read_only)
    else if leb num_phys_pages e.physical_page
    then some (inl bus_error)
    else (assert (leb (phys_addr + size) memory_size) >> some (inr (phys_addr, used)))

unfoldable pub translate : Machine → ℕ → ℕ → Bool → Option (ExceptionType ⊎ (ℕ × Machine))
translate m virt_addr size writing =
    if misaligned virt_addr size
    then some (inl address_error)
    else (find_entry m.tlb m.page_table (virt_addr / page_size)
        >>= use_entry m virt_addr size writing)

unfoldable pub byte_at : List ℕ → ℕ → ℕ
byte_at memory p = get_or memory p 0

-- The value that ReadMem reads; a char is signed.
unfoldable pub read_value : List ℕ → ℕ → ℕ → Option ℕ
read_value memory p size =
    let b = byte_at memory p in
    let half = b + byte_at memory (p + 1) * 256 in
    let word = half + (byte_at memory (p + 2) + byte_at memory (p + 3) * 256) * 65536 in
    if size == 1
    then some (if ltb b 128 then b else b + (2 ^ 32 - 256))
    else if size == 2
    then some half
    else if size == 4
    then some word
    else none

-- The memory that WriteMem leaves.
unfoldable pub write_value : List ℕ → ℕ → ℕ → ℕ → Option (List ℕ)
write_value memory p size v =
    let byte = set memory p (v % 256) in
    let half = set byte (p + 1) (v / 256 % 256) in
    let word = set (set half (p + 2) (v / 65536 % 256)) (p + 3) (v / 16777216 % 256) in
    if size == 1
    then some byte
    else if size == 2
    then some half
    else if size == 4
    then some word
    else none

unfoldable pub finish_read :
    (ExceptionType → Machine → Option Machine)
    → ℕ
    → ℕ
    → Machine
    → ExceptionType ⊎ (ℕ × Machine)
    → Option (Option ℕ × Machine)
finish_read kernel addr size m (inl exception) =
    raise_exception kernel exception addr m >>= λ m'. some (none, m')
finish_read kernel addr size m (inr (p, m')) =
    read_value m'.main_memory p size >>= λ v. some (some v, m')

-- ReadMem: `none` in the pair is FALSE.
unfoldable pub read_mem :
    (ExceptionType → Machine → Option Machine) → ℕ → ℕ → Machine → Option (Option ℕ × Machine)
read_mem kernel addr size m = translate m addr size false >>= finish_read kernel addr size m

unfoldable pub finish_write :
    (ExceptionType → Machine → Option Machine)
    → ℕ
    → ℕ
    → ℕ
    → Machine
    → ExceptionType ⊎ (ℕ × Machine)
    → Option (Bool × Machine)
finish_write kernel addr size v m (inl exception) =
    raise_exception kernel exception addr m >>= λ m'. some (false, m')
finish_write kernel addr size v m (inr (p, m')) = write_value m'.main_memory p size v >>= λ memory.
    some (true, record m' { main_memory = memory })

unfoldable pub write_mem :
    (ExceptionType → Machine → Option Machine) → ℕ → ℕ → ℕ → Machine → Option (Bool × Machine)
write_mem kernel addr size v m = translate m addr size true >>= finish_write kernel addr size v m
