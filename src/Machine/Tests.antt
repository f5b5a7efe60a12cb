-- ===== src/Machine/Tests.antt =====
-- The simulated machine of dev4-memory-management/nachos.tp4/code/machine on concrete values.
use operating_systems_assign.Prelude.{
  ℕ, ◌+◌, ◌-◌, ◌*◌, ◌%◌, ◌^◌, ◌≤◌, ◌<◌, ◌≡◌, refl, sym, ap, ◌∙◌, ◌++◌, ◌⊎◌, inl, inr, Bool, true,
  false, Option, none, some, List, [], ◌∷◌, replicate, length-replicate, minus_one, arith,
}
use operating_systems_assign.AddrSpace.{TranslationEntry, entry, page_size, unmapped}
use operating_systems_assign.Machine.{
  Machine, ExceptionType, overflow, memory_size, translate, read_mem, write_mem, register,
  write_register, delayed_load, finish_read, misaligned, find_entry, page_table_entry, use_entry,
  touched, read_value, byte_at, entries, table_of, with_entries, put_table,
}
use operating_systems_assign.Machine.Translation.{
  IsAllowed, physical_address, marked, Cause, translate_lem,
}
use operating_systems_assign.Machine.Memory.{stored, read_mem-write_mem}
use operating_systems_assign.Machine.Multiply.{
  negate, complement_word, halve, add_low, add_high, shift_high, mult_loop, negate_words, magnitude,
  is_negative, mult,
}
use operating_systems_assign.Machine.Decode.{
  Instruction, op_add, op_addi, op_bgezal, branch_code, resolve, extra_of, decode,
}
use operating_systems_assign.Machine.Operations.{sign_bit, plus, add_overflows, set_register, trap}
use operating_systems_assign.Machine.Execute.{execute, advance, run_raw, one_instruction}
use operating_systems_assign.Machine.Cases.{KeepsZero}
use operating_systems_assign.Machine.Overflow.{lifted, op_add_lem}
use operating_systems_assign.Machine.Zero.{one_instruction_zero}
use operating_systems_assign.Machine.Fields.{instruction, decode_lem}
use operating_systems_assign.Machine.Rounds.{double_word}
use operating_systems_assign.Machine.Product.{extended, mult_lem}

-- -3 * 5.
abbrev minus_three : ℕ
minus_three = 2 ^ 32 - 3

signed_product : mult minus_three 5 true ≡ (minus_one, 2 ^ 32 - 15)
unfolding mult magnitude is_negative mult_loop add_high add_low shift_high halve negate negate_words
    complement_word
signed_product = refl

mult_lem_example :
    double_word (mult minus_three 5 true).0 (mult minus_three 5 true).1
    ≡ extended true minus_three * extended true 5 % 2 ^ 64
mult_lem_example = mult_lem minus_three 5 true (omega arith) (omega arith)

-- Page 0 is not in memory, page 1 is in frame 7.
abbrev second_page : TranslationEntry
second_page = record {
  virtual_page = 1;
  physical_page = 7;
  valid = true;
  read_only = false;
  use_bit = false;
  dirty = false;
}

abbrev pages : List TranslationEntry
pages = unmapped 0 ∷ second_page ∷ []

abbrev powered_on : Machine
powered_on = record {
  main_memory = replicate memory_size 0;
  registers = replicate 40 0;
  tlb = none;
  page_table = some pages;
}

abbrev address : ℕ
address = 132

address-IsAllowed : (writing : Bool) → IsAllowed pages address 4 writing
unfolding entry
address-IsAllowed true = (refl, omega arith, refl, refl, omega arith)
address-IsAllowed false = (refl, omega arith, refl, refl, omega arith)

translate_lem_example :
    (IsAllowed pages address 4 true
      × (translate powered_on address 4 true
          ≡ some (inr (physical_address pages address, marked powered_on pages address true)))
      × (address % page_size + 4 ≤ page_size)
      × (physical_address pages address + 4 ≤ memory_size))
    ⊎ ((exception : ExceptionType) × (translate powered_on address 4 true ≡ some (inl exception))
        × Cause pages address 4 true exception)
translate_lem_example = translate_lem powered_on pages address 4 true (inr (inr refl)) refl refl

-- A kernel that handles no exception.
abbrev no_kernel : ExceptionType → Machine → Option Machine
no_kernel exception m = none

read_mem-write_mem_example :
    (m' m'' : Machine) × (write_mem no_kernel address 4 305419896 powered_on ≡ some (true, m'))
    × (read_mem no_kernel address 4 m' ≡ some (some (stored 4 305419896), m''))
read_mem-write_mem_example =
    read_mem-write_mem no_kernel powered_on pages address 4 305419896 (inr (inr refl)) refl refl
      (length-replicate {A = ℕ} memory_size 0) (address-IsAllowed true)

-- The branch bgezal on register 4, back by three instructions.
decode_branch : (decode (instruction 1 4 17 31 31 61)).op_code ≡ op_bgezal
unfolding decode resolve branch_code
decode_branch = refl

-- addi r29, r29, -8.
decode_lem_example :
    ((decode (instruction 8 29 29 31 31 56)).op_code ≡ op_addi)
    × ((decode (instruction 8 29 29 31 31 56)).rs ≡ 29)
    × ((decode (instruction 8 29 29 31 31 56)).rt ≡ 29)
    × ((decode (instruction 8 29 29 31 31 56)).rd ≡ 31)
    × ((decode (instruction 8 29 29 31 31 56)).extra ≡ 2 ^ 32 - 8)
unfolding resolve
decode_lem_example =
    decode_lem 8 29 29 31 31 56 (omega arith) (omega arith) (omega arith) (omega arith)
      (omega arith) (omega arith)

-- A page table of one page, for the first frame.
abbrev first_page : Bool → TranslationEntry
first_page used = record {
  virtual_page = 0;
  physical_page = 0;
  valid = true;
  read_only = false;
  use_bit = used;
  dirty = false;
}

-- The memory starts with addi r0, r0, 5.
abbrev program : List ℕ
program = 5 ∷ 0 ∷ 0 ∷ 32 ∷ []

abbrev running : Bool → List ℕ → Machine
running used registers = record {
  main_memory = program;
  registers = registers;
  tlb = none;
  page_table = some (first_page used ∷ []);
}

abbrev before : Machine
before = running false (7 ∷ replicate 34 0 ++ (4 ∷ replicate 4 0))

abbrev after : Machine
after = running true (replicate 34 0 ++ (4 ∷ 8 ∷ replicate 4 0))

-- An exception handler that does nothing.
abbrev ignore : ExceptionType → Machine → Option Machine
ignore which m = some m

abbrev zero_register : Option Machine → ℕ
zero_register none = 0
zero_register (some m) = register m 0

ignore-KeepsZero : KeepsZero ignore
ignore-KeepsZero which m m' h e = sym (ap zero_register e) ∙ h

before-after : one_instruction ignore before ≡ some after
unfolding one_instruction run_raw execute advance set_register add_overflows sign_bit plus decode
    resolve extra_of branch_code read_mem finish_read translate misaligned find_entry
    page_table_entry use_entry touched read_value byte_at entry entries table_of with_entries
    put_table delayed_load register write_register
before-after = refl

one_instruction_zero_example : register after 0 ≡ 0
one_instruction_zero_example =
    one_instruction_zero ignore before after ignore-KeepsZero before-after

-- add r3, r1, r2, where r1 holds the largest int and r2 holds 1.
abbrev largest : Machine
largest = running false (0 ∷ (2 ^ 31 - 1) ∷ 1 ∷ replicate 37 0)

abbrev sum_of_two : Instruction
sum_of_two = decode (instruction 0 1 2 3 0 32)

op_add_lem_example :
    ((sum : ℕ) × (sum < 2 ^ 32)
      × (lifted sum + 2 ^ 31
          ≡ lifted (register largest sum_of_two.rs) + lifted (register largest sum_of_two.rt))
      × (execute ignore op_add sum_of_two 8 largest ≡ set_register sum_of_two.rd sum 8 largest))
    ⊎ (((lifted (register largest sum_of_two.rs) + lifted (register largest sum_of_two.rt) < 2 ^ 31)
          ⊎ (2 ^ 32 + 2 ^ 31
              ≤ lifted (register largest sum_of_two.rs) + lifted (register largest sum_of_two.rt)))
        × (execute ignore op_add sum_of_two 8 largest ≡ trap ignore overflow 0 largest))
unfolding decode register
op_add_lem_example = op_add_lem ignore sum_of_two 8 largest (omega arith) (omega arith)
