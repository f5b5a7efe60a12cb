-- ===== src/Syscalls/Tests.antt =====
-- CopyFromUser of dev3-process-management/nachos.tp3/code/userprog/exception.cc for a program with one
-- page.
use operating_systems_assign.Prelude.{
  ℕ, zero, suc, ◌-◌, ◌/◌, ◌%◌, ◌≤◌, ◌<◌, ◌≡◌, ◌≢◌, refl, ap, ◌∙◌, Bool, true, false, none, some,
  List, [], ◌∷◌, get_or, length, replicate, length-replicate, minus_one, arith,
}
use operating_systems_assign.AddrSpace.{TranslationEntry, entry, page_size}
use operating_systems_assign.Machine.{memory_size}
use operating_systems_assign.Machine.Translation.{IsAllowed, physical_address}
use operating_systems_assign.Syscalls.{
  Kernel, returned, exited, copy_string, copy_to_user, max_filename_length,
}
use operating_systems_assign.Syscalls.Mapping.{OnlyRead, SameMapping, Holds, Maps, user_address}
use operating_systems_assign.Syscalls.Strings.{copy_string-terminated}
use operating_systems_assign.Syscalls.Storing.{copy_to_user_lem}
use operating_systems_assign.Syscalls.Unterminated.{
  copy_string-unterminated, copy_string-unreadable,
}

abbrev only_page : TranslationEntry
only_page = record {
  virtual_page = 0;
  physical_page = 0;
  valid = true;
  read_only = false;
  use_bit = false;
  dirty = false;
}

abbrev pages : List TranslationEntry
pages = only_page ∷ []

abbrev program : List ℕ → Kernel
program memory = record {
  machine = record {
    main_memory = memory;
    registers = replicate 40 0;
    tlb = none;
    page_table = some pages;
  };
  ended = false;
  exit_code = 0;
  log = [];
}

abbrev buffer : List ℕ
buffer = replicate max_filename_length 1

buffer-length : length buffer ≡ max_filename_length
buffer-length = length-replicate {A = ℕ} max_filename_length 1

in_first_page :
    (j : ℕ) → j < 128 → (user_address 0 j / page_size ≡ 0) × (user_address 0 j % page_size ≡ j)
in_first_page j h = (omega arith, omega arith)

address-IsAllowed :
    (writing : Bool) (j : ℕ) → j < 128 → IsAllowed pages (user_address 0 j) 1 writing
unfolding entry
address-IsAllowed true j h =
    let page = (in_first_page j h).0 in rw page (omega arith, omega arith, refl, refl, omega arith)
address-IsAllowed false j h =
    let page = (in_first_page j h).0 in rw page (omega arith, omega arith, refl, refl, omega arith)

same_address : (j : ℕ) → j < 128 → physical_address pages (user_address 0 j) ≡ j
unfolding entry
same_address j h = let (page, offset) = in_first_page j h in rw (page, offset) (omega arith)

-- The name "HI".
abbrev name : List ℕ
name = 72 ∷ 73 ∷ 0 ∷ []

abbrev characters : ℕ → ℕ
characters j = get_or name j 0

name_small : (j : ℕ) → j ≤ 2 → characters j < 256
name_small zero h = omega arith
name_small (suc zero) h = omega arith
name_small (suc (suc zero)) h = omega arith
name_small (suc (suc (suc j))) h = absurd (omega arith)

name_nonzero : (j : ℕ) → j < 2 → characters j ≢ 0
name_nonzero zero h = λ e. omega (arith, e)
name_nonzero (suc zero) h = λ e. omega (arith, e)
name_nonzero (suc (suc j)) h = absurd (omega arith)

name_held : (j : ℕ) → j ≤ 2 → Holds (program name) pages 0 j (characters j)
name_held j h = (
  address-IsAllowed false j (omega arith),
  ap (λ p. get_or name p 0) (same_address j (omega arith)),
  name_small j h,
)

copy_string-terminated_example :
    (buffer' : List ℕ) × (k' : Kernel) × (copy_string 0 buffer (program name)
      ≡ some (returned buffer' k'))
    × (get_or buffer' 1 0 ≡ characters 1)
    × OnlyRead pages (program name) k'
copy_string-terminated_example =
    copy_string-terminated 0 2 characters buffer (program name) pages (omega arith) buffer-length
      (refl, refl) name_held name_nonzero refl 1 (omega arith)

-- A page of A's.
abbrev letters : List ℕ
letters = replicate 128 65

get_or-replicate : (n i a d : ℕ) → i < n → get_or (replicate n a) i d ≡ a
get_or-replicate zero i a d h = absurd (omega arith)
get_or-replicate (suc n) zero a d h = refl
get_or-replicate (suc n) (suc i) a d h = get_or-replicate n i a d (omega arith)

letters_held : (j : ℕ) → j < max_filename_length - 1 → Holds (program letters) pages 0 j 65
letters_held j h = (
  address-IsAllowed false j (omega arith),
  ap (λ p. get_or letters p 0) (same_address j (omega arith))
      ∙ get_or-replicate 128 j 65 0 (omega arith),
  omega arith,
)

copy_string-unterminated_example :
    (buffer' : List ℕ) × (k' : Kernel) × (copy_string 0 buffer (program letters)
      ≡ some (returned buffer' k'))
    × (get_or buffer' (max_filename_length - 1) 0 ≡ get_or buffer (max_filename_length - 1) 0)
copy_string-unterminated_example =
    copy_string-unterminated 0 (λ j. 65) buffer (program letters) pages buffer-length (refl, refl)
      letters_held (λ j h e. omega (arith, e))

-- Behind the only page.
behind-IsAllowed : ¬ IsAllowed pages (user_address 128 0) 1 false
behind-IsAllowed allowed = omega (arith, allowed.1)

copy_string-unreadable_example :
    (k' : Kernel) × (copy_string 128 buffer (program name) ≡ some (exited k'))
    × (k'.ended ≡ true)
    × (k'.exit_code ≡ minus_one)
    × (k'.log ≡ [])
copy_string-unreadable_example =
    copy_string-unreadable 128 0 characters buffer (program name) pages (omega arith) buffer-length
      (refl, refl) (λ j h. absurd (omega (arith, h))) (λ j h. absurd (omega (arith, h)))
      behind-IsAllowed

-- The name goes to the start of an empty memory, and byte 3 stays as it was.
abbrev blank : Kernel
blank = program (replicate memory_size 0)

different_addresses :
    (a b : ℕ)
    → a < b
    → b < 3
    → physical_address pages (user_address 0 a) ≢ physical_address pages (user_address 0 b)
different_addresses a b p q e =
    omega (arith, p, e, same_address a (omega arith), same_address b (omega arith))

not_written : (a : ℕ) → a < 3 → physical_address pages (user_address 0 a) ≢ 3
not_written a h e = omega (arith, h, e, same_address a (omega arith))

copy_to_user_lem_example :
    (k' : Kernel) × (table' : List TranslationEntry) × (copy_to_user name 0 3 blank
      ≡ some (returned tt k'))
    × (get_or k'.machine.main_memory (physical_address pages (user_address 0 1)) 0
        ≡ get_or name 1 0 % 256)
    × (get_or k'.machine.main_memory 3 0 ≡ get_or blank.machine.main_memory 3 0)
    × Maps k' table'
    × SameMapping pages table'
    × (k'.ended ≡ blank.ended)
    × (k'.exit_code ≡ blank.exit_code)
    × (k'.log ≡ blank.log)
copy_to_user_lem_example =
    copy_to_user_lem 3 0 name blank pages (omega arith) (omega arith) (omega arith) (refl, refl)
      (length-replicate {A = ℕ} memory_size 0) (λ j h. address-IsAllowed true j (omega (arith, h)))
      different_addresses 1 3 (omega arith) not_written
