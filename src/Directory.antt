-- ===== src/Directory.antt =====
-- dev2-filesys/nachos/code/filesys/directory.cc and directory.h: a directory is a table of entries
-- of fixed size. The table is the list, and tableSize its length. A result of -1 is `none`.
pub mod Names
pub mod Lookup
pub mod Unique
pub mod Empty
mod Tests
use mathlib.Core.Option
use operating_systems_assign.Prelude.{
  ℕ, zero, suc, ◌+◌, Bool, true, false, not, ◌&&◌, Option, none, some, List, [], ◌∷◌, ◌++◌, ◌==◌,
  if◌then◌else◌, get_elem?, set, replicate, drop, ◌>>=◌,
}

pub record DirectoryEntry : Type 0 where
  pub in_use : Bool
  pub sector : ℕ
  pub name : List ℕ
  pub is_directory : Bool

pub record Directory : Type 0 where
  pub table : List DirectoryEntry

abbrev pub file_name_max_len : ℕ
file_name_max_len = 9

-- A C string is the list of its characters; what stands after them reads as the terminator.
abbrev pub first_char : List ℕ → ℕ
first_char [] = 0
first_char (c ∷ s) = c

abbrev pub next_chars : List ℕ → List ℕ
next_chars [] = []
next_chars (c ∷ s) = s

-- `!strncmp(a, b, n)` of the C library.
unfoldable pub strncmp_eq : ℕ → List ℕ → List ℕ → Bool
strncmp_eq zero a b = true
strncmp_eq (suc n) a b =
    let rest = strncmp_eq n (next_chars a) (next_chars b) in
    if first_char a == first_char b then (if first_char a == 0 then true else rest) else false

-- `strcmp(a, b) == 0` of the C library, for a string b.
pub strcmp_eq : List ℕ → List ℕ → Bool
strcmp_eq a [] = first_char a == 0
strcmp_eq a (c ∷ s) = first_char a == c && strcmp_eq (next_chars a) s

-- The n characters that `strncpy(dst, src, n)` writes: past the end of src they are 0.
pub strncpy_chars : ℕ → List ℕ → List ℕ
strncpy_chars zero src = []
strncpy_chars (suc n) src =
    first_char src ∷ strncpy_chars n (if first_char src == 0 then [] else next_chars src)

-- The constructor. `new DirectoryEntry[size]` leaves what the memory held: `memory`.
unfoldable pub directory : List DirectoryEntry → Directory
directory memory = record { table = clear_entries memory }
  where
    clear_entries : List DirectoryEntry → List DirectoryEntry
    clear_entries [] = []
    clear_entries (e ∷ es) = record e { in_use = false } ∷ clear_entries es

unfoldable pub matches : List ℕ → DirectoryEntry → Bool
matches name e = e.in_use && strncmp_eq file_name_max_len e.name name

unfoldable pub find_index_loop : List ℕ → ℕ → List DirectoryEntry → Option ℕ
find_index_loop name i [] = none
find_index_loop name i (e ∷ es) = if matches name e then some i else find_index_loop name (i + 1) es

unfoldable pub find_index : Directory → List ℕ → Option ℕ
find_index d name = find_index_loop name 0 d.table

unfoldable pub find : Directory → List ℕ → Option ℕ
find d name = do i ← find_index d name; e ← get_elem? d.table i; some e.sector

unfoldable pub find_directory : Directory → List ℕ → Option ℕ
find_directory d name = do
  i ← find_index d name
  e ← get_elem? d.table i
  if e.is_directory then some e.sector else none

-- An entry as Add fills it in: strncpy does not write the last byte of the name.
pub fill : DirectoryEntry → List ℕ → ℕ → Bool → DirectoryEntry
fill e name new_sector is_directory = record e {
  in_use = true;
  name = strncpy_chars file_name_max_len name ++ drop file_name_max_len e.name;
  sector = new_sector;
  is_directory = is_directory;
}

-- The loop of Add; `none` if no entry is free.
pub add_loop : List ℕ → ℕ → Bool → List DirectoryEntry → Option (List DirectoryEntry)
add_loop name s b [] = none
add_loop name s b (e ∷ es) =
    if e.in_use
    then Option.map (λ rest. e ∷ rest) (add_loop name s b es)
    else some (fill e name s b ∷ es)

pub add : Directory → List ℕ → ℕ → Bool → Bool × Directory
add d name new_sector is_directory = elim (find_index d name) [
  | some i ↦ (false, d)
  | none ↦ elim (add_loop name new_sector is_directory d.table) [
    | some table ↦ (true, record { table = table })
    | none ↦ (false, d)
  ]
]

abbrev free_entry : DirectoryEntry → DirectoryEntry
free_entry e = record e { in_use = false }

-- `table[i].inUse = FALSE`
pub release : ℕ → List DirectoryEntry → List DirectoryEntry
release i [] = []
release zero (e ∷ es) = free_entry e ∷ es
release (suc i) (e ∷ es) = e ∷ release i es

pub remove : Directory → List ℕ → Bool × Directory
remove d name = elim (find_index d name) [
  | none ↦ (false, d)
  | some i ↦ (true, record { table = release i d.table })
]

abbrev pub dot : List ℕ
dot = b'.' ∷ []

abbrev pub dot_dot : List ℕ
dot_dot = b'.' ∷ b'.' ∷ []

pub get_parent_sector : Directory → Option ℕ
get_parent_sector d = find_directory d dot_dot

pub is_empty_loop : List DirectoryEntry → Bool
is_empty_loop [] = true
is_empty_loop (e ∷ es) =
    if e.in_use && (not (strcmp_eq e.name dot) && not (strcmp_eq e.name dot_dot))
    then false
    else is_empty_loop es

pub is_empty : Directory → Bool
is_empty d = is_empty_loop d.table
