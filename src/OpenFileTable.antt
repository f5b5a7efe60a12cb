-- ===== src/OpenFileTable.antt =====
-- FileHandle and OpenFileTable of dev2-filesys/nachos/code/filesys/filesys.cc and filesys.h.
-- The table holds pointers, so handles live in a store: a pointer to a handle is its address.
-- `none` is an access through a pointer that is null, uninitialised or freed.
pub mod Slots
pub mod Lifetime
mod Tests
use operating_systems_assign.Prelude.{
  ℕ, zero, suc, ◌+◌, ◌-◌, ◌%◌, ◌^◌, is_nonneg, Bool, true, false, not, ◌&&◌, Option, none, some,
  List, [], ◌∷◌, ltb, leb, ◌==◌, if◌then◌else◌, set, get_or, length, take, replicate, ◌>>=◌, ◌>>◌,
}
use operating_systems_assign.OpenFile.{OpenFile, Disk, read, write, read_at, write_at}

-- `file_id` stands for the pointer to the OpenFile that the handle owns, `file` for the object.
pub record FileHandle : Type 0 where
  pub name : List ℕ
  pub sector : ℕ
  pub writeable : Bool
  pub file_id : ℕ
  pub file : OpenFile
  pub position : ℕ
  pub use_count : ℕ

-- The constructor does not set `sector`: it is what the memory held, `garbage`.
pub file_handle : ℕ → List ℕ → Bool → ℕ → OpenFile → FileHandle
file_handle garbage name writeable file_id file = record {
  name = name;
  sector = garbage;
  writeable = writeable;
  file_id = file_id;
  file = file;
  position = 0;
  use_count = 1;
}

pub handle_read : FileHandle → Disk → ℕ → Option (List ℕ × FileHandle)
handle_read h disk num_bytes =
    read h.file disk num_bytes >>= λ r. some (r.0, record h { file = r.1 })

pub handle_write : (ℕ → List ℕ) → FileHandle → Disk → List ℕ → ℕ → Option (ℕ × FileHandle × Disk)
handle_write memory h disk from num_bytes =
    write memory h.file disk from num_bytes >>= λ r. some (r.0, record h { file = r.1 }, r.2)

pub handle_read_at : FileHandle → Disk → ℕ → ℕ → Option (List ℕ)
handle_read_at h disk num_bytes position = read_at h.file.hdr disk num_bytes position

pub handle_write_at : (ℕ → List ℕ) → FileHandle → Disk → List ℕ → ℕ → ℕ → Option (ℕ × Disk)
handle_write_at memory h disk from num_bytes position =
    write_at memory h.file.hdr disk from num_bytes position

-- A pointer: `wild` was never set.
pub data Pointer : Type 0 where
  wild null : Pointer
  to : ℕ → Pointer

-- The handles that `new` has made and `delete` has not freed.
abbrev pub Store : Type 0
Store = ℕ → Option FileHandle

unfoldable pub put : Store → ℕ → Option FileHandle → Store
put store a v b = if a == b then v else store b

unfoldable pub deref : Store → Pointer → Option FileHandle
deref store wild = none
deref store null = none
deref store (to a) = store a

pub record OpenFileTable : Type 0 where
  pub table : List Pointer
  pub count : ℕ
  pub store : Store

abbrev pub open_file_table_size : ℕ
open_file_table_size = 10

-- The constructor allocates the ten pointers and sets none of them.
unfoldable pub open_file_table : OpenFileTable
open_file_table = record {
  table = replicate open_file_table_size wild;
  count = 0;
  store = λ a. none;
}

-- A null pointer compares equal to NULL only; reading an uninitialised one is undefined.
pub is_null : Pointer → Option Bool
is_null wild = none
is_null null = some true
is_null (to a) = some false

unfoldable pub is_handle : ℕ → Pointer → Option Bool
is_handle a wild = none
is_handle a null = some false
is_handle a (to b) = some (a == b)

-- The loop of FindFile.
unfoldable pub find_file_loop : Store → ℕ → ℕ → List Pointer → Option (Option ℕ)
find_file_loop store sector i [] = some none
find_file_loop store sector i (p ∷ ps) = deref store p >>= λ h.
    elim (ltb 0 h.use_count && h.sector == sector) [
      | true ↦ some (some i)
      | false ↦ find_file_loop store sector (i + 1) ps
    ]

unfoldable pub find_file : OpenFileTable → ℕ → Option (Option ℕ)
find_file t sector = find_file_loop t.store sector 0 t.table

unfoldable pub get_file : OpenFileTable → ℕ → Pointer
get_file t i = get_or t.table i wild

unfoldable pub increment_use_count : FileHandle → FileHandle
increment_use_count h = record h { use_count = h.use_count + 1 }

unfoldable pub decrement_use_count : FileHandle → FileHandle
decrement_use_count h = record h { use_count = h.use_count - 1 }

-- `count--`, and `count >= n`, on a 32-bit `int`.
abbrev pub pred_int : ℕ → ℕ
pred_int n = (n + 2 ^ 32 - 1) % 2 ^ 32

abbrev pub at_least : ℕ → ℕ → Bool
at_least n w = is_nonneg w && leb n w

-- How the loop of AddFile ends: at a null entry, at the handle of the same OpenFile, or with neither.
pub data Place : Type 0 where
  empty_at : ℕ → Place
  shared_with : ℕ → FileHandle → Place
  nowhere : Place

-- The loop of AddFile for the handle at address `f`.
pub add_file_loop : Store → ℕ → ℕ → List Pointer → Option Place
add_file_loop store f i [] = some nowhere
add_file_loop store f i (wild ∷ ps) = none
add_file_loop store f i (null ∷ ps) = some (empty_at i)
add_file_loop store f i (to a ∷ ps) = store a >>= λ h. store f >>= λ g.
    elim (h.file_id == g.file_id) [
      | true ↦ some (shared_with a h)
      | false ↦ add_file_loop store f (i + 1) ps
    ]

pub add_file : OpenFileTable → ℕ → Option (Bool × OpenFileTable)
add_file t f =
    if at_least open_file_table_size t.count
    then some (false, t)
    else (add_file_loop t.store f 0 t.table >>= λ place. elim place [
      | empty_at i ↦ some (true, record t { table = set t.table i (to f); count = t.count + 1 })
      | shared_with b h ↦
          some (true, record t { store = put t.store b (some (increment_use_count h)) })
      | nowhere ↦ some (false, t)
    ])

-- The index of the handle in the table.
unfoldable pub handle_index : ℕ → ℕ → List Pointer → Option (Option ℕ)
handle_index a i [] = some none
handle_index a i (p ∷ ps) =
    is_handle a p >>= λ here. elim here [ true ↦ some (some i) | false ↦ handle_index a (i + 1) ps ]

unfoldable pub remove_file : OpenFileTable → ℕ → Option (Bool × OpenFileTable)
remove_file t a = handle_index a 0 t.table >>= λ index. elim index [
  | none ↦ some (false, t)
  | some i ↦ t.store a >>= λ h.
      if ltb 1 h.use_count
      then some (true, record t { store = put t.store a (some (decrement_use_count h)) })
      else some (
        true,
        record { table = set t.table i null; count = pred_int t.count; store = put t.store a none },
      )
]

-- `delete` of a handle.
pub freed : Pointer → Store → Store
freed wild store = store
freed null store = store
freed (to a) store = put store a none

-- The loop of RemoveAllFiles.
pub remove_all_loop : Store → List Pointer → Option (Store × List Pointer)
remove_all_loop store [] = some (store, [])
remove_all_loop store (p ∷ ps) = deref store p >>= λ h.
    remove_all_loop (if ltb 1 h.use_count then freed p store else store) ps >>= λ r.
    some (r.0, (if ltb 1 h.use_count then null else p) ∷ r.1)

pub remove_all_files : OpenFileTable → Option (Bool × OpenFileTable)
remove_all_files t = remove_all_loop t.store t.table >>= λ r.
    some (true, record { table = r.1; count = 0; store = r.0 })

-- The loop of TouchWriteableFiles; `memory` is the contents of fresh buffers.
pub touch_loop : (ℕ → List ℕ) → List ℕ → Store → List Pointer → Disk → Option Disk
touch_loop memory modif store [] disk = some disk
touch_loop memory modif store (p ∷ ps) disk = deref store p >>= λ h.
    elim (ltb 0 h.use_count && h.writeable) [
      | true ↦ write_at memory h.file.hdr disk modif (length modif) 0 >>= λ r.
          touch_loop memory modif store ps r.1
      | false ↦ touch_loop memory modif store ps disk
    ]

pub touch_writeable_files : (ℕ → List ℕ) → OpenFileTable → List ℕ → Disk → Option Disk
touch_writeable_files memory t modif disk = touch_loop memory modif t.store t.table disk
