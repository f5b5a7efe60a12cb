-- ===== src/FileSystem.antt =====
-- FileSystem of dev2-filesys/nachos/code/filesys/filesys.cc and filesys.h: files and directories on
-- the disk. Each operation takes the state and returns its result and the new state; `none` is a
-- failed ASSERT or an undefined access. The debugging output is left out.
pub mod Failure
pub mod Opening
mod Tests
use operating_systems_assign.Prelude.{
  ℕ, zero, suc, ◌+◌, Bool, true, false, not, ◌&&◌, Option, none, some, List, [], ◌∷◌, if◌then◌else◌,
  length, take, ◌>>=◌, ◌>>◌, assert, is_nonneg,
}
use operating_systems_assign.BitMap.{BitMap}
use operating_systems_assign.BitMap
use operating_systems_assign.FileHeader.{FileHeader, allocate, deallocate}
use operating_systems_assign.Directory.{DirectoryEntry, Directory}
use operating_systems_assign.Directory
use operating_systems_assign.OpenFile.{OpenFile, Disk, num_sectors}
use operating_systems_assign.OpenFile
use operating_systems_assign.OpenFileTable.{
  FileHandle, file_handle, handle_read, handle_write, handle_read_at, handle_write_at, Pointer,
  wild, null, to, Store, put, deref, OpenFileTable, open_file_table, find_file, get_file,
  increment_use_count, add_file, remove_file, remove_all_files, touch_writeable_files,
}
use operating_systems_assign.Storage.{
  fetch_header, write_back_header, fetch_bit_map, write_back_bit_map, fetch_directory,
  write_back_directory,
}

abbrev pub free_map_sector : ℕ
free_map_sector = 0

abbrev pub directory_sector : ℕ
directory_sector = 1

-- NumSectors / BitsInByte
abbrev pub free_map_file_size : ℕ
free_map_file_size = 128

abbrev pub num_dir_entries : ℕ
num_dir_entries = 10

-- sizeof(DirectoryEntry) * NumDirEntries
abbrev pub directory_file_size : ℕ
directory_file_size = 200

-- What the memory of a new object holds before anything is stored there.
pub record Memory : Type 0 where
  pub bytes : ℕ → List ℕ
  pub words : List ℕ
  pub entries : List DirectoryEntry
  pub header : FileHeader
  pub int : ℕ

-- `next_address` is where the next `new` puts its object.
pub record FileSystem : Type 0 where
  pub disk : Disk
  pub free_map_file : OpenFile
  pub directory_file : OpenFile
  pub cd_sector : ℕ
  pub open_files : OpenFileTable
  pub next_address : ℕ

-- `new OpenFile(sector)`
pub open_file : Disk → ℕ → Option OpenFile
open_file disk s = fetch_header disk s >>= λ h. some (record { hdr = h; seek_position = 0 })

abbrev stored : FileSystem → ℕ → FileHandle → OpenFileTable
stored fs a h = record fs.open_files { store = put fs.open_files.store a (some h) }

module _ (m : Memory) where
  -- `new Directory(NumDirEntries)`
  pub new_directory : Directory
  new_directory = Directory.directory (take num_dir_entries m.entries)

  pub load_directory : Disk → ℕ → Option (FileHeader × Directory)
  load_directory disk s = do
    file ← open_file disk s
    d ← fetch_directory new_directory file.hdr disk
    some (file.hdr, d)

  pub load_free_map : FileSystem → Option BitMap
  load_free_map fs = do
    b ← BitMap.bit_map num_sectors m.words
    fetch_bit_map b fs.free_map_file.hdr fs.disk

  -- The constructor with format = TRUE.
  pub format : Disk → Option FileSystem
  format disk = do
    b₀ ← BitMap.bit_map num_sectors m.words
    b₁ ← BitMap.mark b₀ free_map_sector
    b₂ ← BitMap.mark b₁ directory_sector
    map_hdr ← allocate m.header b₂ free_map_file_size
    assert map_hdr.0
    dir_hdr ← allocate m.header map_hdr.2 directory_file_size
    assert dir_hdr.0
    disk₁ ← write_back_header map_hdr.1 disk free_map_sector
    disk₂ ← write_back_header dir_hdr.1 disk₁ directory_sector
    free_map_file ← open_file disk₂ free_map_sector
    directory_file ← open_file disk₂ directory_sector
    disk₃ ← write_back_bit_map m.bytes dir_hdr.2 free_map_file.hdr disk₂
    disk₄ ← write_back_directory m.bytes new_directory directory_file.hdr disk₃
    some (record {
      disk = disk₄;
      free_map_file = free_map_file;
      directory_file = directory_file;
      cd_sector = directory_sector;
      open_files = open_file_table;
      next_address = 0;
    })

  -- The constructor with format = FALSE.
  pub mount : Disk → Option FileSystem
  mount disk = do
    free_map_file ← open_file disk free_map_sector
    directory_file ← open_file disk directory_sector
    some (record {
      disk = disk;
      free_map_file = free_map_file;
      directory_file = directory_file;
      cd_sector = directory_sector;
      open_files = open_file_table;
      next_address = 0;
    })

  pub change_directory : FileSystem → List ℕ → Option (Bool × FileSystem)
  change_directory fs name = load_directory fs.disk fs.cd_sector >>= λ dir.
      elim (Directory.find_directory dir.1 name) [
        | none ↦ some (false, fs)
        | some s ↦ some (true, record fs { cd_sector = s })
      ]

  -- The "." and ".." of a new directory.
  pub write_dots : Bool → ℕ → ℕ → Disk → Option Disk
  write_dots false s parent disk = some disk
  write_dots true s parent disk = do
    file ← open_file disk s
    write_back_directory m.bytes
        (Directory.add (Directory.add new_directory Directory.dot s true).1 Directory.dot_dot parent
          true).1
        file.hdr disk

  -- The end of Create, with everything found: nothing is on the disk yet.
  pub commit :
      FileSystem
      → FileHeader
      → Directory
      → FileHeader
      → BitMap
      → ℕ
      → Bool
      → Option (Bool × FileSystem)
  commit fs dir_hdr d hdr free_map s is_directory = do
    disk₁ ← write_back_header hdr fs.disk s
    disk₂ ← write_back_directory m.bytes d dir_hdr disk₁
    disk₃ ← write_back_bit_map m.bytes free_map fs.free_map_file.hdr disk₂
    disk₄ ← write_dots is_directory s fs.cd_sector disk₃
    some (true, record fs { disk = disk₄ })

  -- Create, from the sector for the header on.
  pub create_at :
      FileSystem
      → FileHeader × Directory
      → BitMap
      → ℕ
      → List ℕ
      → ℕ
      → Bool
      → Option (Bool × FileSystem)
  create_at fs dir free_map s name initial_size is_directory =
      let added = Directory.add dir.1 name s is_directory in
      if added.0
      then (allocate m.header free_map initial_size >>= λ r.
          if r.0 then commit fs dir.0 added.1 r.1 r.2 s is_directory else some (false, fs))
      else some (false, fs)

  -- Create, from the free map on.
  pub create_new :
      FileSystem → FileHeader × Directory → List ℕ → ℕ → Bool → Option (Bool × FileSystem)
  create_new fs dir name initial_size is_directory = load_free_map fs >>= λ b.
      BitMap.find b >>= λ found. elim found.0 [
        | none ↦ some (false, fs)
        | some s ↦ create_at fs dir found.1 s name initial_size is_directory
      ]

  pub create : FileSystem → List ℕ → ℕ → Bool → Option (Bool × FileSystem)
  create fs name initial_size is_directory = load_directory fs.disk fs.cd_sector >>= λ dir.
      elim (Directory.find dir.1 name) [
        | some s ↦ some (false, fs)
        | none ↦ elim (Directory.find_directory dir.1 name) [
          | some s ↦ some (false, fs)
          | none ↦ create_new fs dir name initial_size is_directory
        ]
      ]

  pub create_directory : FileSystem → List ℕ → Option (Bool × FileSystem)
  create_directory fs name = create fs name directory_file_size true

  -- May the entry at the sector go: it is no directory, or an empty one?
  pub removable : FileSystem → Directory → List ℕ → ℕ → Option Bool
  removable fs d name s = elim (Directory.find_directory d name) [
    | none ↦ some true
    | some t ↦ load_directory fs.disk s >>= λ target. some (Directory.is_empty target.1)
  ]

  pub remove : FileSystem → List ℕ → Option (Bool × FileSystem)
  remove fs name = load_directory fs.disk fs.cd_sector >>= λ dir. elim (Directory.find dir.1 name) [
    | none ↦ some (false, fs)
    | some s ↦ do
      hdr ← fetch_header fs.disk s
      free_map ← load_free_map fs
      may ← removable fs dir.1 name s
      if may
          then (do
            freed ← deallocate hdr free_map
            cleared ← BitMap.clear freed s
            disk₁ ← write_back_bit_map m.bytes cleared fs.free_map_file.hdr fs.disk
            disk₂ ← write_back_directory m.bytes (Directory.remove dir.1 name).1 dir.0 disk₁
            some (true, record fs { disk = disk₂ }))
          else some (false, fs)
  ]

  -- Open, for a file that is in no entry of the table; `null` is the result NULL.
  pub open_new : FileSystem → List ℕ → OpenFile → Option (Pointer × FileSystem)
  open_new fs name file =
      let a = fs.next_address in
      let handle = file_handle m.int name true a file in
      add_file (record fs.open_files { store = put fs.open_files.store a (some handle) }) a >>= λ r.
      some (
        if r.0 then to a else null,
        record fs { open_files = r.1; next_address = suc fs.next_address },
      )

  -- Open, for a file that an entry of the table holds: its handle gets one more user.
  pub share : FileSystem → Pointer → Option (Pointer × FileSystem)
  share fs wild = none
  share fs null = none
  share fs (to a) = fs.open_files.store a >>= λ h. some (
    to a,
    record fs {
      open_files = record fs.open_files {
        store = put fs.open_files.store a (some (increment_use_count h));
      };
    },
  )

  -- Open, from the sector of the file on.
  pub open_at : FileSystem → List ℕ → ℕ → Option (Pointer × FileSystem)
  open_at fs name s = open_file fs.disk s >>= λ file. find_file fs.open_files s >>= λ index.
      elim index [ none ↦ open_new fs name file | some i ↦ share fs (get_file fs.open_files i) ]

  pub open_handle : FileSystem → List ℕ → Option (Pointer × FileSystem)
  open_handle fs name = load_directory fs.disk fs.cd_sector >>= λ dir.
      elim (Directory.find dir.1 name) [
        | none ↦ some (null, fs)
        | some s ↦ elim (Directory.find_directory dir.1 name) [
          | none ↦ if is_nonneg s then open_at fs name s else some (null, fs)
          | some t ↦ some (null, fs)
        ]
      ]

  pub close : FileSystem → ℕ → Option FileSystem
  close fs a = remove_file fs.open_files a >>= λ r. some (record fs { open_files = r.1 })

  pub close_all : FileSystem → Option FileSystem
  close_all fs = remove_all_files fs.open_files >>= λ r. some (record fs { open_files = r.1 })

  pub touch_opened_files : FileSystem → List ℕ → Option FileSystem
  touch_opened_files fs modif =
      touch_writeable_files m.bytes fs.open_files modif fs.disk >>= λ disk.
      some (record fs { disk = disk })

  pub read : FileSystem → ℕ → ℕ → Option (List ℕ × FileSystem)
  read fs a num_bytes = fs.open_files.store a >>= λ h. handle_read h fs.disk num_bytes >>= λ r.
      some (r.0, record fs { open_files = stored fs a r.1 })

  pub read_at : FileSystem → ℕ → ℕ → ℕ → Option (List ℕ)
  read_at fs a num_bytes position =
      fs.open_files.store a >>= λ h. handle_read_at h fs.disk num_bytes position

  pub write : FileSystem → ℕ → List ℕ → ℕ → Option (ℕ × FileSystem)
  write fs a from num_bytes = fs.open_files.store a >>= λ h.
      handle_write m.bytes h fs.disk from num_bytes >>= λ r.
      some (r.0, record fs { disk = r.2; open_files = stored fs a r.1 })

  pub write_at : FileSystem → ℕ → List ℕ → ℕ → ℕ → Option (ℕ × FileSystem)
  write_at fs a from num_bytes position = fs.open_files.store a >>= λ h.
      handle_write_at m.bytes h fs.disk from num_bytes position >>= λ r.
      some (r.0, record fs { disk = r.1 })
