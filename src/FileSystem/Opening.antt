-- ===== src/FileSystem/Opening.antt =====
-- What Open does for a file that is in the current directory.
use operating_systems_assign.Prelude.{
  ℕ, ◌<◌, ◌≡◌, refl, ◌∙◌, true, none, some, List, [], ◌∷◌, arith, is_nonneg, ◌>>=◌,
}
use operating_systems_assign.FileHeader.{FileHeader}
use operating_systems_assign.Directory.{Directory}
use operating_systems_assign.Directory
use operating_systems_assign.OpenFile.{OpenFile}
use operating_systems_assign.OpenFileTable.{
  FileHandle, Pointer, null, to, put, deref, find_file_loop, find_file, get_file,
  increment_use_count, handle_index,
}
use operating_systems_assign.OpenFileTable.Slots.{Holds, find_file_bad_entry, find_file_sound}
use operating_systems_assign.OpenFileTable.Lifetime.{
  handle_index-find_file_loop, remove_file-increment_use_count,
}
use operating_systems_assign.FileSystem.{
  Memory, FileSystem, open_file, load_directory, share, open_at, open_handle, close,
}

-- The name is that of a file, not a directory, in the current directory; its header is at sector s.
pub record IsFile (m : Memory) (fs : FileSystem) (name : List ℕ) (s : ℕ) : Type 0 where
  pub current : FileHeader × Directory
  pub loaded : load_directory m fs.disk fs.cd_sector ≡ some current
  pub found : Directory.find current.1 name ≡ some s
  pub no_directory : Directory.find_directory current.1 name ≡ none
  pub signed : is_nonneg s ≡ true
  pub file : OpenFile
  pub opened : open_file fs.disk s ≡ some file

module _ (m : Memory) (fs : FileSystem) (name : List ℕ) where
  open_handle_file : (s : ℕ) → IsFile m fs name s → open_handle m fs name ≡ open_at m fs name s
  unfolding open_handle
  open_handle_file s f = ground (arith, f.loaded, f.found, f.no_directory, f.signed)

  -- Open of a directory returns NULL and changes nothing.
  pub open_handle_directory :
      (dir : FileHeader × Directory) (t : ℕ)
      → load_directory m fs.disk fs.cd_sector ≡ some dir
      → Directory.find_directory dir.1 name ≡ some t
      → open_handle m fs name ≡ some (null, fs)
  unfolding open_handle Directory.find Directory.find_directory
  open_handle_directory dir t l d = ground arith

  -- Open of a file ends in an access through a bad pointer when the first entry of the table of
  -- open files holds no handle, as in the table that the constructor makes.
  pub open_handle_bad_entry :
      (s : ℕ) (p : Pointer) (ps : List Pointer)
      → IsFile m fs name s
      → fs.open_files.table ≡ p ∷ ps
      → deref fs.open_files.store p ≡ none
      → open_handle m fs name ≡ none
  unfolding open_at find_file find_file_loop
  open_handle_bad_entry s p ps f e d =
      open_handle_file s f
      ∙ rw (f.opened, find_file_bad_entry fs.open_files s [] ps p e refl d) refl

  -- Open of a file that entry i of the table holds, and Close of the handle that Open returns: the
  -- table of open files and the disk are as before, and the handle has the users that it had.
  pub close-open_handle :
      (s i a : ℕ) (h : FileHandle)
      → IsFile m fs name s
      → find_file fs.open_files s ≡ some (some i)
      → get_file fs.open_files i ≡ to a
      → fs.open_files.store a ≡ some h
      → (open_handle m fs name >>= λ r. close m r.1 a) ≡ some fs
  unfolding open_at share close get_file find_file deref
  close-open_handle s i a h f g p st =
      closed
        (handle_index-find_file_loop fs.open_files.store s a 0 i i fs.open_files.table g
          (omega arith) p)
        (find_file_sound fs.open_files s i g)
    where
      shared : FileSystem
      shared = record fs {
        open_files = record fs.open_files {
          store = put fs.open_files.store a (some (increment_use_count h));
        };
      }

      opened : open_handle m fs name ≡ some (to a, shared)
      opened = open_handle_file s f ∙ rw (f.opened, g, p, st) refl

      closed :
          (n : ℕ) × (handle_index a 0 fs.open_files.table ≡ some (some n))
          → Holds fs.open_files s (get_file fs.open_files i)
          → (open_handle m fs name >>= λ r. close m r.1 a) ≡ some fs
      closed (n, q) (h', d, u, e) =
          let used : 0 < h.use_count = ground arith in
          rw (opened, remove_file-increment_use_count fs.open_files a n h q st used) refl
