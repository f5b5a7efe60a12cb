-- ===== src/FileSystem/Failure.antt =====
-- An operation that fails changes nothing: filesys.cc discards what it has modified.
use operating_systems_assign.Prelude.{ℕ, ◌≡◌, ◌≢◌, Bool, false, some, List, arith}
use operating_systems_assign.BitMap.{BitMap}
use operating_systems_assign.FileHeader.{FileHeader}
use operating_systems_assign.Directory.{Directory}
use operating_systems_assign.FileSystem.{
  Memory, FileSystem, commit, create_at, create_new, create, remove,
}

module _ (m : Memory) (fs fs' : FileSystem) where
  commit_not_false :
      (dir_hdr hdr : FileHeader) (d : Directory) (b : BitMap) (s : ℕ) (is_directory : Bool)
      → commit m fs dir_hdr d hdr b s is_directory ≢ some (false, fs')
  unfolding commit
  commit_not_false dir_hdr hdr d b s is_directory e = absurd (ground arith)

  create_at_failed :
      (dir : FileHeader × Directory) (b : BitMap) (s : ℕ) (name : List ℕ) (size : ℕ) (d : Bool)
      → create_at m fs dir b s name size d ≡ some (false, fs')
      → fs' ≡ fs
  unfolding create_at
  create_at_failed dir b s name size d e = grind (arith, commit_not_false)

  create_new_failed :
      (dir : FileHeader × Directory) (name : List ℕ) (size : ℕ) (d : Bool)
      → create_new m fs dir name size d ≡ some (false, fs')
      → fs' ≡ fs
  unfolding create_new
  create_new_failed dir name size d e = grind (arith, create_at_failed)

  -- Create and CreateDirectory that return FALSE leave the file system, the disk included, as it
  -- was.
  pub create_failed :
      (name : List ℕ) (size : ℕ) (is_directory : Bool)
      → create m fs name size is_directory ≡ some (false, fs')
      → fs' ≡ fs
  unfolding create
  create_failed name size d e = grind (arith, create_new_failed)

  -- Remove that returns FALSE leaves the file system, the disk included, as it was.
  pub remove_failed : (name : List ℕ) → remove m fs name ≡ some (false, fs') → fs' ≡ fs
  unfolding remove
  remove_failed name e = ground arith
