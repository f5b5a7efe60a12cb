-- ===== src/FileSystem/Tests.antt =====
-- The theorems on the file system at a disk whose root directory holds a file "a" at sector 5 and a
-- directory "b" at sector 6.
use operating_systems_assign.Prelude.{
  ◌≡◌, refl, true, false, none, some, [], ◌∷◌, ◌++◌, replicate, if◌then◌else◌, ◌==◌,
}
use operating_systems_assign.FileHeader.{FileHeader, byte_to_sector, file_length}
use operating_systems_assign.Directory.{
  DirectoryEntry, Directory, find_index, find_index_loop, matches, strncmp_eq,
}
use operating_systems_assign.Directory
use operating_systems_assign.OpenFile.{
  Disk, read_sector, copy_into, read_sectors, clip, read_range, read_at,
}
use operating_systems_assign.OpenFileTable.{FileHandle, wild, null, to, open_file_table, deref}
use operating_systems_assign.Storage.{
  int_bytes, int_at, ints_bytes, ints_at, header_bytes, header_at, fetch_header, fetch_directory,
  entry_bytes, entries_bytes, entry_at, entries_at,
}
use operating_systems_assign.FileSystem.{
  Memory, FileSystem, open_file, new_directory, load_directory, create, remove, open_handle,
}
use operating_systems_assign.FileSystem.Failure.{create_failed, remove_failed}
use operating_systems_assign.FileSystem.Opening.{IsFile, open_handle_bad_entry}

abbrev root_header : FileHeader
root_header = record { num_bytes = 200; num_sectors = 2; data_sectors = 3 ∷ 4 ∷ replicate 28 0 }

abbrev file_a : DirectoryEntry
file_a = record { in_use = true; sector = 5; name = 97 ∷ replicate 9 0; is_directory = false }

abbrev directory_b : DirectoryEntry
directory_b = record { in_use = true; sector = 6; name = 98 ∷ replicate 9 0; is_directory = true }

abbrev no_entry : DirectoryEntry
no_entry = record { in_use = false; sector = 0; name = replicate 10 0; is_directory = false }

abbrev sample_disk : Disk
sample_disk = record {
  sector = λ s.
      if s == 1
      then header_bytes root_header ++ []
      else (if s == 3
          then entries_bytes (file_a ∷ directory_b ∷ []) ++ replicate 88 0
          else replicate 128 0);
}

abbrev sample_memory : Memory
sample_memory = record {
  bytes = λ n. replicate n 0;
  words = replicate 32 0;
  entries = replicate 10 no_entry;
  header = root_header;
  int = 0;
}

abbrev sample : FileSystem
sample = record {
  disk = sample_disk;
  free_map_file = record { hdr = root_header; seek_position = 0 };
  directory_file = record { hdr = root_header; seek_position = 0 };
  cd_sector = 1;
  open_files = open_file_table;
  next_address = 0;
}

abbrev root : Directory
root = record { table = file_a ∷ directory_b ∷ replicate 8 no_entry }

sample-loaded : load_directory sample_memory sample_disk 1 ≡ some (root_header, root)
unfolding load_directory open_file new_directory Directory.directory fetch_header fetch_directory
    read_sector copy_into read_sectors clip read_range read_at byte_to_sector file_length int_bytes
    int_at ints_bytes ints_at header_bytes header_at entry_bytes entries_bytes entry_at entries_at
sample-loaded = refl

create_failed_example : sample ≡ sample
unfolding create Directory.find find_index find_index_loop matches strncmp_eq
create_failed_example =
    create_failed sample_memory sample sample (97 ∷ []) 10 false (rw sample-loaded refl)

remove_failed_example : sample ≡ sample
unfolding remove Directory.find find_index find_index_loop matches strncmp_eq
remove_failed_example = remove_failed sample_memory sample sample (99 ∷ []) (rw sample-loaded refl)

sample-IsFile : IsFile sample_memory sample (97 ∷ []) 5
unfolding Directory.find Directory.find_directory find_index find_index_loop matches strncmp_eq
    open_file fetch_header read_sector header_at ints_at int_at
sample-IsFile = record {
  current = (root_header, root);
  loaded = sample-loaded;
  found = refl;
  no_directory = refl;
  signed = refl;
  file = record {
    hdr = record { num_bytes = 0; num_sectors = 0; data_sectors = replicate 30 0 };
    seek_position = 0;
  };
  opened = refl;
}

open_handle_bad_entry_example : open_handle sample_memory sample (97 ∷ []) ≡ none
unfolding open_file_table deref
open_handle_bad_entry_example =
    open_handle_bad_entry sample_memory sample (97 ∷ []) 5 wild (replicate 9 wild) sample-IsFile
      refl refl

abbrev handle_a : FileHandle
handle_a = record {
  name = 97 ∷ [];
  sector = 5;
  writeable = true;
  file_id = 0;
  file = record { hdr = root_header; seek_position = 0 };
  position = 0;
  use_count = 1;
}

abbrev sample_opened : FileSystem
sample_opened = record sample {
  open_files = record {
    table = to 0 ∷ replicate 9 null;
    count = 1;
    store = λ a. if 0 == a then some handle_a else none;
  };
}

opened-IsFile : IsFile sample_memory sample_opened (97 ∷ []) 5
opened-IsFile = record {
  current = sample-IsFile.current;
  loaded = sample-IsFile.loaded;
  found = sample-IsFile.found;
  no_directory = sample-IsFile.no_directory;
  signed = refl;
  file = sample-IsFile.file;
  opened = sample-IsFile.opened;
}
