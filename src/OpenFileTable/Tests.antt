-- ===== src/OpenFileTable/Tests.antt =====
-- The theorems on the table of open files at tables with one handle.
use operating_systems_assign.Prelude.{true, none, some, [], ◌∷◌, replicate, ◌==◌, if◌then◌else◌}
use operating_systems_assign.OpenFileTable.{FileHandle, null, to, Store, OpenFileTable}

abbrev handle : FileHandle
handle = record {
  name = [];
  sector = 5;
  writeable = true;
  file_id = 0;
  file = record {
    hdr = record { num_bytes = 0; num_sectors = 0; data_sectors = [] };
    seek_position = 0;
  };
  position = 0;
  use_count = 1;
}

abbrev one_handle : Store
one_handle a = if 0 == a then some handle else none

abbrev opened : OpenFileTable
opened = record { table = to 0 ∷ replicate 9 null; count = 1; store = one_handle }

abbrev closed : OpenFileTable
closed = record { table = replicate 10 null; count = 0; store = one_handle }
