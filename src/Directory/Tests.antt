-- ===== src/Directory/Tests.antt =====
-- The theorems on directories at a directory of three entries, of which one is in use.
use operating_systems_assign.Prelude.{
  ℕ, ◌≡◌, refl, true, false, none, some, List, [], ◌∷◌, replicate,
}
use operating_systems_assign.Directory.{
  DirectoryEntry, Directory, strncmp_eq, find, find_index, find_index_loop, matches, add, add_loop,
  remove, is_empty, is_empty_loop,
}
use operating_systems_assign.Directory.Lookup.{entry_in, bindings, add_binds}
use operating_systems_assign.Directory.Unique.{Unique, remove_binds, update-Unique}
use operating_systems_assign.Directory.Empty.{is_empty-find}

abbrev name_a : List ℕ
name_a = 97 ∷ []

abbrev name_b : List ℕ
name_b = 98 ∷ []

abbrev entry_a : DirectoryEntry
entry_a = record { in_use = true; sector = 5; name = 97 ∷ replicate 9 0; is_directory = false }

abbrev unused : DirectoryEntry
unused = record { in_use = false; sector = 0; name = replicate 10 0; is_directory = false }

abbrev one_file : Directory
one_file = record { table = entry_a ∷ unused ∷ unused ∷ [] }

abbrev no_file : Directory
no_file = record { table = unused ∷ unused ∷ [] }

abbrev full : Directory
full = record { table = entry_a ∷ [] }

add_binds_example : bindings (add one_file name_b 9 true).1 name_b ≡ (some 9, some 9)
unfolding add find_index find_index_loop matches strncmp_eq add_loop
add_binds_example = add_binds one_file (add one_file name_b 9 true).1 name_b name_b 9 true refl

one_file-Unique : Unique one_file.table
unfolding entry_in matches strncmp_eq
one_file-Unique = (λ u. refl, (λ u. refl, (λ u. refl, tt)))

remove_binds_example : bindings (remove one_file name_a).1 name_a ≡ (none, none)
unfolding strncmp_eq
remove_binds_example = remove_binds one_file name_a name_a one_file-Unique

update-Unique_example :
    Unique (add one_file name_b 9 true).1.table × Unique (remove one_file name_b).1.table
update-Unique_example = update-Unique one_file name_b 9 true one_file-Unique

is_empty-find_example : find no_file name_a ≡ none
unfolding is_empty is_empty_loop strncmp_eq
is_empty-find_example = is_empty-find no_file name_a refl refl refl
