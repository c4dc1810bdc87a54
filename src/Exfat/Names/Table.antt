-- ===== src/Exfat/Names/Table.antt =====
-- kernel/filesystem/include/instance.hpp: the `file_table` of a folder, a hash set of instances by their names. An
-- instance is its name here; the hash that it stores is that of its name, as the directory record has it.
use cofuos.Prelude.{ℕ, ◌≡◌, some, List, map}
use cofuos.Container.HashSet.{Hashing, HashSet, find}
use cofuos.Container.HashSet.Lookup.{find-some}
use cofuos.Exfat.Names.{name_equal, name_hash, to_upper}
use cofuos.Exfat.Names.Fold.{name_equal_lem}

-- `instance_wrapper::hash` and `instance_wrapper::equal`
abbrev pub instance_hashing : Hashing (List ℕ) (List ℕ)
instance_hashing = record {
  hash = name_hash;
  key_hash = name_hash;
  equal = name_equal;
  law = λ name str e. (name_equal_lem name str).1 e;
}

-- What is found under a name has that name, up to the case of its letters.
file_table-some :
    (str name : List ℕ) (table : HashSet (List ℕ))
    → find instance_hashing str table ≡ some name
    → map to_upper name ≡ map to_upper str
file_table-some str name table e =
    (name_equal_lem name str).0.0 (find-some instance_hashing str table name e)
