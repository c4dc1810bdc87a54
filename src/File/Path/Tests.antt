-- ===== src/File/Path/Tests.antt =====
-- Paths on a disk whose root has a folder "a" with a file "b".
use cofuos.Prelude.{
  ℕ, ◌≡◌, refl, true, false, ◌==◌, if◌then◌else◌, Option, none, some, List, [], ◌∷◌,
}
use cofuos.Exfat.Names.{name_equal, match_all}
use cofuos.File.Instance.{Store, Mode, Entry, relax, find, open_child}
use cofuos.File.Path.{imp_open, Opened, done, deadlock, name_of, tail_of}

abbrev disk : ℕ → List ℕ → Option Entry
disk i str =
    if name_equal (97 ∷ []) str
    then some (record { folder = true; label = 97 ∷ []; valid_size = 0; alloc_size = 0 })
    else (if name_equal (98 ∷ []) str
        then some (record { folder = false; label = 98 ∷ []; valid_size = 0; alloc_size = 0 })
        else none)

-- The root is in use by the file system and by one caller.
abbrev start : Store
start = record {
  ref_count = λ i. if i == 0 then 2 else 0;
  parent = λ i. 0;
  is_folder = λ i. true;
  name = λ i. [];
  file_table = λ i. [];
  next = 1;
}

abbrev root_only : ℕ → ℕ
root_only i = if i == 0 then 1 else 0

abbrev any_mode : Mode
any_mode = record { allow_file = true; allow_folder = true }

abbrev result_of : Opened → Option ℕ
result_of (done r s) = r
result_of deadlock = none

abbrev root_count : Opened → ℕ
root_count (done r s) = s.ref_count 0
root_count deadlock = 0

-- "a/../b" waits for ever: the folder "a" goes with the reference of the walk, while the root is locked.
test_deadlock : imp_open disk 7 0 (97 ∷ 47 ∷ 46 ∷ 46 ∷ 47 ∷ 98 ∷ []) any_mode start ≡ deadlock
unfolding imp_open name_of tail_of open_child find match_all relax
test_deadlock = refl

-- "a/b" gives the file, which is the second new instance.
test_open : result_of (imp_open disk 4 0 (97 ∷ 47 ∷ 98 ∷ []) any_mode start) ≡ some 2
unfolding imp_open name_of tail_of open_child find match_all relax
test_open = refl

-- "." gives the root, and the one reference that the caller had of it is gone.
test_dot : root_count (imp_open disk 2 0 (46 ∷ []) any_mode start) ≡ 1
unfolding imp_open name_of tail_of relax
test_dot = refl
