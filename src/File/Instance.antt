-- ===== src/File/Instance.antt =====
-- kernel/filesystem/instance.cpp, kernel/filesystem/include/instance.hpp: the instances of files and folders in
-- use, with their references. An instance is a number; the root is 0, and a new one gets the next number. An
-- instance without references is deleted. The lock of each instance makes its operations atomic.
pub mod Count
use cofuos.Prelude.{
  ℕ, zero, suc, ◌+◌, ◌-◌, Bool, leb, ◌&&◌, true, false, ◌==◌, ◌&&◌, if◌then◌else◌, Option, none,
  some, List, [], ◌∷◌,
}
use cofuos.Prelude.Tickets.{remove}
use cofuos.Exfat.Names.{name_equal}

-- The fields of all instances: `ref_count`, `parent`, `is_folder`, `name` and `file_table`.
pub record Store : Type 0 where
  pub ref_count : ℕ → ℕ
  pub parent : ℕ → ℕ
  pub is_folder : ℕ → Bool
  pub name : ℕ → List ℕ
  pub file_table : ℕ → List ℕ
  pub next : ℕ

-- `mode & ALLOW_FILE` and `mode & ALLOW_FOLDER`.
pub record Mode : Type 0 where
  pub allow_file : Bool
  pub allow_folder : Bool

-- What the directory of a folder on the disk has under a name: whether it is a folder, its name and its sizes.
pub record Entry : Type 0 where
  pub folder : Bool
  pub label : List ℕ
  pub valid_size : ℕ
  pub alloc_size : ℕ

abbrev pub allows : Mode → Bool → Bool
allows m folder = if folder then m.allow_folder else m.allow_file

-- A folder whose sizes differ, or a file with more valid bytes than it has, is not opened.
abbrev pub is_sound : Entry → Bool
is_sound e = if e.folder then e.valid_size == e.alloc_size else leb e.valid_size e.alloc_size

abbrev pub put_at {ℓ} : {A : Type ℓ} → (ℕ → A) → ℕ → A → ℕ → A
put_at f i a j = if j == i then a else f j

abbrev pub acquire : ℕ → Store → Store
acquire i s = record s { ref_count = put_at (s.ref_count) i (s.ref_count i + 1) }

abbrev pub release : ℕ → Store → Store
release i s = record s { ref_count = put_at (s.ref_count) i (s.ref_count i - 1) }

-- `parent->close(this)` up to the decrement.
abbrev pub detach : ℕ → Store → Store
detach i s = record s {
  file_table = put_at (s.file_table) (s.parent i) (remove i (s.file_table (s.parent i)));
}

-- `relax`; when the last reference goes, the destructor calls `close` of the parent, which is a `relax` of it.
-- The number of an instance is larger than its parent's, so `suc i` levels are enough.
unfoldable pub relax : ℕ → ℕ → Store → Store
relax zero i s = s
relax (suc n) i s =
    let fewer = release i s in
    let above = relax n (s.parent i) (detach i fewer) in
    if fewer.ref_count i == 0 then above else fewer

-- `file_table.find(str)`
unfoldable pub find : Store → List ℕ → List ℕ → Option ℕ
find s [] str = none
find s (i ∷ is) str = let rest = find s is str in if name_equal (s.name i) str then some i else rest

-- The constructor, `file_table.insert` and the reference that the child holds.
abbrev pub create : ℕ → Entry → Store → Store
create cur e s = record s {
  ref_count = put_at (put_at (s.ref_count) cur (s.ref_count cur + 1)) (s.next) 1;
  parent = put_at (s.parent) (s.next) cur;
  is_folder = put_at (s.is_folder) (s.next) (e.folder);
  name = put_at (s.name) (s.next) (e.label);
  file_table = put_at (put_at (s.file_table) cur (s.next ∷ s.file_table cur)) (s.next) [];
  next = suc (s.next);
}

-- `on_disk cur str` is what the directory of the folder `cur` has.
module _ (on_disk : ℕ → List ℕ → Option Entry) where
  abbrev pub open_found : Mode → Store → ℕ → Option ℕ × Store
  open_found mode s i = if allows mode (s.is_folder i) then (some i, acquire i s) else (none, s)

  abbrev pub open_disk : Mode → Store → ℕ → Option Entry → Option ℕ × Store
  open_disk mode s cur none = (none, s)
  open_disk mode s cur (some e) =
      if allows mode (e.folder) && is_sound e then (some (s.next), create cur e s) else (none, s)

  abbrev pub open_or : Mode → Store → ℕ → List ℕ → Option ℕ → Option ℕ × Store
  open_or mode s cur str none = open_disk mode s cur (on_disk cur str)
  open_or mode s cur str (some i) = open_found mode s i

  unfoldable pub open_child : ℕ → List ℕ → Mode → Store → Option ℕ × Store
  open_child cur str mode s = open_or mode s cur str (find s (s.file_table cur) str)
