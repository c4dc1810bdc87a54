-- ===== src/File/Path.antt =====
-- kernel/filesystem/file.cpp: `imp_open`, `open` and `open_wd`. A path is the list of its bytes; 46 is the dot
-- and 47 the slash.
pub mod Names
pub mod Walk
mod Tests
use cofuos.Prelude.{
  ℕ, zero, suc, ◌+◌, Bool, true, false, ◌==◌, ◌&&◌, not, if◌then◌else◌, Option, none, some, List,
  [], ◌∷◌, length,
}
use cofuos.File.Instance.{Store, Mode, Entry, acquire, relax, open_child}

-- The name before the first slash, and what begins with that slash.
pub name_of : List ℕ → List ℕ
name_of [] = []
name_of (c ∷ cs) = if c == 47 then [] else c ∷ name_of cs

pub tail_of : List ℕ → List ℕ
tail_of [] = []
tail_of (c ∷ cs) = if c == 47 then c ∷ cs else tail_of cs

-- What follows the slash.
abbrev pub rest_of : List ℕ → List ℕ
rest_of [] = []
rest_of (c ∷ cs) = cs

abbrev pub is_dot : List ℕ → Bool
is_dot [] = false
is_dot (c ∷ []) = c == 46
is_dot (c ∷ d ∷ cs) = false

abbrev pub is_dot_dot : List ℕ → Bool
is_dot_dot [] = false
is_dot_dot (c ∷ []) = false
is_dot_dot (c ∷ d ∷ []) = (c == 46) && (d == 46)
is_dot_dot (c ∷ d ∷ e ∷ cs) = false

-- `cur->relax()`
abbrev pub drop_ref : ℕ → Store → Store
drop_ref i s = relax (suc i) i s

abbrev pub folder_only : Mode
folder_only = record { allow_file = false; allow_folder = true }

-- `get_parent` with the reference that it is given; the root has no parent.
abbrev pub open_parent : ℕ → Store → Option ℕ × Store
open_parent zero s = (none, s)
open_parent (suc k) s = (some (s.parent (suc k)), acquire (s.parent (suc k)) s)

-- What the walk ends with: the instance for the caller, if any, or a thread that waits for itself.
pub data Opened : Type 0 where
  done : Option ℕ → Store → Opened
  deadlock : Opened

-- After the last name.
abbrev pub at_end : ℕ → Option ℕ × Store → Opened
at_end cur (none, s) = done none (drop_ref cur s)
at_end cur (some i, s) = done (some i) (drop_ref cur s)

-- `cur->relax()` takes the lock of the parent of `cur`: with the last reference of `cur`, its destructor calls `close`
-- of the parent, which locks it exclusively. The parent goes no further, since `next` is a reference of it.
abbrev pub closes_in : ℕ → ℕ → Store → Bool
closes_in i cur s = not (cur == 0) && (s.ref_count cur == 1) && (s.parent cur == i)

-- After another name; `go` is the rest of the loop. The shared lock of `next` is held while `cur` is relaxed.
abbrev pub on_from : ℕ → (ℕ → Store → Opened) → Option ℕ × Store → Opened
on_from cur go (none, s) = done none (drop_ref cur s)
on_from cur go (some i, s) =
    let moved = go i (drop_ref cur s) in
    let stayed = go i s in
    if i == cur then stayed else if closes_in i cur s then deadlock else moved

abbrev pub step : ℕ → (ℕ → Store → Opened) → List ℕ → (Mode → Option ℕ × Store) → Mode → Opened
step cur go [] child mode = at_end cur (child mode)
step cur go (c ∷ rest) child mode = on_from cur go (child folder_only)

module _ (on_disk : ℕ → List ℕ → Option Entry) where
  -- The instance of one name.
  abbrev pub next_of : ℕ → List ℕ → Store → Mode → Option ℕ × Store
  next_of cur name s mode =
      if is_dot name
      then (some cur, s)
      else (if is_dot_dot name then open_parent cur s else open_child on_disk cur name mode s)

  -- The loop; each pass takes a byte off the path at least.
  pub imp_open : ℕ → ℕ → List ℕ → Mode → Store → Opened
  imp_open zero cur path mode s = done none (drop_ref cur s)
  imp_open (suc n) cur [] mode s =
      if mode.allow_folder then done (some cur) s else done none (drop_ref cur s)
  imp_open (suc n) cur (c ∷ cs) mode s =
      let name = name_of (c ∷ cs) in
      let tail = tail_of (c ∷ cs) in
      let go : ℕ → Store → Opened = λ i t. imp_open n i (rest_of tail) mode t in
      let next = step cur go tail (next_of cur name s) mode in
      if c == 47 then done none (drop_ref cur s) else next

  -- `open` of a path that is not empty, with the working directory of the process; `get_work_dir` gives a
  -- reference of it.
  abbrev pub open_from : Option ℕ → List ℕ → Mode → Store → Opened
  open_from none path mode s = done none s
  open_from (some cwd) path mode s = imp_open (suc (length path)) cwd path mode (acquire cwd s)

  pub open_wd : Option ℕ → List ℕ → Store → Opened
  open_wd cwd [] s = done none s
  open_wd cwd (c ∷ path) s =
      let absolute = open_from (some 0) path folder_only s in
      let relative = open_from cwd (c ∷ path) folder_only s in
      if c == 47 then absolute else relative

  -- `open` without the flag of a program; the working directory is the process's.
  pub open_file : Option ℕ → List ℕ → Mode → Store → Opened
  open_file cwd [] mode s = done none s
  open_file cwd (c ∷ path) mode s =
      let absolute = open_from (some 0) path mode s in
      let relative = open_from cwd (c ∷ path) mode s in if c == 47 then absolute else relative
