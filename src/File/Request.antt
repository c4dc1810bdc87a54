-- ===== src/File/Request.antt =====
-- kernel/filesystem/file.cpp, kernel/filesystem/exfat.cpp and kernel/filesystem/worker.cpp: the requests of files, from
-- `read`, `write` and `seek` through `exfat::task` and the thread pool to the end of a worker's round. A file
-- is a number. Each step below is atomic in the code, under the lock of the file or that of the pool; between
-- the lock of `read` and the call of `task` the file is in `submitting`. What a worker transfers is a
-- parameter of its step.
pub mod Places
mod Tests
use cofuos.Prelude.{
  ℕ, zero, suc, ◌+◌, Bool, true, false, ◌==◌, not, ◌&&◌, ◌||◌, if◌then◌else◌, List, [], ◌∷◌, ◌++◌,
}
use cofuos.Prelude.Tickets.{count, remove}
use cofuos.File.Instance.{put_at}

abbrev pub command_read : ℕ
command_read = 1

abbrev pub command_write : ℕ
command_write = 2

abbrev pub command_list : ℕ
command_list = 3

-- The fields of a file; `failed` is the bit `OP_FAILURE` of `iostate`.
pub record FileState : Type 0 where
  pub offset : ℕ
  pub length : ℕ
  pub failed : Bool
  pub command : ℕ
  pub folder : Bool

-- `submitting` has the files that a caller is about to give to `task`, `requests` the list of the pool, and
-- `working` the files that a worker has taken.
pub record Pool : Type 0 where
  pub file : ℕ → FileState
  pub submitting : List ℕ
  pub requests : List ℕ
  pub working : List ℕ
  pub running : Bool
  pub writable : Bool

abbrev pub set_file : ℕ → FileState → Pool → Pool
set_file f x p = record p { file = put_at p.file f x }

abbrev pub fail : FileState → FileState
fail x = record x { failed = true }

abbrev pub accept : ℕ → ℕ → FileState → FileState
accept command len x = record x { length = len; command = command; failed = false }

-- `read` and `write` up to the call of `task`.
abbrev pub accepted : ℕ → ℕ → ℕ → Pool → Pool
accepted f command len p = record (set_file f (accept command len (p.file f)) p) {
  submitting = f ∷ p.submitting;
}

pub read : ℕ → ℕ → Pool → Pool
read f len p =
    let x = p.file f in
    if not (x.command == 0)
    then set_file f (fail x) p
    else accepted f (if x.folder then command_list else command_read) len p

pub write : ℕ → ℕ → Pool → Pool
write f len p =
    let x = p.file f in
    if not (x.command == 0) || x.folder
    then set_file f (fail x) p
    else accepted f command_write len p

pub seek : ℕ → ℕ → Pool → Bool × Pool
seek f off p =
    let x = p.file f in
    if not (x.command == 0) then (false, p) else (true, set_file f (record x { offset = off }) p)

pub result : ℕ → Pool → ℕ
result f p = if not ((p.file f).command == 0) then 0 else (p.file f).length

abbrev pub refused : FileState → FileState
refused x = record x { failed = true; length = 0; command = 0 }

-- `exfat::task` with `thread_pool::put`; nothing to do for a file that no caller submits.
pub task : ℕ → Pool → Pool
task f p =
    let q = record p { submitting = remove f p.submitting } in
    let x = p.file f in
    if count f p.submitting == 0
    then p
    else (if p.running && (not (x.command == command_write) || p.writable)
        then record q { requests = p.requests ++ (f ∷ []) }
        else set_file f (refused x) q)

-- `thread_pool::get` of a pool that is not stopping.
abbrev pub take_head : List ℕ → Pool → Pool
take_head [] p = p
take_head (f ∷ fs) p = record p { requests = fs; working = f ∷ p.working }

pub take_request : Pool → Pool
take_request p = take_head p.requests p

-- What a worker leaves in the file: the bytes transferred, the new offset, and whether it failed.
pub record Transfer : Type 0 where
  pub bytes : ℕ
  pub place : ℕ
  pub error : Bool

-- The `switch` of `thread_worker`: the case of `COMMAND_LIST` runs on into the default, which sets `OP_FAILURE`.
abbrev pub dispatch : Transfer → FileState → FileState
dispatch t x =
    let moved = record x { length = t.bytes; offset = t.place; failed = x.failed || t.error } in
    if (x.command == command_read) || (x.command == command_write) then moved else fail moved

-- The end of the round; nothing to do for a file that no worker has.
pub finish : ℕ → Transfer → Pool → Pool
finish f t p =
    let done = record (dispatch t (p.file f)) { command = 0 } in
    let q = record p { working = remove f p.working } in
    if count f p.working == 0 then p else set_file f done q

-- One step of any thread.
pub data Step : Type 0 where
  reading : ℕ → ℕ → Step
  writing : ℕ → ℕ → Step
  seeking : ℕ → ℕ → Step
  submitted : ℕ → Step
  taking : Step
  finishing : ℕ → Transfer → Step

abbrev pub perform : Step → Pool → Pool
perform (reading f len) p = read f len p
perform (writing f len) p = write f len p
perform (seeking f off) p = (seek f off p).1
perform (submitted f) p = task f p
perform taking p = take_request p
perform (finishing f t) p = finish f t p

pub run : List Step → Pool → Pool
run [] p = p
run (s ∷ ss) p = run ss (perform s p)
