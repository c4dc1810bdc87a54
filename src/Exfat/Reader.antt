-- ===== src/Exfat/Reader.antt =====
-- kernel/filesystem/instance.cpp: `folder_instance::reader`, which looks for the records of a file in a
-- directory. A record is the list of its 32 bytes. The records of the directory from the reader's index on are a
-- list, and `last` is the status after them: the end, or a sector that cannot be read.
pub mod Sets
pub mod Long
mod Tests
use cofuos.Prelude.{
  ℕ, zero, suc, ◌+◌, ◌*◌, ◌/◌, ◌%◌, ◌^◌, Bool, true, false, ltb, leb, ◌==◌, not, ◌&&◌, ◌||◌,
  if◌then◌else◌, Option, none, some, List, [], ◌∷◌, ◌++◌, length, get_or,
}

abbrev pub Record : Type 0
Record = List ℕ

abbrev pub byte_at : Record → ℕ → ℕ
byte_at r i = get_or r i 0

abbrev pub word_at : Record → ℕ → ℕ
word_at r i = byte_at r i + 256 * byte_at r (i + 1)

abbrev pub eof_failure : ℕ
eof_failure = 1

-- `mode & ALLOW_FILE`, `mode & ALLOW_FOLDER` and `mode & CHECK_HASH`.
abbrev pub has_bit : ℕ → ℕ → Bool
has_bit mode bit = mode / bit % 2 == 1

abbrev pub checksum_byte : ℕ → ℕ → ℕ
checksum_byte sum b = ((if sum % 2 == 1 then 32768 else 0) + sum / 2 + b) % 65536

pub checksum_loop : ℕ → ℕ → List ℕ → ℕ
checksum_loop i sum [] = sum
checksum_loop i sum (b ∷ bs) =
    let rest =
      checksum_loop (i + 1) (if (i == 2) || (i == 3) then sum else checksum_byte sum b) bs in
    rest

pub bytes_of : List Record → List ℕ
bytes_of [] = []
bytes_of (r ∷ rs) = r ++ bytes_of rs

abbrev pub checksum : List Record → ℕ
checksum rs = checksum_loop 0 0 (bytes_of rs)

pub data Action : Type 0 where
  clear : Action
  keep : List Record → Action
  got_file : List Record → Action

abbrev pub on_primary : ℕ → Record → Action
on_primary mode rec =
    if ltb (byte_at rec 1) 2
    then clear
    else (if (if byte_at rec 4 / 16 % 2 == 1 then has_bit mode 16 else has_bit mode 8)
        then keep (rec ∷ [])
        else clear)

abbrev pub on_stream : ℕ → ℕ → List Record → Record → Action
on_stream mode hash list rec =
    if not (length list == 1)
    then clear
    else (if has_bit mode 64 && not (hash == word_at rec 4)
        then clear
        else keep (list ++ (rec ∷ [])))

abbrev pub front : List Record → Record
front [] = []
front (r ∷ rs) = r

abbrev pub on_name : List Record → Record → Action
on_name list rec =
    let all = list ++ (rec ∷ []) in
    if ltb (length list) 2
    then clear
    else (if ltb (length all) (byte_at (front all) 1)
        then keep all
        else (if checksum all == word_at (front all) 2 then got_file all else clear))

-- The `switch` of the inner loop.
abbrev pub on_record : ℕ → ℕ → List Record → Record → Action
on_record mode hash list rec =
    if not (mode == 0) && ltb 128 (byte_at rec 0)
    then (if byte_at rec 0 == 133
        then on_primary mode rec
        else (if byte_at rec 0 == 192
            then on_stream mode hash list rec
            else (if byte_at rec 0 == 193 then on_name list rec else clear)))
    else clear

-- The status, `list` and `index` afterwards.
abbrev pub Step : Type 0
Step = ℕ × List Record × ℕ

abbrev pub after_record : Action → ℕ → (List Record → Step) → Step
after_record clear index go = go []
after_record (keep list) index go = go list
after_record (got_file list) index go = (0, list, index + 1)

pub step : ℕ → ℕ → ℕ → ℕ → List Record → List Record → Step
step mode hash last index list [] = (last, [], index)
step mode hash last index list (rec ∷ recs) =
    let go : List Record → Step = λ kept. step mode hash last (index + 1) kept recs in
    let next = after_record (on_record mode hash list rec) index go in
    if byte_at rec 0 == 0 then (eof_failure, [], index) else next

-- `get_name`, the empty name for none. The word `i` of the name is in the name record `i / 15`.
abbrev pub char_at : List Record → ℕ → ℕ
char_at list i = word_at (get_or list (2 + i / 15) []) (2 + 2 * (i % 15))

pub name_loop : ℕ → ℕ → ℕ → List Record → Option (List ℕ)
name_loop zero i entrance_size list = some []
name_loop (suc n) i entrance_size list =
    let rest = name_loop n (i + 1) entrance_size list in
    let ch = char_at list i in
    if ltb entrance_size (2 + i / 15) || (ch == 0) || leb 256 ch then none else after_char ch rest
  where
    after_char : ℕ → Option (List ℕ) → Option (List ℕ)
    after_char ch none = none
    after_char ch (some cs) = some (ch ∷ cs)

abbrev pub with_slash : Bool → Option (List ℕ) → List ℕ
with_slash label none = []
with_slash label (some cs) = if label then cs ++ (47 ∷ []) else cs

pub get_name : Bool → List Record → List ℕ
get_name label_folder list =
    let attributes = word_at (front list) 4 in
    let entrance_size = byte_at (front list) 1 in
    let name_size = byte_at (get_or list 1 []) 3 in
    let name =
      with_slash (label_folder && (attributes / 16 % 2 == 1))
        (name_loop name_size 0 entrance_size list) in
    if ltb (length list) 2 || not (entrance_size + 1 == length list) then [] else name
