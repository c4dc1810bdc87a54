-- ===== src/Exfat/Reader/Sets.antt =====
-- The records that the reader collects.
use cofuos.Prelude.{
  ℕ, ◌/◌, ◌%◌, ◌≤◌, ◌<◌, ◌≡◌, ◌≢◌, ◌⊎◌, true, false, ◌==◌, not, ◌&&◌, if◌then◌else◌, List, [], ◌∷◌,
  length, All,
}
use cofuos.Exfat.Reader.{
  Record, byte_at, word_at, has_bit, checksum, Action, clear, keep, got_file, front, Step,
}

-- A file or a folder that the mode asks for, with two secondary records at least.
abbrev pub IsPrimary : ℕ → Record → Type 0
IsPrimary mode r =
    (byte_at r 0 ≡ 133)
    × (2 ≤ byte_at r 1)
    × ((if byte_at r 4 / 16 % 2 == 1 then has_bit mode 16 else has_bit mode 8) ≡ true)

-- The hash of the name is the one asked for, if one is.
abbrev pub IsStream : ℕ → ℕ → Record → Type 0
IsStream mode hash r =
    (byte_at r 0 ≡ 192) × ((has_bit mode 64 && not (hash == word_at r 4)) ≡ false)

abbrev pub IsName : Record → Type 0
IsName r = byte_at r 0 ≡ 193

-- The record of the file, the stream record and name records.
abbrev pub IsRecords : ℕ → ℕ → List Record → Type 0
IsRecords mode hash [] = Unit
IsRecords mode hash (r ∷ []) = IsPrimary mode r
IsRecords mode hash (r ∷ s ∷ ns) = IsPrimary mode r × IsStream mode hash s × All IsName ns

-- What `list` is between two records: with a name record, it is shorter than the count of the secondary records.
abbrev pub IsPartial : ℕ → ℕ → List Record → Type 0
IsPartial mode hash list =
    IsRecords mode hash list × ((length list ≤ 2) ⊎ (length list < byte_at (front list) 1))

-- The list that the test of the length lets through: of `n` secondary records it has the one of the file and
-- `n - 1` of them, but for `n = 2` both.
abbrev pub IsAccepted : ℕ → ℕ → List Record → Type 0
IsAccepted mode hash list =
    IsRecords mode hash list
    × (length list ≡ (if byte_at (front list) 1 == 2 then 3 else byte_at (front list) 1))
    × (3 ≤ length list)
    × (checksum list ≡ word_at (front list) 2)

abbrev IsAction : ℕ → ℕ → Action → Type 0
IsAction mode hash clear = Unit
IsAction mode hash (keep list) = IsPartial mode hash list
IsAction mode hash (got_file list) = IsAccepted mode hash list

-- What `step` gives: a list of records, with the index after it, or another status, with no record.
abbrev pub IsStep : ℕ → ℕ → ℕ → Step → Type 0
IsStep mode hash index (stat, list, next) =
    ((stat ≡ 0) × IsAccepted mode hash list × (index < next))
    ⊎ ((stat ≢ 0) × (list ≡ []) × (index ≤ next))
