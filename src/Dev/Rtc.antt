-- ===== src/Dev/Rtc.antt =====
-- kernel/dev/rtc.cpp: the real-time clock. The CMOS registers are a function from the index that is
-- written to port 0x70 to the byte that port 0x71 then gives.
pub mod Decode
pub mod Calendar
pub mod Resync
mod Tests
use cofuos.Prelude.{
  ℕ, ◌+◌, ◌-◌, ◌*◌, ◌/◌, ◌%◌, ◌^◌, Bool, true, false, List, [], ◌∷◌, get_or, ltb, ◌==◌, not, ◌&&◌,
  ◌||◌, if◌then◌else◌,
}

pub record Rtc : Type 0 where
  pub mode : ℕ
  pub century_index : ℕ
  pub reload : Bool
  pub time : ℕ

-- The fields of a date and time, as `update` decodes them.
pub record Fields : Type 0 where
  pub century : ℕ
  pub year : ℕ
  pub month : ℕ
  pub date : ℕ
  pub hour : ℕ
  pub minute : ℕ
  pub second : ℕ

-- `val & (1 << k)`, for the mask 2 ^ k.
abbrev pub has_bit : ℕ → ℕ → Bool
has_bit mask val = not (val / mask % 2 == 0)

-- `convert`: binary if bit 2 of `mode` is set, and BCD otherwise.
pub convert : ℕ → ℕ → ℕ
convert mode val = if has_bit 0x04 mode then val else (val / 16 * 10 + val % 16) % 256

pub decode_hour : ℕ → ℕ → ℕ
decode_hour mode hour =
    if has_bit 0x02 mode
    then convert mode hour
    else let h = convert mode (hour % 128) in
      let h' = if has_bit 0x80 hour then (h + 12) % 256 else h in if h' == 24 then 0 else h'

pub read_fields : (ℕ → ℕ) → Rtc → ℕ → Fields
read_fields cmos r second = record {
  century = if r.century_index == 0 then 20 else convert r.mode (cmos r.century_index);
  year = convert r.mode (cmos 9);
  month = convert r.mode (cmos 8);
  date = convert r.mode (cmos 7);
  hour = decode_hour r.mode (cmos 4);
  minute = convert r.mode (cmos 2);
  second = second;
}

pub is_invalid : Fields → Bool
is_invalid f =
    ltb f.century 20
    || ltb 99 f.year
    || f.month == 0
    || ltb 12 f.month
    || f.date == 0
    || ltb 31 f.date
    || ltb 23 f.hour
    || ltb 59 f.minute
    || ltb 59 f.second

abbrev pub month_table : List ℕ
month_table = 0 ∷ 31 ∷ 59 ∷ 90 ∷ 120 ∷ 151 ∷ 181 ∷ 212 ∷ 243 ∷ 273 ∷ 304 ∷ 334 ∷ []

-- The `is_leap` that `update` computes.
pub code_leap : ℕ → Bool
code_leap year = if year % 100 == 0 then year % 4 == 0 else year % 400 == 0

-- `leap_count` before the month is looked at.
pub leaps_before : ℕ → ℕ
leaps_before year =
    let quads = (year - 1969) / 4 in
    let century_count = (year - 1) / 100 - 20 in
    if ltb 2100 year then quads - (century_count - century_count / 4) else quads

-- What follows the validation: the date is in range and the year 2000 or later.
pub posix_time : Fields → ℕ
posix_time f =
    let cur_year = f.century * 100 + f.year in
    let days_of_year = get_or month_table (f.month - 1) 0 + f.date - 1 in
    let leap = if ltb 2 f.month && code_leap cur_year then 1 else 0 in
    let total_days = (cur_year - 1970) * 365 + (leaps_before cur_year + leap) + days_of_year in
    total_days * 86400 + f.hour * 3600 + f.minute * 60 + f.second

-- `update`: the clock after it, and whether it called `timer.on_second`.
pub update : (ℕ → ℕ) → Rtc → Rtc × Bool
update cmos r =
    let second = convert r.mode (cmos 0) in
    let next = (r.time + 1) % 2 ^ 64 in
    let counted = if r.reload then r else record r { time = next } in
    let f = read_fields cmos r second in
    if has_bit 0x10 (cmos 0x0C)
    then (if r.reload || not (next % 4 == second % 4)
        then (if is_invalid f
            then (counted, false)
            else (record r { time = posix_time f; reload = false }, true))
        else (counted, true))
    else (r, false)
