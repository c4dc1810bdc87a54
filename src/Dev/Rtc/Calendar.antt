-- ===== src/Dev/Rtc/Calendar.antt =====
-- `update` against the Gregorian calendar, written out year by year and month by month.
use cofuos.Prelude.{
  ℕ, zero, suc, ◌+◌, ◌-◌, ◌*◌, ◌%◌, ◌≤◌, ◌<◌, Bool, true, false, ◌≡◌, refl, get_or, ltb, leb, ◌==◌,
  not, ◌&&◌, ◌||◌, if◌then◌else◌, arith,
}
use cofuos.Dev.Rtc.{Fields, month_table, code_leap, leaps_before, posix_time, is_invalid}

abbrev pub gregorian_leap : ℕ → Bool
gregorian_leap y = (y % 4 == 0) && (not (y % 100 == 0) || (y % 400 == 0))

-- The days from 1970-01-01 to the first of January, `n` years later.
pub days_of_years : ℕ → ℕ
days_of_years zero = 0
days_of_years (suc n) = days_of_years n + (if gregorian_leap (1970 + n) then 366 else 365)

abbrev pub month_length : Bool → ℕ → ℕ
month_length leap m =
    if m == 2
    then (if leap then 29 else 28)
    else if (m == 4) || (m == 6) || (m == 9) || (m == 11)
    then 30
    else 31

-- The days of the months before month `m + 1`.
pub days_of_months : Bool → ℕ → ℕ
days_of_months leap zero = 0
days_of_months leap (suc m) = days_of_months leap m + month_length leap (suc m)

-- The POSIX time of a date and time of day.
pub civil_time : Fields → ℕ
civil_time f =
    let y = f.century * 100 + f.year in
    (days_of_years (y - 1970) + days_of_months (gregorian_leap y) (f.month - 1) + (f.date - 1))
      * 86400
    + f.hour * 3600
    + f.minute * 60
    + f.second

leaps_before-suc :
    (y : ℕ) → 2000 ≤ y → leaps_before (y + 1) ≡ leaps_before y + (if gregorian_leap y then 1 else 0)
unfolding leaps_before
leaps_before-suc y h = ground arith

days_of_years-suc :
    (n : ℕ)
    → days_of_years (suc n) ≡ days_of_years n + (if gregorian_leap (1970 + n) then 366 else 365)
unfolding days_of_years
days_of_years-suc n = refl

days_of_years-2000 : days_of_years 30 ≡ 30 * 365 + leaps_before 2000
unfolding days_of_years leaps_before
days_of_years-2000 = refl

-- The closed form of `update` counts the days of the whole years since 1970.
days_of_years-closed :
    (n m y : ℕ) → m ≡ 30 + n → y ≡ 2000 + n → days_of_years m ≡ m * 365 + leaps_before y
days_of_years-closed zero m y e d =
    let e' : m ≡ 30 = omega arith in
    let d' : y ≡ 2000 = omega arith in rw (e', d') days_of_years-2000
days_of_years-closed (suc n) m y e d =
    let e' : m ≡ suc (30 + n) = omega arith in
    let d' : y ≡ 2000 + n + 1 = omega arith in
    let p : 1970 + (30 + n) ≡ 2000 + n = omega arith in
    rw (e', d')
      (ground (
        arith,
        days_of_years-suc (30 + n),
        p,
        leaps_before-suc (2000 + n) (omega arith),
        days_of_years-closed n (30 + n) (2000 + n) refl refl,
      ))

-- The table holds the days before each month of a common year.
table :
    (leap : Bool) (m : ℕ)
    → m < 12
    → days_of_months leap m ≡ get_or month_table m 0 + (if leb 2 m && leap then 1 else 0)
unfolding days_of_months
table true zero h = refl
table false zero h = refl
table true (suc zero) h = refl
table false (suc zero) h = refl
table true (suc (suc zero)) h = refl
table false (suc (suc zero)) h = refl
table true (suc (suc (suc zero))) h = refl
table false (suc (suc (suc zero))) h = refl
table true (suc (suc (suc (suc zero)))) h = refl
table false (suc (suc (suc (suc zero)))) h = refl
table true (suc (suc (suc (suc (suc zero))))) h = refl
table false (suc (suc (suc (suc (suc zero))))) h = refl
table true (suc (suc (suc (suc (suc (suc zero)))))) h = refl
table false (suc (suc (suc (suc (suc (suc zero)))))) h = refl
table true (suc (suc (suc (suc (suc (suc (suc zero))))))) h = refl
table false (suc (suc (suc (suc (suc (suc (suc zero))))))) h = refl
table true (suc (suc (suc (suc (suc (suc (suc (suc zero)))))))) h = refl
table false (suc (suc (suc (suc (suc (suc (suc (suc zero)))))))) h = refl
table true (suc (suc (suc (suc (suc (suc (suc (suc (suc zero))))))))) h = refl
table false (suc (suc (suc (suc (suc (suc (suc (suc (suc zero))))))))) h = refl
table true (suc (suc (suc (suc (suc (suc (suc (suc (suc (suc zero)))))))))) h = refl
table false (suc (suc (suc (suc (suc (suc (suc (suc (suc (suc zero)))))))))) h = refl
table true (suc (suc (suc (suc (suc (suc (suc (suc (suc (suc (suc zero))))))))))) h = refl
table false (suc (suc (suc (suc (suc (suc (suc (suc (suc (suc (suc zero))))))))))) h = refl
table leap (suc (suc (suc (suc (suc (suc (suc (suc (suc (suc (suc (suc m)))))))))))) h =
    absurd (omega arith)

code_leap-century : (y : ℕ) → code_leap y ≡ (y % 100 == 0)
unfolding code_leap
code_leap-century y = ground arith

record InRange (f : Fields) : Type 0 where
  century : 20 ≤ f.century
  month_low : 1 ≤ f.month
  month : f.month ≤ 12
  date : 1 ≤ f.date

is_invalid-InRange : (f : Fields) → is_invalid f ≡ false → InRange f
unfolding is_invalid
is_invalid-InRange f v = ground arith

-- The same with the leap tests abstract: `g` for the calendar's, `c` for the code's.
abbrev bonus : Bool → ℕ
bonus b = if b then 86400 else 0

day_sums :
    (g c : Bool) (month date years months entry rest : ℕ)
    → 1 ≤ date
    → months ≡ entry + (if leb 2 (month - 1) && g then 1 else 0)
    → (years + (if ltb 2 month && c then 1 else 0) + (entry + date - 1)) * 86400
        + rest
        + bonus (ltb 2 month && g)
      ≡ (years + months + (date - 1)) * 86400 + rest + bonus (ltb 2 month && c)
day_sums g c month date years months entry rest h e = ground arith

-- For a date that `update` accepts, its POSIX time is the calendar's, but for its leap day: after
-- February it adds a day in the years that are multiples of 100, and in no other, where the
-- calendar adds one in its leap years.
pub posix_time_lem :
    (f : Fields)
    → is_invalid f ≡ false
    → let y = f.century * 100 + f.year in
      posix_time f + (if ltb 2 f.month && gregorian_leap y then 86400 else 0)
      ≡ civil_time f + (if ltb 2 f.month && (y % 100 == 0) then 86400 else 0)
unfolding posix_time civil_time
posix_time_lem f v =
    rw (code_leap-century y, years)
      (omega (
        arith,
        day_sums (gregorian_leap y) (y % 100 == 0) f.month f.date
            ((y - 1970) * 365 + leaps_before y) (days_of_months (gregorian_leap y) (f.month - 1))
            (get_or month_table (f.month - 1) 0) (f.hour * 3600 + f.minute * 60 + f.second) r.date
            months,
      ))
  where
    y : ℕ
    y = f.century * 100 + f.year

    r : InRange f
    r = is_invalid-InRange f v

    years : days_of_years (y - 1970) ≡ (y - 1970) * 365 + leaps_before y
    years = days_of_years-closed (y - 2000) (y - 1970) y (omega (arith, r)) (omega (arith, r))

    months :
        days_of_months (gregorian_leap y) (f.month - 1)
        ≡ get_or month_table (f.month - 1) 0
          + (if leb 2 (f.month - 1) && gregorian_leap y then 1 else 0)
    months = table (gregorian_leap y) (f.month - 1) (omega (arith, r))
