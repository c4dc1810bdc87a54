-- ===== src/Dev/Rtc/Resync.antt =====
-- What the clock reads after an update-ended interrupt.
use cofuos.Prelude.{ℕ, ◌+◌, ◌*◌, ◌%◌, ◌^◌, Bool, true, false, ◌≡◌, ltb, ◌==◌, not, ◌&&◌, arith}
use cofuos.Dev.Rtc.{Rtc, has_bit, convert, read_fields, is_invalid, posix_time, update}
use cofuos.Dev.Rtc.Calendar.{gregorian_leap, civil_time, posix_time_lem}

-- The clock stands one second before the register, by its two low bits, and need not be reloaded.
abbrev pub in_step : (ℕ → ℕ) → Rtc → Bool
in_step cmos r = not r.reload && ((r.time + 1) % 2 ^ 64 % 4 == convert r.mode (cmos 0) % 4)

-- After an update-ended interrupt that finds the clock out of step and a date in range, the clock
-- reads the calendar's POSIX time of the registers, wants no reload, and has told the timer: for
-- dates up to February, and for years in which the code and the calendar agree on the leap day.
pub update-civil_time :
    (cmos : ℕ → ℕ) (r : Rtc)
    → has_bit 0x10 (cmos 0x0C) ≡ true
    → in_step cmos r ≡ false
    → is_invalid (read_fields cmos r (convert r.mode (cmos 0))) ≡ false
    → (let f = read_fields cmos r (convert r.mode (cmos 0)) in
        let y = f.century * 100 + f.year in
        (ltb 2 f.month && gregorian_leap y) ≡ (ltb 2 f.month && (y % 100 == 0)))
    → let (r', heard) = update cmos r in
      (r'.time ≡ civil_time (read_fields cmos r (convert r.mode (cmos 0))))
      × (r'.reload ≡ false)
      × (heard ≡ true)
unfolding update
update-civil_time cmos r flag away fine leap = ground (arith, time)
  where
    time :
        posix_time (read_fields cmos r (convert r.mode (cmos 0)))
        ≡ civil_time (read_fields cmos r (convert r.mode (cmos 0)))
    time =
        let e = posix_time_lem (read_fields cmos r (convert r.mode (cmos 0))) fine in
        omega (arith, rw leap at e)
