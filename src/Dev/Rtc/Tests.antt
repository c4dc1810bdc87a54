-- ===== src/Dev/Rtc/Tests.antt =====
-- Witnesses and tests.
use cofuos.Prelude.{ℕ, ◌+◌, ◌≡◌, ◌==◌, refl, true, if◌then◌else◌}
use cofuos.Dev.Rtc.{Rtc, Fields, posix_time, is_invalid}
use cofuos.Dev.Rtc.Calendar.{civil_time, posix_time_lem}

-- 1 March 2024, 12:30:15.
abbrev leap_march : Fields
leap_march = record {
  century = 20;
  year = 24;
  month = 3;
  date = 1;
  hour = 12;
  minute = 30;
  second = 15;
}

posix_time_lem_example : posix_time leap_march + 86400 ≡ civil_time leap_march + 0
unfolding is_invalid
posix_time_lem_example = posix_time_lem leap_march refl

-- The registers of 15 February 2024, 08:09:10, in binary, after an update has ended.
abbrev registers : ℕ → ℕ
registers i =
    if i == 0x0C
    then 0x10
    else if i == 9
    then 24
    else if i == 8
    then 2
    else if i == 7
    then 15
    else if i == 4
    then 8
    else if i == 2
    then 9
    else if i == 0
    then 10
    else 0

abbrev fresh : Rtc
fresh = record { mode = 6; century_index = 0; reload = true; time = 0 }
