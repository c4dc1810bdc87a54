-- ===== src/Dev/Rtc/Decode.antt =====
-- How `update` decodes the registers: `convert` and the hour.
use cofuos.Prelude.{
  ℕ, ◌+◌, ◌*◌, ◌/◌, ◌%◌, ◌≤◌, ◌<◌, Bool, true, false, ◌≡◌, ◌==◌, not, if◌then◌else◌, arith,
}
use cofuos.Dev.Rtc.{has_bit, convert, decode_hour}

-- A value below 100 as its two decimal digits.
abbrev pub bcd : ℕ → ℕ
bcd v = v / 10 * 16 + v % 10

-- The register's form of a value, by the mode.
abbrev pub encoded : ℕ → ℕ → ℕ
encoded mode v = if has_bit 0x04 mode then v else bcd v

-- `convert` inverts the encoding that the mode selects.
pub convert-encoded : (mode v : ℕ) → v < 100 → convert mode (encoded mode v) ≡ v
unfolding convert
convert-encoded mode v h = ground arith

-- The hour that a 12-hour clock means by `h`, from 1 to 12, and its PM flag.
abbrev pub hour_of : ℕ → Bool → ℕ
hour_of h pm = h % 12 + (if pm then 12 else 0)

-- In 12-hour mode the hours from 1 to 11 are decoded rightly, and at 12 o'clock noon and midnight
-- are taken for one another: the hour is the one that the opposite flag would mean.
pub decode_hour_12 :
    (mode h : ℕ) (pm : Bool)
    → has_bit 0x02 mode ≡ false
    → 1 ≤ h
    → h ≤ 12
    → decode_hour mode (encoded mode h + (if pm then 128 else 0))
      ≡ hour_of h (if h == 12 then not pm else pm)
unfolding decode_hour convert
decode_hour_12 mode h pm m lo hi = ground arith

-- In 24-hour mode every hour is decoded rightly.
pub decode_hour_24 :
    (mode h : ℕ) → has_bit 0x02 mode ≡ true → h < 24 → decode_hour mode (encoded mode h) ≡ h
unfolding decode_hour convert
decode_hour_24 mode h m lt = ground arith
