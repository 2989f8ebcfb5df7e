-- ===== src/Rtc/Tests.antt =====
-- Runs of the clock of src/rtc.c, and the theorem about it at an input of its own.
use clubcos.Rtc.{
  Rtc, RtcDate, first_months, decoded_hour, read_date, is_leap, adjusted_months, day_of_week,
}
use clubcos.Rtc.Weekday.{weekday, read_date-weekday}
use clubcos.Prelude.{ℕ, ◌≡◌, refl, true, some, arith, ◌==◌, if◌then◌else◌}

abbrev bcd_clock : Rtc
bcd_clock = record {
  mutex = record { flag = 0 };
  is_bcd = true;
  is_12hour = true;
  months_table = first_months;
}

-- The 29th of February 2024, in BCD.
abbrev leap_day : ℕ → ℕ
leap_day q = if q == 9 then 36 else if q == 8 then 2 else if q == 7 then 41 else 0

read_date-weekday_example :
    (date : RtcDate) × (r' : Rtc) × (read_date leap_day bcd_clock ≡ some (date, r'))
    × (date.year ≡ 2024)
    × (date.month ≡ 2)
    × (date.dayofmonth ≡ 29)
    × (date.dayofweek ≡ weekday 24 2 29)
    × (r'.mutex.flag ≡ 0)
read_date-weekday_example =
    read_date-weekday leap_day bcd_clock 24 2 29 refl refl refl refl refl (omega arith)
      (omega arith) (omega arith)

-- The first of January 2025 was a Wednesday, 4; read behind a date of 2024 it is a Tuesday.
new_year :
    (day_of_week 2025 1 1 (adjusted_months 2025 first_months) ≡ 4)
    × (day_of_week 2025 1 1 (adjusted_months 2025 (adjusted_months 2024 first_months)) ≡ 3)
unfolding day_of_week adjusted_months is_leap
new_year = (refl, refl)

-- Noon, `12` with the bit of the afternoon, is read as hour 24, and midnight as 0.
noon :
    (decoded_hour bcd_clock 146 ≡ 24)
    × (decoded_hour bcd_clock 18 ≡ 0)
    × (decoded_hour bcd_clock 129 ≡ 13)
unfolding decoded_hour
noon = (refl, refl, refl)
