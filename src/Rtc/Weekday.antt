-- ===== src/Rtc/Weekday.antt =====
-- The day of the week of src/rtc.c against the calendar, counted in days from the first of January
-- 2000, a Saturday.
use clubcos.Semaphore.{try_enter, post}
use clubcos.Rtc.{
  Rtc, RtcDate, first_months, decoded, is_leap, adjusted_months, day_of_week, read_date,
}
use mathlib.Core.Path.{subst}
use clubcos.Prelude.{
  ℕ, zero, suc, ◌+◌, ◌-◌, ◌*◌, ◌/◌, ◌%◌, ◌<◌, ◌≡◌, refl, ap, ◌∙◌, Bool, true, ◌||◌, some, List,
  arith, ◌==◌, if◌then◌else◌, ==_iff, get_or, all_below, all_below_sound,
}

-- The days of the years from 2000 to `2000 + y`, the last one not included.
unfoldable pub days_before_year : ℕ → ℕ
unfolding is_leap
days_before_year zero = 0
days_before_year (suc y) = days_before_year y + (if is_leap (2000 + y) then 366 else 365)

-- The days of the month with `m` months before it.
unfoldable pub month_days : ℕ → ℕ → ℕ
unfolding is_leap
month_days year m =
    if m == 1
    then if is_leap year then 29 else 28
    else if (m == 3) || (m == 5) || (m == 8) || (m == 10)
    then 30
    else 31

unfoldable pub days_before_month : ℕ → ℕ → ℕ
days_before_month year zero = 0
days_before_month year (suc m) = days_before_month year m + month_days year m

-- Sunday is 1, Saturday is 7.
unfoldable pub weekday : ℕ → ℕ → ℕ → ℕ
unfolding days_before_year days_before_month month_days
weekday y m day = (5 + (days_before_year y + days_before_month (2000 + y) (m - 1)) + day) % 7 + 1

-- What stands in the formula besides the day.
abbrev month_formula : ℕ → ℕ → ℕ
unfolding adjusted_months
month_formula y m = get_or (adjusted_months (2000 + y) first_months) m 0 + y + y / 4 + 6

abbrev month_test : ℕ → Bool
unfolding days_before_year days_before_month month_formula
month_test i =
    let y : ℕ = i / 12 in
    let m : ℕ = i % 12 in
    month_formula y m % 7 == (5 + (days_before_year y + days_before_month (2000 + y) m)) % 7

month_tests : all_below 1200 month_test ≡ true
unfolding all_below month_test month_formula adjusted_months is_leap days_before_year
    days_before_month month_days
month_tests = refl

month-agrees :
    (y m : ℕ)
    → y < 100
    → m < 12
    → month_formula y m % 7 ≡ (5 + (days_before_year y + days_before_month (2000 + y) m)) % 7
unfolding month_test
month-agrees y m lt in_year =
    let row : (y * 12 + m) / 12 ≡ y = omega (arith, in_year) in
    let column : (y * 12 + m) % 12 ≡ m = omega (arith, in_year) in
    let test =
      all_below_sound 1200 month_test (y * 12 + m) month_tests (omega (arith, lt, in_year)) in
    let at =
      (==_iff (month_formula ((y * 12 + m) / 12) ((y * 12 + m) % 12) % 7) (
          (5
            + (days_before_year ((y * 12 + m) / 12)
                + days_before_month (2000 + (y * 12 + m) / 12) ((y * 12 + m) % 12)))
          % 7)).0
        test in
    subst
      (λ a. month_formula a m % 7 ≡ (5 + (days_before_year a + days_before_month (2000 + a) m)) % 7)
      row
      (subst
        (λ b.
          month_formula ((y * 12 + m) / 12) b % 7
          ≡ (5
              + (days_before_year ((y * 12 + m) / 12)
                  + days_before_month (2000 + (y * 12 + m) / 12) b))
            % 7)
        column at)

add-mod : (a b d : ℕ) → a % 7 ≡ b % 7 → (d + a) % 7 ≡ (b + d) % 7
add-mod a b d h = omega (arith, h)

day_of_week-formula :
    (y m day : ℕ) (table : List ℕ)
    → y < 100
    → day_of_week (2000 + y) m day table ≡ (day + get_or table (m - 1) 0 + y + y / 4 + 6) % 7 + 1
unfolding day_of_week
day_of_week-formula y m day table lt =
    let century : (2000 + y) % 100 ≡ y = omega (arith, lt) in
    let number : y / 100 % 4 ≡ 0 = omega (arith, lt) in rw (century, number) refl

day_of_week-weekday :
    (y m day : ℕ)
    → y < 100
    → 0 < m
    → m < 13
    → day_of_week (2000 + y) m day (adjusted_months (2000 + y) first_months) ≡ weekday y m day
unfolding weekday month_formula
day_of_week-weekday y m day lt first last =
    let table = adjusted_months (2000 + y) first_months in
    let entry : ℕ = get_or table (m - 1) 0 in
    let total : day + entry + y + y / 4 + 6 ≡ day + month_formula y (m - 1) = omega arith in
    let agrees = month-agrees y (m - 1) lt (omega (arith, last)) in
    let days : ℕ = days_before_year y + days_before_month (2000 + y) (m - 1) in
    day_of_week-formula y m day table lt
    ∙ ap (λ q. q % 7 + 1) total
    ∙ ap (λ q. q + 1) (add-mod (month_formula y (m - 1)) (5 + days) day agrees)

-- With the semaphore of the clock free and the table of months as it is at the start, whether the
-- registers are in BCD or not: for a date in the years 2000 to 2099 the first reading of it gives
-- its year, month and day, and the day of the week that counting the days of the calendar from
-- 2000 gives, and leaves the semaphore free.
pub read_date-weekday :
    (cmos : ℕ → ℕ) (r : Rtc) (y m day : ℕ)
    → r.mutex.flag ≡ 0
    → r.months_table ≡ first_months
    → decoded r (cmos 9) ≡ y
    → decoded r (cmos 8) ≡ m
    → decoded r (cmos 7) ≡ day
    → y < 100
    → 0 < m
    → m < 13
    → (date : RtcDate) × (r' : Rtc) × (read_date cmos r ≡ some (date, r'))
      × (date.year ≡ 2000 + y)
      × (date.month ≡ m)
      × (date.dayofmonth ≡ day)
      × (date.dayofweek ≡ weekday y m day)
      × (r'.mutex.flag ≡ 0)
unfolding read_date try_enter post
read_date-weekday cmos r y m day free fresh year month dayofmonth lt first last =
    let y' = decoded r (cmos 9) in
    let m' = decoded r (cmos 8) in
    let day' = decoded r (cmos 7) in
    let table : ℕ → List ℕ → List ℕ = λ a t. adjusted_months (2000 + a) t in
    (
      record {
        year = 2000 + y';
        month = m';
        dayofmonth = day';
        dayofweek = day_of_week (2000 + y') m' day' (table y' r.months_table);
      },
      record r { mutex = record { flag = 0 }; months_table = table y' r.months_table },
      rw free refl,
      ap (λ a. 2000 + a) year,
      month,
      dayofmonth,
      ap (λ t. day_of_week (2000 + y') m' day' (table y' t)) fresh
          ∙ ap (λ a. day_of_week (2000 + a) m' day' (table a first_months)) year
          ∙ ap (λ a. day_of_week (2000 + y) a day' (table y first_months)) month
          ∙ ap (λ a. day_of_week (2000 + y) m a (table y first_months)) dayofmonth
          ∙ day_of_week-weekday y m day lt first last,
      refl,
    )
