-- ===== src/Rtc.antt =====
-- The clock of src/rtc.c and src/rtc.h. The registers of the clock are a parameter `cmos`; `none` is
-- a call that waits for the semaphore of the clock.
pub mod Weekday
mod Tests
use clubcos.Semaphore.{BiSem, try_enter, post}
use clubcos.Semaphore as Semaphores
use clubcos.Prelude.{
  ℕ, zero, suc, ◌+◌, ◌-◌, ◌*◌, ◌/◌, ◌%◌, ◌^◌, ◌≤◌, ◌<◌, ◌≡◌, refl, sym, ap, ◌∙◌, ◌≢◌, ◌↔◌, ◌⊎◌, inl,
  inr, Bool, true, false, not, ◌&&◌, ◌||◌, Option, none, some, List, [], ◌∷◌, ◌++◌, map, arith, ltb,
  leb, ◌==◌, if◌then◌else◌, ltb→lt, lt→ltb, leb→le, ==_iff, tests, Bool-cases, Option-cases, length,
  get_elem?, set, get_or, take, drop, replicate, length-append, length-set, get_elem?-set_self,
  get_elem?-set_ne, take-append-drop, length-take, length-drop, length-replicate, length-map,
  get_or-set_self, get_or-set_ne, u8_mod, u16_mod, u32_mod, add32, sub32, Store, upd, has, Distinct,
  has-append, Distinct-snoc, Distinct-drop, Distinct-remove, has_same, Distinct-gone, all_below,
  all_below_sound, lt→ne, ne→false, sub16,
}

-- `months_table` is the static MonthsTable of `ckRTCReadDate`.
pub record Rtc : Type 0 where
  pub mutex : BiSem
  pub is_bcd : Bool
  pub is_12hour : Bool
  pub months_table : List ℕ

pub record RtcTime : Type 0 where
  pub hour : ℕ
  pub minute : ℕ
  pub second : ℕ

pub record RtcDate : Type 0 where
  pub year : ℕ
  pub month : ℕ
  pub dayofmonth : ℕ
  pub dayofweek : ℕ

abbrev pub bcd8_to_binary : ℕ → ℕ
bcd8_to_binary b = (b / 16 * 10 + b % 16) % 2 ^ 8

abbrev pub first_months : List ℕ
first_months = 0 ∷ 3 ∷ 3 ∷ 6 ∷ 1 ∷ 4 ∷ 6 ∷ 2 ∷ 5 ∷ 0 ∷ 3 ∷ 5 ∷ []

abbrev century_num_table : List ℕ
century_num_table = 6 ∷ 4 ∷ 2 ∷ 0 ∷ []

unfoldable pub initialize : (ℕ → ℕ) → Rtc → Rtc
unfolding Semaphores.init
initialize cmos r = record r {
  mutex = (Semaphores.init 0 r.mutex).1;
  is_bcd = cmos 11 / 4 % 2 == 0;
  is_12hour = cmos 11 / 2 % 2 == 0;
}

-- A register as the clock's mode has it.
abbrev pub decoded : Rtc → ℕ → ℕ
decoded r b = if r.is_bcd then bcd8_to_binary b else b

unfoldable pub decoded_hour : Rtc → ℕ → ℕ
decoded_hour r b =
    let hour = decoded r (b % 128) in
    if leb 128 b then (hour + 12) % 2 ^ 8 else if r.is_12hour && (hour == 12) then 0 else hour

unfoldable pub read_time : (ℕ → ℕ) → Rtc → Option (RtcTime × Rtc)
unfolding decoded_hour try_enter post
read_time cmos r =
    let b = (try_enter r.mutex).1 in
    let time : RtcTime = record {
      hour = decoded_hour r (cmos 4);
      minute = decoded r (cmos 2);
      second = decoded r (cmos 0);
    } in
    if (try_enter r.mutex).0 then some (time, record r { mutex = (post b).1 }) else none

unfoldable pub is_leap : ℕ → Bool
is_leap year = (year % 4 == 0) && not (year % 100 == 0) || (year % 400 == 0)

-- The table for a year: the entries of a leap year are written into it, and stay.
unfoldable pub adjusted_months : ℕ → List ℕ → List ℕ
unfolding is_leap
adjusted_months year table = if is_leap year then set (set table 0 6) 1 2 else table

unfoldable pub day_of_week : ℕ → ℕ → ℕ → List ℕ → ℕ
day_of_week year month day table =
    let y : ℕ = year % 100 in
    let formula =
      day + get_or table (month - 1) 0 + y + y / 4 + get_or century_num_table (y / 100 % 4) 0 in
    formula % 7 + 1

unfoldable pub read_date : (ℕ → ℕ) → Rtc → Option (RtcDate × Rtc)
unfolding adjusted_months day_of_week try_enter post
read_date cmos r =
    let b = (try_enter r.mutex).1 in
    let year : ℕ = 2000 + decoded r (cmos 9) in
    let month = decoded r (cmos 8) in
    let day = decoded r (cmos 7) in
    let table = adjusted_months year r.months_table in
    let date : RtcDate = record {
      year = year;
      month = month;
      dayofmonth = day;
      dayofweek = day_of_week year month day table;
    } in
    if (try_enter r.mutex).0
    then some (date, record r { mutex = (post b).1; months_table = table })
    else none
