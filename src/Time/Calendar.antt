-- ===== src/Time/Calendar.antt =====
-- Kernel/Source/Time/BcdToUnix.c: dates, seconds since 1970, and BCD digits.
--
-- The pointers to a DateTime are not NULL.
pub mod Months
pub mod Years
pub mod Stamps
mod Tests
use k_os.Prelude.{
  ℕ, zero, suc, ◌+◌, ◌-◌, ◌*◌, ◌/◌, ◌%◌, ◌^◌, bit_and, bit_or, Bool, not, ◌&&◌, ◌||◌, Option, none,
  some, List, [], ◌∷◌, ltb, leb, ◌==◌, if◌then◌else◌, get_or,
}

pub record DateTime : Type 0 where
  pub second : ℕ
  pub minute : ℕ
  pub hour : ℕ
  pub day : ℕ
  pub month : ℕ
  pub year : ℕ

-- `Bcd & 0x0F` and `Bcd >> 4` on a byte.
unfoldable pub bcd_to_bin : ℕ → ℕ
bcd_to_bin bcd = (bit_and bcd 0x0f + bcd / 16 * 10) % 2 ^ 8

unfoldable pub bin_to_bcd : ℕ → ℕ
bin_to_bcd bin = bit_or (bin / 10 * 16) (bin % 10) % 2 ^ 8

unfoldable pub is_leap : ℕ → Bool
is_leap year = year % 400 == 0 || (year % 4 == 0 && not (year % 100 == 0))

abbrev days_of_months : List ℕ
days_of_months = 31 ∷ 28 ∷ 31 ∷ 30 ∷ 31 ∷ 30 ∷ 31 ∷ 31 ∷ 30 ∷ 31 ∷ 30 ∷ 31 ∷ []

-- A month that is not 1 to 12 reads outside of the table; it counts as no days here.
unfoldable pub days_in_month : ℕ → ℕ → ℕ
days_in_month year month =
    if month == 2 && is_leap year then 29 else get_or days_of_months (month - 1) 0

abbrev pub days_in_year : ℕ → ℕ
days_in_year year = if is_leap year then 366 else 365

-- for (Y = 1970; Y < T->Year; Y++), with the number of rounds that are left.
unfoldable pub add_years : ℕ → ℕ → ℕ → ℕ
add_years zero y days = days
add_years (suc n) y days = add_years n (suc y) (days + days_in_year y)

-- for (M = 1; M < T->Month; M++)
unfoldable pub add_months : ℕ → ℕ → ℕ → ℕ → ℕ
add_months zero year m days = days
add_months (suc n) year m days = add_months n year (suc m) (days + days_in_month year m)

unfoldable pub time_to_unix : DateTime → ℕ
time_to_unix t =
    let days = add_months (t.month - 1) t.year 1 (add_years (t.year - 1970) 1970 0) + t.day - 1 in
    days * 86400 + t.hour * 3600 + t.minute * 60 + t.second

-- while (Days >= (IsLeap(Year) ? 366 : 365)): the year and the days that are left, on fuel.
unfoldable pub take_years : ℕ → ℕ → ℕ → ℕ × ℕ
take_years zero year days = (year, days)
take_years (suc fuel) year days =
    let rest = take_years fuel (suc year) (days - days_in_year year) in
    if leb (days_in_year year) days then rest else (year, days)

-- for (T->Month = 1; T->Month <= 12; T->Month++), with the number of rounds that are left: the month, and
-- the day unless the loop ends without one.
unfoldable pub take_months : ℕ → ℕ → ℕ → ℕ → ℕ × Option ℕ
take_months zero year month days = (month, none)
take_months (suc n) year month days =
    let rest = take_months n year (suc month) (days - days_in_month year month) in
    if ltb days (days_in_month year month) then (month, some (days + 1)) else rest

abbrev or_old : Option ℕ → ℕ → ℕ
or_old none old = old
or_old (some day) old = day

-- Every year has a day at least, so that as many rounds as there are days are enough. `old` is the day
-- that *T has before the call.
unfoldable pub unix_to_time : ℕ → ℕ → DateTime
unix_to_time ut old =
    let days = ut / 86400 % 2 ^ 32 in
    let rem = ut % 86400 in
    let (year, left) = take_years days 1970 days in
    let (month, day) = take_months 12 year 1 left in
    record {
      second = rem % 60;
      minute = rem % 3600 / 60;
      hour = rem / 3600;
      day = or_old day old;
      month = month;
      year = year;
    }
