-- ===== src/Time/Calendar/Stamps.antt =====
-- TimeToUnix and UnixToTime are inverse, and so are BcdToBin and BinToBcd.
use k_os.Prelude.{
  ℕ, ◌+◌, ◌-◌, ◌*◌, ◌/◌, ◌%◌, ◌^◌, ◌≤◌, ◌<◌, ◌≡◌, refl, sym, subst, true, arith, ◌==◌, ==→eq,
}
use k_os.Prelude.Bits.{each_below, each_below-at}
use k_os.Time.Calendar.{
  DateTime, bcd_to_bin, bin_to_bcd, days_in_month, days_in_year, add_years, add_months,
  time_to_unix, take_years, unix_to_time,
}
use k_os.Time.Calendar.Years.{le-add_years, take_years-add_years, TakesYears, take_years-TakesYears}
use k_os.Time.Calendar.Months.{
  add_months-from, day_of_year, add_months-year, take_months-add_months, take_months-TakesMonths,
}

-- A date from 1970 on, whose month has the day.
pub record IsDate (t : DateTime) : Type 0 where
  pub second : t.second < 60
  pub minute : t.minute < 60
  pub hour : t.hour < 24
  pub day : (0 < t.day) × (t.day ≤ days_in_month t.year t.month)
  pub month : (0 < t.month) × (t.month ≤ 12)
  pub year : 1970 ≤ t.year

-- The whole days of a date since 1970.
abbrev pub day_number : DateTime → ℕ
day_number t =
    add_years (t.year - 1970) 1970 0 + (add_months (t.month - 1) t.year 1 0 + (t.day - 1))

time_to_unix-day_number :
    (t : DateTime)
    → 0 < t.day
    → time_to_unix t ≡ day_number t * 86400 + (t.hour * 3600 + t.minute * 60 + t.second)
unfolding time_to_unix
time_to_unix-day_number t pos =
    omega (arith, add_months-from (t.month - 1) t.year (add_years (t.year - 1970) 1970 0))

module _ (t : DateTime) (d : IsDate t) where
  day_of_year-lt : add_months (t.month - 1) t.year 1 0 + (t.day - 1) < days_in_year t.year
  day_of_year-lt =
      let month : 1 + (t.month - 1) ≡ t.month = omega (arith, d.month) in
      subst (λ n. add_months (t.month - 1) t.year 1 0 + (t.day - 1) < n) (add_months-year t.year)
        (day_of_year (t.month - 1) 12 t.year 1 (t.day - 1) (omega (arith, d.month))
          (rw month (omega (arith, d.day))))

  -- UnixToTime gives back every date from 1970 on whose day number fits 32 bits.
  pub unix_to_time-time_to_unix :
      day_number t < 2 ^ 32 → (old : ℕ) → unix_to_time (time_to_unix t) old ≡ t
  unfolding unix_to_time
  unix_to_time-time_to_unix small old =
      let stamp = time_to_unix-day_number t d.day.0 in
      let clock : t.hour * 3600 + t.minute * 60 + t.second < 86400 =
        omega (arith, d.hour, d.minute, d.second) in
      let days : time_to_unix t / 86400 % 2 ^ 32 ≡ day_number t = omega (arith, stamp) in
      let rem : time_to_unix t % 86400 ≡ t.hour * 3600 + t.minute * 60 + t.second =
        omega (arith, stamp) in
      let year : 1970 + (t.year - 1970) ≡ t.year = omega (arith, d.year) in
      let month : 1 + (t.month - 1) ≡ t.month = omega (arith, d.month) in
      let day : t.day - 1 + 1 ≡ t.day = omega (arith, d.day) in
      let years =
        take_years-add_years (t.year - 1970) (day_number t) 1970
          (add_months (t.month - 1) t.year 1 0 + (t.day - 1))
          (omega (arith, le-add_years (t.year - 1970) 1970)) (rw year day_of_year-lt) in
      let months =
        take_months-add_months (t.month - 1) 12 t.year 1 (t.day - 1) (omega (arith, d.month))
          (rw month (omega (arith, d.day))) in
      let second : (t.hour * 3600 + t.minute * 60 + t.second) % 60 ≡ t.second =
        omega (arith, d.second) in
      let minute : (t.hour * 3600 + t.minute * 60 + t.second) % 3600 / 60 ≡ t.minute =
        omega (arith, d.second, d.minute) in
      let hour : (t.hour * 3600 + t.minute * 60 + t.second) / 3600 ≡ t.hour =
        omega (arith, d.second, d.minute) in
      rw (days, rem, years, year, months, second, minute, hour, month, day) refl

-- The date that UnixToTime gives for a number of seconds is a date, and TimeToUnix gives back the
-- seconds, where the number of days fits 32 bits.
pub time_to_unix-unix_to_time :
    (ut old : ℕ)
    → ut / 86400 < 2 ^ 32
    → IsDate (unix_to_time ut old) × (time_to_unix (unix_to_time ut old) ≡ ut)
unfolding unix_to_time
time_to_unix-unix_to_time ut old small =
    let days : ut / 86400 % 2 ^ 32 ≡ ut / 86400 = omega arith in
    let r = take_years (ut / 86400) 1970 (ut / 86400) in
    let ty : TakesYears 1970 (ut / 86400) r = take_years-TakesYears _ 1970 _ (omega arith) in
    let tm =
      take_months-TakesMonths 12 r.0 1 r.1
        (subst (λ n. r.1 < n) (sym (add_months-year r.0)) ty.short) in
    let date : DateTime = record {
      second = ut % 86400 % 60;
      minute = ut % 86400 % 3600 / 60;
      hour = ut % 86400 / 3600;
      day = tm.left + 1;
      month = 1 + tm.count;
      year = r.0;
    } in
    let month : 1 + tm.count - 1 ≡ tm.count = omega arith in
    let number : day_number date ≡ ut / 86400 = rw month (omega (arith, ty.sum, tm.sum)) in
    let is_date : IsDate date = record {
      second = omega arith;
      minute = omega arith;
      hour = omega arith;
      day = (omega arith, omega (arith, tm.short));
      month = (omega arith, omega (arith, tm.within));
      year = ty.later;
    } in
    rw (days, tm.found) (is_date, omega (arith, time_to_unix-day_number date (omega arith), number))

bcd_table : each_below 100 (λ n. bcd_to_bin (bin_to_bcd n) == n) ≡ true
unfolding each_below bcd_to_bin bin_to_bcd
bcd_table = refl

-- BcdToBin gives back every number of two digits that BinToBcd has coded.
pub bcd_to_bin-bin_to_bcd : (n : ℕ) → n < 100 → bcd_to_bin (bin_to_bcd n) ≡ n
bcd_to_bin-bin_to_bcd n h =
    ==→eq _ _ (each_below-at 100 (λ n. bcd_to_bin (bin_to_bcd n) == n) n h bcd_table)
