-- ===== src/Time/Calendar/Tests.antt =====
-- Dates around the end of a leap year's February.
use k_os.Prelude.{◌≡◌, refl, arith}
use k_os.Time.Calendar.{
  DateTime, is_leap, days_in_month, add_years, add_months, time_to_unix, take_years, take_months,
  unix_to_time,
}
use k_os.Time.Calendar.Stamps.{IsDate, time_to_unix-unix_to_time}

abbrev leap_day : DateTime
leap_day = record { second = 56; minute = 34; hour = 12; day = 29; month = 2; year = 1972 }

leap_day-IsDate : IsDate leap_day
unfolding days_in_month is_leap
leap_day-IsDate = record {
  second = omega arith;
  minute = omega arith;
  hour = omega arith;
  day = (omega arith, omega arith);
  month = (omega arith, omega arith);
  year = omega arith;
}

leap_day_stamp : time_to_unix leap_day ≡ 68214896
unfolding time_to_unix add_years add_months days_in_month is_leap
leap_day_stamp = refl

day_after :
    unix_to_time 68256000 0
    ≡ (record { second = 0; minute = 0; hour = 0; day = 1; month = 3; year = 1972 })
unfolding unix_to_time take_years take_months days_in_month is_leap
day_after = refl

time_to_unix-unix_to_time_example :
    IsDate (unix_to_time 68256000 0) × (time_to_unix (unix_to_time 68256000 0) ≡ 68256000)
time_to_unix-unix_to_time_example = time_to_unix-unix_to_time 68256000 0 (omega arith)
