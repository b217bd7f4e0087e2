-- ===== src/Time/Calendar/Months.antt =====
-- The loops over the months of a year.
use k_os.Prelude.{
  ℕ, zero, suc, ◌+◌, ◌-◌, ◌<◌, ◌≡◌, refl, sym, inl, inr, false, Option, some, arith, ltb, ltb→lt,
  ltb→le, lt→ltb, le→ltb, Bool-cases,
}
use k_os.Time.Calendar.{is_leap, days_in_year, days_in_month, add_months, take_months}

add_months-suc : (n year m days : ℕ) → add_months n year m days ≡ add_months n year m 0 + days
unfolding add_months
add_months-suc zero year m days = omega arith
add_months-suc (suc n) year m days = omega (
  arith,
  add_months-suc n year (suc m) (days + days_in_month year m),
  add_months-suc n year (suc m) (0 + days_in_month year m),
)

add_months-step :
    (n year m : ℕ)
    → add_months (suc n) year m 0 ≡ days_in_month year m + add_months n year (suc m) 0
unfolding add_months
add_months-step n year m = omega (arith, add_months-suc n year (suc m) (0 + days_in_month year m))

add_months-base : (n year m left : ℕ) → n ≡ 0 → add_months n year m 0 + left ≡ left
unfolding add_months
add_months-base n year m left e = rw e (omega arith)

pub add_months-from : (n year days : ℕ) → add_months n year 1 days ≡ add_months n year 1 0 + days
add_months-from n year days = add_months-suc n year 1 days

-- Twelve months are a year.
pub add_months-year : (year : ℕ) → add_months 12 year 1 0 ≡ days_in_year year
unfolding add_months days_in_month
add_months-year year = elim (Bool-cases (is_leap year)) [ inl y ↦ rw y refl | inr n ↦ rw n refl ]

-- The n months that were added are taken off again, where the days that are left are less than a month.
pub take_months-add_months :
    (n rounds year m left : ℕ)
    → n < rounds
    → left < days_in_month year (m + n)
    → take_months rounds year m (add_months n year m 0 + left) ≡ (m + n, some (left + 1))
unfolding take_months
take_months-add_months n zero year m left le lt = absurd (omega arith)
take_months-add_months zero (suc rounds) year m left le lt =
    let here : add_months 0 year m 0 + left ≡ left = add_months-base 0 year m left refl in
    let month : m + 0 ≡ m = omega arith in
    let lt' : left < days_in_month year m = rw month at lt in
    rw (here, month, lt→ltb left (days_in_month year m) lt') refl
take_months-add_months (suc n) (suc rounds) year m left le lt =
    let month : m + suc n ≡ suc m + n = omega arith in
    let lt' : left < days_in_month year (suc m + n) = rw month at lt in
    let ih = take_months-add_months n rounds year (suc m) left (omega arith) lt' in
    let less : add_months (suc n) year m 0 + left - days_in_month year m
        ≡ add_months n year (suc m) 0 + left =
      omega (arith, add_months-step n year m) in
    let enough : ltb (add_months (suc n) year m 0 + left) (days_in_month year m) ≡ false =
      le→ltb _ _ (omega (arith, add_months-step n year m)) in
    rw (enough, less, month) ih

-- Where the days are fewer than those of the months that are left, a day of one of them is found.
pub record TakesMonths (year m rounds days : ℕ) (r : ℕ × Option ℕ) : Type 0 where
  pub count : ℕ
  pub left : ℕ
  pub within : count < rounds
  pub short : left < days_in_month year (m + count)
  pub sum : days ≡ add_months count year m 0 + left
  pub found : r ≡ (m + count, some (left + 1))

pub take_months-TakesMonths :
    (rounds year m days : ℕ)
    → days < add_months rounds year m 0
    → TakesMonths year m rounds days (take_months rounds year m days)
unfolding take_months
take_months-TakesMonths zero year m days lt =
    absurd (omega (arith, add_months-base 0 year m 0 refl))
take_months-TakesMonths (suc rounds) year m days lt =
    elim (Bool-cases (ltb days (days_in_month year m))) [
      | inl y ↦
          let month : m + 0 ≡ m = omega arith in
          let here = ltb→lt _ _ y in
          rw y (record {
            count = 0;
            left = days;
            within = omega arith;
            short = rw month here;
            sum = sym (add_months-base 0 year m days refl);
            found = rw month refl;
          })
      | inr n ↦
          let ge = ltb→le _ _ n in
          let ih =
            take_months-TakesMonths rounds year (suc m) (days - days_in_month year m)
              (omega (arith, add_months-step rounds year m)) in
          let month : m + suc ih.count ≡ suc m + ih.count = omega arith in
          rw n (record {
            count = suc ih.count;
            left = ih.left;
            within = omega (arith, ih.within);
            short = rw month ih.short;
            sum = omega (arith, add_months-step ih.count year m, ih.sum);
            found = rw month ih.found;
          })
    ]

-- The days of the months before one, and some of that one, are less than the days of all.
pub day_of_year :
    (n k year m left : ℕ)
    → n < k
    → left < days_in_month year (m + n)
    → add_months n year m 0 + left < add_months k year m 0
day_of_year n zero year m left lt short = absurd (omega arith)
day_of_year zero (suc k) year m left lt short =
    let month : m + 0 ≡ m = omega arith in
    let short' : left < days_in_month year m = rw month at short in
    omega (arith, add_months-base 0 year m left refl, add_months-step k year m)
day_of_year (suc n) (suc k) year m left lt short =
    let month : m + suc n ≡ suc m + n = omega arith in
    let short' : left < days_in_month year (suc m + n) = rw month at short in
    omega (
      arith,
      add_months-step n year m,
      add_months-step k year m,
      day_of_year n k year (suc m) left (omega arith) short',
    )
