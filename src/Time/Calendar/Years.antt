-- ===== src/Time/Calendar/Years.antt =====
-- The loops over years: adding up n years and taking them off again are inverse.
use k_os.Prelude.{
  ℕ, zero, suc, ◌+◌, ◌-◌, ◌≤◌, ◌<◌, ◌≡◌, refl, sym, inl, inr, true, arith, leb, leb→le, leb→lt,
  lt→leb, le→leb, Bool-cases,
}
use k_os.Time.Calendar.{days_in_year, add_years, take_years}

add_years-suc : (n y days : ℕ) → add_years n y days ≡ add_years n y 0 + days
unfolding add_years
add_years-suc zero y days = omega arith
add_years-suc (suc n) y days = omega (
  arith,
  add_years-suc n (suc y) (days + days_in_year y),
  add_years-suc n (suc y) (0 + days_in_year y),
)

add_years-base : (n y left : ℕ) → n ≡ 0 → add_years n y 0 + left ≡ left
unfolding add_years
add_years-base n y left e = rw e (omega arith)

add_years-step : (n y : ℕ) → add_years (suc n) y 0 ≡ days_in_year y + add_years n (suc y) 0
unfolding add_years
add_years-step n y = omega (arith, add_years-suc n (suc y) (0 + days_in_year y))

days_in_year_pos : (y : ℕ) → 365 ≤ days_in_year y
days_in_year_pos y = ground arith

-- There are at least as many days as years.
pub le-add_years : (n y : ℕ) → n ≤ add_years n y 0
unfolding add_years
le-add_years zero y = omega arith
le-add_years (suc n) y =
    omega (arith, add_years-step n y, le-add_years n (suc y), days_in_year_pos y)

-- The n years that were added are taken off again, where the days that are left are less than a year.
pub take_years-add_years :
    (n fuel y left : ℕ)
    → n ≤ fuel
    → left < days_in_year (y + n)
    → take_years fuel y (add_years n y 0 + left) ≡ (y + n, left)
unfolding take_years
take_years-add_years zero zero y left le lt =
    let here : add_years 0 y 0 + left ≡ left = add_years-base 0 y left refl in
    let year : y + 0 ≡ y = omega arith in rw (here, year) refl
take_years-add_years zero (suc fuel) y left le lt =
    let here : add_years 0 y 0 + left ≡ left = add_years-base 0 y left refl in
    let year : y + 0 ≡ y = omega arith in
    let lt' : left < days_in_year y = rw year at lt in
    rw (here, year, lt→leb (days_in_year y) left lt') refl
take_years-add_years (suc n) zero y left le lt = absurd (omega arith)
take_years-add_years (suc n) (suc fuel) y left le lt =
    let year : y + suc n ≡ suc y + n = omega arith in
    let lt' : left < days_in_year (suc y + n) = rw year at lt in
    let ih = take_years-add_years n fuel (suc y) left (omega arith) lt' in
    let less : add_years (suc n) y 0 + left - days_in_year y ≡ add_years n (suc y) 0 + left =
      omega (arith, add_years-step n y) in
    let enough : leb (days_in_year y) (add_years (suc n) y 0 + left) ≡ true =
      le→leb _ _ (omega (arith, add_years-step n y)) in
    rw (enough, less, year) ih

-- Where there are at least as many rounds as days, the loop ends with less than a year left.
pub record TakesYears (y days : ℕ) (r : ℕ × ℕ) : Type 0 where
  pub later : y ≤ r.0
  pub short : r.1 < days_in_year r.0
  pub sum : days ≡ add_years (r.0 - y) y 0 + r.1

pub take_years-TakesYears :
    (fuel y days : ℕ) → days ≤ fuel → TakesYears y days (take_years fuel y days)
unfolding take_years
take_years-TakesYears zero y days le = record {
  later = omega arith;
  short = omega (arith, days_in_year_pos y);
  sum = sym (add_years-base (y - y) y days (omega arith));
}
take_years-TakesYears (suc fuel) y days le = elim (Bool-cases (leb (days_in_year y) days)) [
  | inr n ↦ rw n (record {
    later = omega arith;
    short = leb→lt _ _ n;
    sum = sym (add_years-base (y - y) y days (omega arith));
  })
  | inl enough ↦
      let ge : days_in_year y ≤ days = leb→le _ _ enough in
      let ih =
        take_years-TakesYears fuel (suc y) (days - days_in_year y)
          (omega (arith, days_in_year_pos y)) in
      rw enough (record {
        later = omega (arith, ih.later);
        short = ih.short;
        sum = one_more _ (omega (arith, ih.later)) ih.sum ge;
      })
]
  where
    one_more :
        (r : ℕ × ℕ)
        → suc y ≤ r.0
        → days - days_in_year y ≡ add_years (r.0 - suc y) (suc y) 0 + r.1
        → days_in_year y ≤ days
        → days ≡ add_years (r.0 - y) y 0 + r.1
    one_more r later sum ge =
        let n : r.0 - y ≡ suc (r.0 - suc y) = omega arith in
        rw n (omega (arith, add_years-step (r.0 - suc y) y))
