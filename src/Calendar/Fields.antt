-- ===== src/Calendar/Fields.antt =====
-- The fields of a date are the ones that `date` is built from.
use multi_cloud_platform.Prelude.{ℕ, zero, suc, ◌+◌, ◌-◌, ◌*◌, ◌/◌, ◌≤◌, ◌<◌, ◌≡◌, ap, arith}
use native.Mathlib.Nat.{add-zero}
use multi_cloud_platform.Calendar.{
  Date, leap_day, days_before_year, days_before_month, date, year_from, year, day_of_year,
  month_of_day, month, day,
}

-- A year is 365 days, and one more if it is a leap year.
pub days_before_year-suc :
    (y : ℕ) → 1 ≤ y → days_before_year (y + 1) ≡ days_before_year y + 365 + leap_day y
unfolding days_before_year
days_before_year-suc y h = ground arith

pub leap_day-le : (y : ℕ) → leap_day y ≤ 1
leap_day-le y = ground arith

pub days_before_year-ge : (y : ℕ) → (y - 1) * 365 ≤ days_before_year y
unfolding days_before_year
days_before_year-ge y = omega arith

days_before_year-le : (y : ℕ) → days_before_year y ≤ (y - 1) * 366
unfolding days_before_year
days_before_year-le y = omega arith

add_shift : (y fuel : ℕ) → y + suc fuel ≡ y + 1 + fuel
add_shift y fuel = omega arith

-- The search ends at the year that holds the day, if it begins before it and has the fuel.
year_from_lem :
    (fuel y : ℕ) (n : Date)
    → 1 ≤ y
    → days_before_year y < n
    → n ≤ days_before_year (y + fuel)
    → let r = year_from fuel y n in
      (1 ≤ r) × (days_before_year r < n) × (n ≤ days_before_year (r + 1))
unfolding year_from
year_from_lem zero y n p q h = absurd (omega (arith, ap days_before_year (add-zero y)))
year_from_lem (suc fuel) y n p q h =
    ground (arith, year_from_lem fuel (y + 1) n, ap days_before_year (add_shift y fuel))

-- The year of a day is the one whose days hold it.
pub year_lem :
    (n : Date)
    → 1 ≤ n
    → (1 ≤ year n) × (days_before_year (year n) < n) × (n ≤ days_before_year (year n + 1))
unfolding year
year_lem n h =
    year_from_lem n ((n - 1) / 366 + 1) n (omega arith)
      (omega (arith, days_before_year-le ((n - 1) / 366 + 1)))
      (omega (arith, days_before_year-ge ((n - 1) / 366 + 1 + n)))

-- Day `k` of a year lies in the month found, and the months are those from 1 to 12.
pub month_of_day_lem :
    (l k : ℕ)
    → l ≤ 1
    → 1 ≤ k
    → k ≤ 365 + l
    → let m = month_of_day l k in
      (1 ≤ m) × (m ≤ 12) × (days_before_month l m < k) × (k ≤ days_before_month l (m + 1))
unfolding month_of_day days_before_month
month_of_day_lem l k hl h1 h2 = ground arith

pub day_of_year_lem :
    (n : Date)
    → 1 ≤ n
    → (1 ≤ day_of_year n)
      × (day_of_year n ≤ 365 + leap_day (year n))
      × (days_before_year (year n) + day_of_year n ≡ n)
unfolding day_of_year
day_of_year_lem n h = omega (arith, year_lem n h, days_before_year-suc (year n) (year_lem n h).0)

pub days_before_month-step : (l m : ℕ) → l ≤ 1 → days_before_month l m ≤ days_before_month l (m + 1)
unfolding days_before_month
days_before_month-step l m h = ground arith

month_length : (l m : ℕ) → l ≤ 1 → days_before_month l (m + 1) ≤ days_before_month l m + 31
unfolding days_before_month
month_length l m h = ground arith

-- The month of a day is the one whose days hold it.
pub month_lem :
    (n : Date)
    → 1 ≤ n
    → let l = leap_day (year n) in
      (1 ≤ month n)
      × (month n ≤ 12)
      × (days_before_month l (month n) < day_of_year n)
      × (day_of_year n ≤ days_before_month l (month n + 1))
unfolding month
month_lem n h =
    let (low, high, _) = day_of_year_lem n h in
    month_of_day_lem (leap_day (year n)) (day_of_year n) (leap_day-le (year n)) low high

-- The month and the day of a date are in range, and building a date from its year, month and day
-- gives it back.
pub date_fields :
    (n : Date)
    → 1 ≤ n
    → (1 ≤ month n)
      × (month n ≤ 12)
      × (1 ≤ day n)
      × (day n ≤ 31)
      × (date (year n) (month n) (day n) ≡ n)
unfolding day date
date_fields n h =
    let (low, high, above, below) = month_lem n h in
    let (_, _, total) = day_of_year_lem n h in
    let short = month_length (leap_day (year n)) (month n) (leap_day-le (year n)) in
    (low, high, omega arith, omega arith, omega arith)
