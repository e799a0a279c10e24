-- ===== src/Calendar/Uniqueness.antt =====
-- The year and the month of a date are determined by the days between which it lies.
use multi_cloud_platform.Prelude.{ℕ, zero, suc, ◌+◌, ◌-◌, ◌≤◌, ◌<◌, ◌≡◌, refl, ap, arith}
use native.Mathlib.Nat.{add-zero}
use native.Mathlib.Decide.{dec_lt}
use multi_cloud_platform.Calendar.{
  Date, leap_day, days_before_year, days_before_month, date, year, day_of_year, month,
}
use multi_cloud_platform.Calendar.Fields.{
  days_before_year-suc, leap_day-le, year_lem, days_before_month-step, month_lem,
}

-- Of two years, the one with more days before it is the later one.
years_in_order : (y z : ℕ) → days_before_year y < days_before_year z → y < z
unfolding days_before_year
years_in_order y z h = omega arith

-- A day between two 1 Januaries lies in the first one's year.
pub year_unique :
    (n : Date) (y : ℕ) → 1 ≤ n → days_before_year y < n → n ≤ days_before_year (y + 1) → year n ≡ y
year_unique n y p q r =
    let (_, above, below) = year_lem n p in
    omega (
      arith,
      years_in_order y (year n + 1) (omega arith),
      years_in_order (year n) (y + 1) (omega arith),
    )

months_later : (l m k : ℕ) → l ≤ 1 → days_before_month l m ≤ days_before_month l (m + k)
months_later l m zero h = rw add-zero (omega arith)
months_later l m (suc k) h = omega (
  arith,
  months_later l m k h,
  days_before_month-step l (m + k) h,
  ap (days_before_month l) (shift m k),
)
  where
    shift : (m k : ℕ) → m + suc k ≡ m + k + 1
    shift m k = omega arith

pub days_before_month_mono :
    (l i j : ℕ) → l ≤ 1 → i ≤ j → days_before_month l i ≤ days_before_month l j
days_before_month_mono l i j h p =
    let e : i + (j - i) ≡ j = omega arith in
    omega (arith, months_later l i (j - i) h, ap (days_before_month l) e)

months_in_order : (l i j : ℕ) → l ≤ 1 → days_before_month l i < days_before_month l j → i < j
months_in_order l i j h p = elim (dec_lt i j) [
  | yes q ↦ q
  | no q ↦ absurd (omega (arith, days_before_month_mono l j i h (omega arith)))
]

-- The month of a day between the starts of two months lies between those months.
pub month_between :
    (n : Date) (a b : ℕ)
    → 1 ≤ n
    → days_before_month (leap_day (year n)) a < day_of_year n
    → day_of_year n ≤ days_before_month (leap_day (year n)) b
    → (a ≤ month n) × (month n < b)
month_between n a b p q r =
    let l = leap_day (year n) in
    let small = leap_day-le (year n) in
    let (_, _, above, below) = month_lem n p in
    let later = months_in_order l a (month n + 1) small (omega arith) in
    let before = months_in_order l (month n) b small (omega arith) in (omega arith, before)

month_before_year_end : (l m : ℕ) → l ≤ 1 → days_before_month l m ≤ 365 + l
unfolding days_before_month
month_before_year_end l m h = ground arith

month_pos : (l m : ℕ) → l ≤ 1 → 1 ≤ m → m ≤ 12 → days_before_month l m < days_before_month l (m + 1)
unfolding days_before_month
month_pos l m h p q = ground arith

-- The year and the month of a first day of a month.
pub year-first_day : (y m : ℕ) → 1 ≤ y → 1 ≤ m → m ≤ 12 → year (date y m 1) ≡ y
unfolding date
year-first_day y m h p q =
    let l = leap_day y in
    let small = leap_day-le y in
    year_unique (days_before_year y + days_before_month l m + 1) y (omega arith) (omega arith) (
      omega (
        arith,
        days_before_year-suc y h,
        month_pos l m small p q,
        month_before_year_end l (m + 1) small,
      ))

pub month-first_day : (y m : ℕ) → 1 ≤ y → 1 ≤ m → m ≤ 12 → month (date y m 1) ≡ m
month-first_day y m h p q =
    let n = date y m 1 in
    let same : year n ≡ y = year-first_day y m h p q in
    let e : n ≡ days_before_year y + days_before_month (leap_day y) m + 1 = unfold date in refl in
    let offset : day_of_year n ≡ days_before_month (leap_day y) m + 1 =
      unfold day_of_year in omega (arith, e, ap days_before_year same) in
    let leap : leap_day (year n) ≡ leap_day y = ap leap_day same in
    let long = month_pos (leap_day y) m (leap_day-le y) p q in
    let (low, high) =
      month_between n m (m + 1) (omega arith) (rw leap (omega arith)) (rw leap (omega arith)) in
    omega arith
