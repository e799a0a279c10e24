-- ===== src/Calendar.antt =====
-- Python's `datetime.date`, as its proleptic Gregorian ordinal (1 January of year 1 is day 1), so
-- that `<`, `- timedelta(days=n)` and `(a - b).days` are those of numbers. `year`, `month` and `day`
-- recover the fields. `datetime` stops at year 9999: `constructed` is the check.
pub mod Fields
pub mod Uniqueness
use multi_cloud_platform.Prelude.{
  ℕ, zero, suc, ◌+◌, ◌-◌, ◌*◌, ◌/◌, ◌%◌, Bool, true, false, not, ◌&&◌, ◌||◌, Option, none, some,
  leb, ◌==◌, if◌then◌else◌,
}

abbrev pub Date : Type 0
Date = ℕ

abbrev pub is_leap : ℕ → Bool
is_leap y = y % 4 == 0 && (not (y % 100 == 0) || y % 400 == 0)

abbrev pub leap_day : ℕ → ℕ
leap_day y = if is_leap y then 1 else 0

-- The days before 1 January of year `y`.
unfoldable pub days_before_year : ℕ → ℕ
days_before_year y = (y - 1) * 365 + (y - 1) / 4 - (y - 1) / 100 + (y - 1) / 400

-- The days of the year before month `m`, where `l` is 1 in a leap year.
unfoldable pub days_before_month : ℕ → ℕ → ℕ
days_before_month l m =
    if leb m 1
    then 0
    else if m == 2
    then 31
    else if m == 3
    then 59 + l
    else if m == 4
    then 90 + l
    else if m == 5
    then 120 + l
    else if m == 6
    then 151 + l
    else if m == 7
    then 181 + l
    else if m == 8
    then 212 + l
    else if m == 9
    then 243 + l
    else if m == 10
    then 273 + l
    else if m == 11
    then 304 + l
    else if m == 12
    then 334 + l
    else 365 + l

-- `date(y, m, d)`
unfoldable pub date : ℕ → ℕ → ℕ → Date
date y m d = days_before_year y + days_before_month (leap_day y) m + d

-- 31 December 9999, `date.max`.
abbrev pub max_date : Date
max_date = 3652059

-- 1 January 9999.
abbrev pub last_year : Date
last_year = 3651695

-- A day, as `date` returns it; none is the `ValueError` of a year past 9999.
abbrev pub constructed : Date → Option Date
constructed d = if leb d max_date then some d else none

-- The last year `y`, from the one given on, whose 1 January is not after day `n`.
unfoldable pub year_from : ℕ → ℕ → Date → ℕ
year_from zero y n = y
year_from (suc fuel) y n =
    let later = year_from fuel (y + 1) n in if leb n (days_before_year (y + 1)) then y else later

-- A year has 366 days at most, so the search begins at or before the year sought.
unfoldable pub year : Date → ℕ
year n = year_from n ((n - 1) / 366 + 1) n

unfoldable pub day_of_year : Date → ℕ
day_of_year n = n - days_before_year (year n)

-- The month that holds day `k` of the year.
unfoldable pub month_of_day : ℕ → ℕ → ℕ
month_of_day l k =
    if leb k 31
    then 1
    else if leb k (59 + l)
    then 2
    else if leb k (90 + l)
    then 3
    else if leb k (120 + l)
    then 4
    else if leb k (151 + l)
    then 5
    else if leb k (181 + l)
    then 6
    else if leb k (212 + l)
    then 7
    else if leb k (243 + l)
    then 8
    else if leb k (273 + l)
    then 9
    else if leb k (304 + l)
    then 10
    else if leb k (334 + l)
    then 11
    else 12

unfoldable pub month : Date → ℕ
month n = month_of_day (leap_day (year n)) (day_of_year n)

unfoldable pub day : Date → ℕ
day n = day_of_year n - days_before_month (leap_day (year n)) (month n)
