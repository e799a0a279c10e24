-- ===== src/Budget/Period.antt =====
-- The bounds of `calendar_period`, in the days and the months of the year.
use multi_cloud_platform.Prelude.{
  ℕ, ◌+◌, ◌-◌, ◌*◌, ◌/◌, ◌%◌, ◌≤◌, ◌<◌, ◌≡◌, ◌≢◌, refl, ap, ◌∙◌, true, some, arith, leb,
}
use native.Mathlib.Decide.{dec_lt}
use multi_cloud_platform.Calendar.{
  Date, leap_day, days_before_year, days_before_month, date, year, month, max_date, last_year,
  constructed,
}
use multi_cloud_platform.Calendar.Fields.{
  days_before_year-suc, leap_day-le, year_lem, day_of_year_lem, month_lem,
}
use multi_cloud_platform.Calendar.Uniqueness.{
  days_before_month_mono, year-first_day, month-first_day,
}
use multi_cloud_platform.Models.{PeriodType, monthly, quarterly, annual, custom}
use multi_cloud_platform.Budget.{add_months, until, calendar_period}

-- The first month of the period that holds month `m`, and the month after the period.
abbrev pub first_month : PeriodType → ℕ → ℕ
first_month monthly m = m
first_month quarterly m = (m - 1) / 3 * 3 + 1
first_month annual m = 1
first_month custom m = m

abbrev pub end_month : PeriodType → ℕ → ℕ
end_month monthly m = m + 1
end_month quarterly m = (m - 1) / 3 * 3 + 4
end_month annual m = 13
end_month custom m = m + 1

pub end_month-le : (p : PeriodType) (m : ℕ) → m ≤ 12 → end_month p m ≤ 13
end_month-le monthly m h = omega arith
end_month-le quarterly m h = omega arith
end_month-le annual m h = omega arith
end_month-le custom m h = omega arith

-- The first day of month `m` of year `y`, where month 13 is January of the next year.
abbrev pub month_start : ℕ → ℕ → Date
month_start y m = days_before_year y + days_before_month (leap_day y) m + 1

date_start : (y m : ℕ) → date y m 1 ≡ month_start y m
unfolding date
date_start y m = refl

january : (y : ℕ) → date y 1 1 ≡ days_before_year y + 1
unfolding date days_before_month
january y = omega arith

december_end : (l : ℕ) → days_before_month l 13 ≡ 365 + l
unfolding days_before_month
december_end l = refl

next_january : (y : ℕ) → 1 ≤ y → date (y + 1) 1 1 ≡ month_start y 13
next_january y h =
    omega (arith, january (y + 1), days_before_year-suc y h, december_end (leap_day y))

add_months_lem :
    (y a k : ℕ)
    → 1 ≤ y
    → 1 ≤ a
    → a ≤ 12
    → a + k ≤ 13
    → add_months (date y a 1) k ≡ constructed (month_start y (a + k))
unfolding add_months
add_months_lem y a k h p q r =
    rw (year-first_day y a h p q, month-first_day y a h p q)
      (elim (dec_lt (a + k) 13) [
        | yes same_year ↦
            let e₁ : y + (a - 1 + k) / 12 ≡ y = omega arith in
            let e₂ : (a - 1 + k) % 12 + 1 ≡ a + k = omega arith in
            rw (e₁, e₂) (ap constructed (date_start y (a + k)))
        | no next_year ↦
            let e₀ : a + k ≡ 13 = omega arith in
            let e₁ : y + (a - 1 + k) / 12 ≡ y + 1 = omega arith in
            let e₂ : (a - 1 + k) % 12 + 1 ≡ 1 = omega arith in
            rw (e₁, e₂, e₀) (ap constructed (next_january y h))
      ])

-- The period of a day goes from the start of its first month to the start of the month after it.
pub calendar_period_months :
    (p : PeriodType) (on : Date)
    → p ≢ custom
    → 1 ≤ on
    → calendar_period p on
      ≡ until
          (month_start (year on) (first_month p (month on)))
          (constructed (month_start (year on) (end_month p (month on))))
unfolding calendar_period
calendar_period_months monthly on h q =
    let (year_pos, _, _) = year_lem on q in
    let (low, high, _, _) = month_lem on q in
    rw (
      add_months_lem (year on) (month on) 1 year_pos low high (omega arith),
      date_start (year on) (month on),
    )
calendar_period_months quarterly on h q =
    let (year_pos, _, _) = year_lem on q in
    let (low, high, _, _) = month_lem on q in
    let first = (month on - 1) / 3 * 3 + 1 in
    let e : first + 3 ≡ (month on - 1) / 3 * 3 + 4 = omega arith in
    rw (
      add_months_lem (year on) first 3 year_pos (omega arith) (omega arith) (omega arith),
      date_start (year on) first,
      e,
    )
calendar_period_months annual on h q =
    rw (date_start (year on) 1, next_january (year on) (year_lem on q).0)
calendar_period_months custom on h q = absurd (h refl)

-- The month lies in its period.
pub month_in_period :
    (p : PeriodType) (m : ℕ)
    → 1 ≤ m
    → m ≤ 12
    → (1 ≤ first_month p m) × (first_month p m ≤ m) × (m + 1 ≤ end_month p m)
month_in_period monthly m h k = omega arith
month_in_period quarterly m h k = omega arith
month_in_period annual m h k = omega arith
month_in_period custom m h k = omega arith

-- The day lies in [start, end) of its period.
pub in_month_range :
    (on : Date) (a b : ℕ)
    → 1 ≤ on
    → a ≤ month on
    → month on + 1 ≤ b
    → (month_start (year on) a ≤ on) × (on < month_start (year on) b)
in_month_range on a b h p q =
    let l = leap_day (year on) in
    let small = leap_day-le (year on) in
    let (_, _, above, below) = month_lem on h in
    let (_, _, total) = day_of_year_lem on h in
    omega (
      arith,
      days_before_month_mono l a (month on) small p,
      days_before_month_mono l (month on + 1) b small q,
    )

-- Before the last year, the years begin before it too.
year_bound : (on : Date) → 1 ≤ on → on < last_year → year on < 9999
unfolding days_before_year
year_bound on h k = let (_, low, _) = year_lem on h in omega (arith, low)

year_end-le : (y : ℕ) → 1 ≤ y → y < 9999 → month_start y 13 ≤ max_date
unfolding days_before_year days_before_month
year_end-le y h k = omega (arith, leap_day-le y)

in_range : (s d : Date) → d ≤ max_date → until s (constructed d) ≡ some (s, d)
in_range s d h = let fits : leb d max_date ≡ true = ground arith in rw fits refl

-- Every calendar period, of a type that has one, holds the day that it is asked for, before year 9999.
pub calendar_period_holds :
    (p : PeriodType) (on : Date)
    → p ≢ custom
    → 1 ≤ on
    → on < last_year
    → (start end : Date) × (calendar_period p on ≡ some (start, end)) × (start ≤ on) × (on < end)
calendar_period_holds p on h q k =
    let (low, high, _, _) = month_lem on q in
    let (_, first, last) = month_in_period p (month on) low high in
    let (from, to) =
      in_month_range on (first_month p (month on)) (end_month p (month on)) q first last in
    let (year_pos, _, _) = year_lem on q in
    let whole = year_end-le (year on) year_pos (year_bound on q k) in
    let before =
      days_before_month_mono (leap_day (year on)) (end_month p (month on)) 13
        (leap_day-le (year on)) (end_month-le p (month on) high) in
    (
      month_start (year on) (first_month p (month on)),
      month_start (year on) (end_month p (month on)),
      calendar_period_months p on h q
          ∙ in_range (month_start (year on) (first_month p (month on)))
              (month_start (year on) (end_month p (month on))) (omega arith),
      from,
      to,
    )
