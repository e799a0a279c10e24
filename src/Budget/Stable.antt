-- ===== src/Budget/Stable.antt =====
-- A calendar period is the same from each of its days.
use multi_cloud_platform.Prelude.{
  ℕ, ◌+◌, ◌≤◌, ◌<◌, ◌≡◌, ◌≢◌, ◌↔◌, refl, ap, some, inl, inr, leb, Bool-cases, arith, ◌∙◌, sym,
}
use mathlib.Core.Option.{some-injective}
use multi_cloud_platform.Calendar.{
  Date, leap_day, days_before_year, days_before_month, year, month, last_year, constructed,
  max_date,
}
use multi_cloud_platform.Calendar.Fields.{
  days_before_year-suc, leap_day-le, year_lem, day_of_year_lem, month_lem,
}
use multi_cloud_platform.Calendar.Uniqueness.{year_unique, month_between, days_before_month_mono}
use multi_cloud_platform.Models.{PeriodType, monthly, quarterly, annual, custom}
use multi_cloud_platform.Budget.{until, calendar_period}
use multi_cloud_platform.Budget.Period.{
  first_month, end_month, end_month-le, month_start, month_in_period, in_month_range,
  calendar_period_months, calendar_period_holds,
}

first_month_same :
    (p : PeriodType) (m k : ℕ)
    → 1 ≤ m
    → m ≤ 12
    → first_month p m ≤ k
    → k < end_month p m
    → (first_month p k ≡ first_month p m) × (end_month p k ≡ end_month p m)
first_month_same monthly m k h l p q = omega arith
first_month_same quarterly m k h l p q = omega arith
first_month_same annual m k h l p q = omega arith
first_month_same custom m k h l p q = omega arith

december_end : (l : ℕ) → days_before_month l 13 ≡ 365 + l
unfolding days_before_month
december_end l = refl

-- A day between two month starts of a year lies in that year, and in one of those months.
between_months :
    (d y a b : ℕ)
    → 1 ≤ y
    → b ≤ 13
    → month_start y a ≤ d
    → d < month_start y b
    → (year d ≡ y) × (a ≤ month d) × (month d < b)
between_months d y a b h k p q =
    let l = leap_day y in
    let same : year d ≡ y = year_unique d y (omega arith) (omega arith) (
      omega (
        arith,
        days_before_year-suc y h,
        days_before_month_mono l b 13 (leap_day-le y) k,
        december_end l,
      )) in
    let leap : leap_day (year d) ≡ l = ap leap_day same in
    let (_, _, total) = day_of_year_lem d (omega arith) in
    let before : days_before_year (year d) ≡ days_before_year y = ap days_before_year same in
    let (low, high) =
      month_between d a b (omega arith) (rw leap (omega arith)) (rw leap (omega arith)) in
    (same, low, high)

pub has_calendar :
    (p : PeriodType) (on : Date) {r : Date × Date} → calendar_period p on ≡ some r → p ≢ custom
unfolding calendar_period
has_calendar monthly on e = λ q. cc
has_calendar quarterly on e = λ q. cc
has_calendar annual on e = λ q. cc
has_calendar custom on e = cc

until-some :
    (s e : Date) {start end : Date}
    → until s (constructed e) ≡ some (start, end)
    → (s ≡ start) × (e ≡ end)
until-some s e h = elim (Bool-cases (leb e max_date)) [
  | inl fits ↦
      let bounds = some-injective _ _ (rw fits at h) in
      (ap (λ (x : Date × Date). x.0) bounds, ap (λ (x : Date × Date). x.1) bounds)
  | inr past ↦ cc (rw past at h)
]

-- A period that is given holds the day that it is given for.
calendar_period-holds_day :
    (p : PeriodType) (on : Date) {start end : Date}
    → 1 ≤ on
    → calendar_period p on ≡ some (start, end)
    → (start ≤ on) × (on < end)
calendar_period-holds_day p on h e =
    let (from, to) =
      until-some _ _ (sym (calendar_period_months p on (has_calendar p on e) h) ∙ e) in
    let (low, high, _, _) = month_lem on h in
    let (_, first, last) = month_in_period p (month on) low high in
    let (begun, left) =
      in_month_range on (first_month p (month on)) (end_month p (month on)) h first last in
    omega arith

-- Two days in one calendar period have that same period.
calendar_period_stable :
    (p : PeriodType) (on d : Date) {start end : Date}
    → 1 ≤ on
    → calendar_period p on ≡ some (start, end)
    → start ≤ d
    → d < end
    → calendar_period p d ≡ some (start, end)
calendar_period_stable p on d h e low high =
    let known = has_calendar p on e in
    let y = year on in
    let m = month on in
    let same_period = sym (calendar_period_months p on known h) ∙ e in
    let (start_eq, end_eq) = until-some _ _ same_period in
    let (year_pos, _, _) = year_lem on h in
    let (m_pos, m_le, _, _) = month_lem on h in
    let (same_year, from, to) =
      between_months d y (first_month p m) (end_month p m) year_pos (end_month-le p m m_le)
        (omega arith) (omega arith) in
    let (same_first, same_end) = first_month_same p m (month d) m_pos m_le from to in
    rw (calendar_period_months p d known (omega arith), same_year, same_first, same_end) same_period

-- A day before year 9999 lies in its calendar period, of a type that has one, and the days of that
-- period are exactly the days that have that same period.
pub calendar_period_partition :
    (p : PeriodType) (on d : Date)
    → p ≢ custom
    → 1 ≤ on
    → on < last_year
    → 1 ≤ d
    → (start end : Date) × (calendar_period p on ≡ some (start, end))
      × (start ≤ on)
      × (on < end)
      × (((start ≤ d) × (d < end)) ↔ (calendar_period p d ≡ some (start, end)))
calendar_period_partition p on d known h k at =
    let (start, end, e, from, to) = calendar_period_holds p on known h k in
    (
      start,
      end,
      e,
      from,
      to,
      (
        λ i. calendar_period_stable p on d h e i.0 i.1,
        λ same. calendar_period-holds_day p d at same,
      ),
    )
