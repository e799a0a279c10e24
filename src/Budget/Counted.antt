-- ===== src/Budget/Counted.antt =====
-- The period in which a budget is counted.
use multi_cloud_platform.Prelude.{
  ◌≤◌, ◌<◌, ◌≡◌, ◌≢◌, refl, ◌∙◌, true, false, Option, none, some, List, arith, min, max, Bool-cases,
  inl, inr,
}
use multi_cloud_platform.Calendar.{Date, last_year}
use multi_cloud_platform.Models.{
  PeriodType, monthly, quarterly, annual, custom, TeamBudget, is_custom,
}
use multi_cloud_platform.Budget.{
  effective_end, has_ended, in_progress, budget_state, cut, budget_period,
}
use multi_cloud_platform.Budget.Period.{calendar_period_holds}
use multi_cloud_platform.Budget.InProgress.{in_progress_bounds}

-- What the CHECK constraints on `team_budgets` say of a row.
pub record IsBudget (b : TeamBudget) : Type 0 where
  pub positive : 0 < b.limit_amount
  pub custom_end :
      is_custom b.period_type ≡ true → (e : Date) × (b.end_date ≡ some e) × (b.start_date < e)
  pub recurring_end : is_custom b.period_type ≡ false → b.end_date ≡ none

not_custom : (p : PeriodType) → is_custom p ≡ false → p ≢ custom
not_custom monthly e q = cc
not_custom quarterly e q = cc
not_custom annual e q = cc
not_custom custom e q = cc

-- No later than the end, where there is one.
abbrev pub UpTo : Date → Option Date → Type 0
UpTo e none = Unit
UpTo e (some x) = e ≤ x

cut_lem :
    (b : TeamBudget) (end : Option Date) (s e today : Date)
    → b.start_date ≤ today
    → has_ended end today ≡ false
    → s ≤ today
    → today < e
    → (s' e' : Date) × (cut b end (some (s, e)) ≡ some (s', e'))
      × (b.start_date ≤ s')
      × (s' ≤ today)
      × (today < e')
      × UpTo e' end
cut_lem b none s e today begun open_end h k =
    (max s b.start_date, e, refl, omega arith, omega arith, k, tt)
cut_lem b (some x) s e today begun open_end h k =
    let later : today < x = ground arith in
    (max s b.start_date, min e x, refl, omega arith, omega arith, omega arith, omega arith)

effective_end-custom :
    (b : TeamBudget) (chain : List TeamBudget)
    → is_custom b.period_type ≡ true
    → effective_end b chain ≡ b.end_date
unfolding effective_end
effective_end-custom b chain own = rw own

before_end : (e today : Date) → has_ended (some e) today ≡ false → today < e
before_end e today h = ground arith

-- Before year 9999, a budget in progress is counted in a period that holds the day, begins no earlier than the budget
-- and ends no later than its effect.
pub budget_period_holds :
    (b : TeamBudget) (chain : List TeamBudget) (today : Date)
    → IsBudget b
    → 1 ≤ today
    → today < last_year
    → budget_state b chain today ≡ in_progress
    → (s e : Date) × (budget_period b chain today ≡ some (s, e))
      × (b.start_date ≤ s)
      × (s ≤ today)
      × (today < e)
      × UpTo e (effective_end b chain)
unfolding budget_period
budget_period_holds b chain today valid h k now = elim (Bool-cases (is_custom b.period_type)) [
  | inl own ↦
      let (e, ends, _) = valid.custom_end own in
      let full = effective_end-custom b chain own ∙ ends in
      let (begun, open_end) = in_progress_bounds b chain today now in
      let open_e = rw full at open_end in
      simp (own, full, ends)
        (b.start_date, e, refl, omega arith, begun, before_end e today open_e, omega arith)
  | inr recurs ↦
      let (begun, open_end) = in_progress_bounds b chain today now in
      let (s, e, found, from, to) =
        calendar_period_holds b.period_type today (not_custom b.period_type recurs) h k in
      rw (recurs, now, found) (cut_lem b (effective_end b chain) s e today begun open_end from to)
]
