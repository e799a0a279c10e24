-- ===== src/Scenarios/Budgets.antt =====
-- Instances for the calendar, the coverage and the budgets.
use multi_cloud_platform.Prelude.{
  ◌+◌, ◌≤◌, ◌<◌, ◌≡◌, ◌↔◌, ◌⊎◌, refl, inl, true, false, not, ◌&&◌, Option, none, some, List, [],
  ◌∷◌, arith, elem, ◌*◌, ◌≢◌, String, length, ◌-◌,
}
use multi_cloud_platform.Prelude.Int.{pos, ◌+ℤ◌}
use multi_cloud_platform.Prelude.Sort.{In, sort_by, max_by, min_by}
use multi_cloud_platform.Prelude.Dict.{lookup}
use multi_cloud_platform.Prelude.Rounding.{round_ℤ, round_half_even}
use multi_cloud_platform.Calendar.{
  Date, date, year, month, day, year_from, days_before_year, days_before_month, day_of_year,
  month_of_day,
}
use multi_cloud_platform.Models.{monthly, TeamBudget, is_custom}
use multi_cloud_platform.Adapters.{
  is_cost_supported, has_credential, team_accounts, account_currency,
}
use multi_cloud_platform.Coverage
use multi_cloud_platform.Coverage.{
  complete_range, resolve_basis, provider_of, row_days, saved_runs, cover_days, apply_runs,
  set_defaults, day_basis_map, covered_days, analysis_ready_days, missing_from,
}
use multi_cloud_platform.Coverage.Days.{day_basis, latest_covering, day_basis_map_lem, within}
use multi_cloud_platform.Coverage.Missing.{missing_days_exact, resolve_basis_narrow}
use multi_cloud_platform.Coverage.Ready.{every_day_ready}
use multi_cloud_platform.Budget.Stable.{calendar_period_partition}
use multi_cloud_platform.Budget.Chain.{DistinctStarts}
use multi_cloud_platform.Budget.InProgress.{in_progress_unique, in_progress_exists}
use multi_cloud_platform.Budget.Select.{budget_rank, select_status_budget-least}
use multi_cloud_platform.Budget.Counted.{IsBudget, UpTo, budget_period_holds}
use multi_cloud_platform.Budget.Status.Reasons.{
  IsDecided, compute_budget_status-IsDecided, compute_budget_status-ne-none,
}
use multi_cloud_platform.Budget.Status.Confirmed.{IsConfirmed, computable-IsConfirmed}
use multi_cloud_platform.Budget.{
  in_progress, is_upcoming, add_months, calendar_period, team_budgets, recurring_chain,
  effective_end, budget_state, budget_period, select_status_budget,
}
use multi_cloud_platform.Budget.Status.{
  BudgetStatus, BudgetInfo, missing_days_for_account, analysis_ready_for_account, counted_rows,
  sum_usage, scale_ℤ, ratio_pct, unconfirmed, exclusion, excluded_of, included_of, thresholds_of,
  conclude, usage_of, has_mismatch, judge, judge_in, answer_for, compute_budget_status,
}
use multi_cloud_platform.Budget.Status.Thresholds.{thresholds_crossed}
use multi_cloud_platform.Scenarios.{sep_1, sep_10, sep_20, oct_1, team, yearly, later, db}

leap_day_2024 : (year 738945 ≡ 2024) × (month 738945 ≡ 2) × (day 738945 ≡ 29)
unfolding year month day year_from days_before_year days_before_month day_of_year month_of_day
leap_day_2024 = (refl, refl, refl)

september : calendar_period monthly sep_20 ≡ some (sep_1, oct_1)
unfolding calendar_period add_months date year month day year_from days_before_year
    days_before_month day_of_year month_of_day
september = refl

abbrev pub shown : BudgetInfo
shown = record {
  id = 1;
  period_type = monthly;
  limit_amount = 100_000_000;
  currency = "USD";
  period_start = sep_1;
  period_end = oct_1;
  period_state = in_progress;
  basis_date = sep_20;
}

-- 79.95 of 100 dollars: the ratio is 80.0%, and the first threshold is crossed.
abbrev pub answer : BudgetStatus
answer = record {
  budget = some shown;
  usage =
      some (record { amount = pos 79_950_000; net_amount = pos 79_950_000; is_estimated = false });
  ratio_pct = some (pos 800);
  thresholds =
      record { percent = 80; crossed = true; notified = false }
      ∷ record { percent = 100; crossed = false; notified = false }
      ∷ [];
  excluded_accounts = [];
  computable = true;
  reason_code = none;
}

pub answer_lem : compute_budget_status db team sep_20 none ≡ some answer
unfolding compute_budget_status answer_for judge_in judge select_status_budget team_budgets
    recurring_chain budget_state effective_end budget_period calendar_period add_months date year
    month day year_from days_before_year days_before_month day_of_year month_of_day sort_by max_by
    min_by unconfirmed missing_days_for_account analysis_ready_for_account counted_rows sum_usage
    scale_ℤ ratio_pct exclusion excluded_of included_of thresholds_of conclude usage_of has_mismatch
    round_ℤ round_half_even is_cost_supported has_credential team_accounts account_currency
    Coverage.missing_days analysis_ready_days day_basis_map covered_days missing_from provider_of
    row_days saved_runs cover_days apply_runs set_defaults resolve_basis ◌+ℤ◌
answer_lem = refl

abbrev budgets : List TeamBudget
budgets = yearly ∷ later ∷ []

in_progress_now : budget_state yearly (recurring_chain budgets) sep_20 ≡ in_progress
unfolding budget_state effective_end recurring_chain sort_by
in_progress_now = refl

budgets-DistinctStarts : DistinctStarts budgets
budgets-DistinctStarts = ((λ _ _. omega arith, tt), (tt, tt))

yearly-IsBudget : IsBudget yearly
yearly-IsBudget = record { positive = omega arith; custom_end = λ e. cc; recurring_end = λ e. refl }

later-IsBudget : IsBudget later
later-IsBudget = record { positive = omega arith; custom_end = λ e. cc; recurring_end = λ e. refl }

calendar_period_partition_example :
    (start end : Date) × (calendar_period monthly sep_20 ≡ some (start, end))
    × (start ≤ sep_20)
    × (sep_20 < end)
    × (((start ≤ sep_1) × (sep_1 < end)) ↔ (calendar_period monthly sep_1 ≡ some (start, end)))
calendar_period_partition_example =
    calendar_period_partition monthly sep_20 sep_1 (λ e. cc) (omega arith) (omega arith)
      (omega arith)

in_progress_unique_example : yearly ≡ yearly
in_progress_unique_example =
    in_progress_unique budgets yearly yearly sep_20 budgets-DistinctStarts (inl refl) (inl refl)
      refl refl in_progress_now in_progress_now

in_progress_exists_example :
    (c : TeamBudget) × In c budgets
    × (is_custom c.period_type ≡ false)
    × (budget_state c (recurring_chain budgets) sep_20 ≡ in_progress)
in_progress_exists_example =
    in_progress_exists budgets yearly sep_20 budgets-DistinctStarts (inl refl) refl (omega arith)

yearly_chosen : select_status_budget budgets sep_20 ≡ some yearly
unfolding select_status_budget budget_state effective_end recurring_chain sort_by max_by
yearly_chosen = refl

select_status_budget-least_example :
    In yearly budgets
    × ((c : TeamBudget)
        → In c budgets
        → budget_rank budgets sep_20 yearly ≤ budget_rank budgets sep_20 c)
select_status_budget-least_example = select_status_budget-least budgets sep_20 yearly yearly_chosen

budget_period_holds_example :
    (s e : Date) × (budget_period yearly (recurring_chain budgets) sep_20 ≡ some (s, e))
    × (yearly.start_date ≤ s)
    × (s ≤ sep_20)
    × (sep_20 < e)
    × UpTo e (effective_end yearly (recurring_chain budgets))
budget_period_holds_example =
    budget_period_holds yearly (recurring_chain budgets) sep_20 yearly-IsBudget (omega arith)
      (omega arith) in_progress_now

computable-IsConfirmed_example :
    (info : BudgetInfo) × (answer.budget ≡ some info)
    × (is_upcoming info.period_state ≡ false → IsConfirmed db team sep_20 info)
computable-IsConfirmed_example = computable-IsConfirmed db team sep_20 none answer answer_lem refl

compute_budget_status-IsDecided_example : IsDecided answer
compute_budget_status-IsDecided_example =
    compute_budget_status-IsDecided db team sep_20 none answer answer_lem

compute_budget_status-ne-none_example : compute_budget_status db team sep_20 none ≢ none
compute_budget_status-ne-none_example =
    compute_budget_status-ne-none db team sep_20 none
      (
        (yearly-IsBudget, (omega arith, omega arith)),
        ((later-IsBudget, (omega arith, omega arith)), tt),
      )
      (omega arith, omega arith)

-- The threshold of 80% is crossed at 79.95 of 100 dollars.
thresholds_crossed_example :
    (true ≡ true) ↔ (100 * 80 * 100_000_000 ≤ 10000 * 79_950_000 + 5 * 100_000_000)
thresholds_crossed_example =
    thresholds_crossed db team sep_20 none answer shown
      (record { amount = pos 79_950_000; net_amount = pos 79_950_000; is_estimated = false })
      79_950_000 (record { percent = 80; crossed = true; notified = false }) answer_lem refl refl
      refl refl (omega arith) (inl refl)

day_basis_map_lem_example :
    lookup sep_10 (day_basis_map db 7 sep_1 oct_1)
    ≡ day_basis
        (provider_of db 7)
        (elem sep_10 (row_days db 7 sep_1 oct_1))
        (latest_covering sep_10 (saved_runs db 7 sep_1 oct_1))
day_basis_map_lem_example = day_basis_map_lem db 7 sep_1 oct_1 sep_10 (omega arith) (omega arith)

missing_days_exact_example :
    elem sep_10 (Coverage.missing_days db 7 sep_1 oct_1)
    ≡ (within sep_1 oct_1 sep_10 && not (covered_days db 7 sep_1 oct_1 sep_10))
missing_days_exact_example = missing_days_exact db 7 sep_1 oct_1 sep_10

abbrev no_basis : Option String
no_basis = none

abbrev aws : String
aws = "aws"

resolve_basis_narrow_example :
    (no_basis ≡ some "complete_range") ⊎ ((no_basis ≡ none) × (aws ≡ "aws"))
unfolding resolve_basis
resolve_basis_narrow_example = resolve_basis_narrow no_basis aws refl

all_september : length (analysis_ready_days db 7 sep_1 oct_1) ≡ oct_1 - sep_1
unfolding analysis_ready_days day_basis_map provider_of row_days saved_runs cover_days apply_runs
    set_defaults resolve_basis sort_by
all_september = refl

every_day_ready_example : lookup sep_20 (day_basis_map db 7 sep_1 oct_1) ≡ some complete_range
every_day_ready_example =
    every_day_ready db 7 sep_1 oct_1 sep_20 all_september (omega arith) (omega arith)
