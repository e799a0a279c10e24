-- ===== src/Scenarios/Planning.antt =====
-- Instances for the writes of budgets and of a team's accounts.
use multi_cloud_platform.Prelude.{◌<◌, ◌≡◌, refl, sym, ◌∙◌, inl, inr, none, some, [], ◌∷◌, arith}
use multi_cloud_platform.Prelude.Sort.{In, sort_by, max_by, min_by}
use multi_cloud_platform.Calendar.{
  date, year, month, day, year_from, days_before_year, days_before_month, day_of_year, month_of_day,
}
use multi_cloud_platform.Models.{TeamBudget, CloudAccount, Db, custom}
use multi_cloud_platform.Teams.{
  BudgetCreateRequest, BudgetPatchRequest, done, refused, active_recurring_exists, create_budget,
  good, get_owned_team, check_new, check_overlap, validate_custom_window, plus_year, create_for,
  store_new, insert_budget, is_storable, new_budget, safe_evaluate,
}
use multi_cloud_platform.Teams.Planned.{
  IsPlaced, IsPlanned, create_budget-IsPlaced, create_budget-IsPlanned,
}
use multi_cloud_platform.Adapters.{
  is_cost_supported, has_credential, team_accounts, account_currency,
}
use multi_cloud_platform.Prelude.Int.{◌+ℤ◌}
use multi_cloud_platform.Prelude.Rounding.{round_ℤ, round_half_even}
use multi_cloud_platform.Coverage
use multi_cloud_platform.Coverage.{
  resolve_basis, provider_of, row_days, saved_runs, cover_days, apply_runs, set_defaults,
  day_basis_map, covered_days, analysis_ready_days, missing_from,
}
use multi_cloud_platform.Budget.{
  add_months, calendar_period, team_budgets, recurring_chain, find_custom_overlap, effective_end,
  budget_state, budget_period, select_status_budget,
}
use multi_cloud_platform.Budget.Status.{
  missing_days_for_account, analysis_ready_for_account, counted_rows, sum_usage, scale_ℤ, ratio_pct,
  unconfirmed, exclusion, excluded_of, included_of, thresholds_of, conclude, usage_of, has_mismatch,
  judge, judge_in, answer_for, compute_budget_status,
}
use multi_cloud_platform.Notify.{evaluate_budget_thresholds, notify_status}
use multi_cloud_platform.Teams.Assign.{put_team_accounts, assigned, assign_to, reassign}
use multi_cloud_platform.Teams.Assign.Exact.{IsReassigned, put_team_accounts-IsReassigned}
use multi_cloud_platform.Teams.Edit.{
  patch_budget, get_owned_budget, with_team, patch_owned, apply_patch, update_budget, patch_window,
}
use multi_cloud_platform.Teams.Edit.Kept.{IsKept, patch_budget-IsKept}
use multi_cloud_platform.Teams.PastYear.{create_budget_past_year}
use multi_cloud_platform.Scenarios.{sep_1, sep_20, team, yearly, later, account, db}

-- A year and a day from 1 September 2026 on.
abbrev leap : BudgetCreateRequest
leap = record {
  period_type = custom;
  start_date = sep_1;
  end_date = some 740226;
  limit_amount = 1_000_000;
  currency = none;
}

team_owned : get_owned_team db 1 1 ≡ some team
unfolding get_owned_team
team_owned = refl

leap_checked : check_new (team_budgets db 1) leap ≡ good (some 740226)
unfolding check_new check_overlap validate_custom_window find_custom_overlap team_budgets sort_by
leap_checked = refl

year_before : plus_year sep_1 < 740226
unfolding plus_year date year month day year_from days_before_year days_before_month day_of_year
    month_of_day
year_before = omega arith

create_budget_past_year_example : create_budget db 1 sep_20 1 leap ≡ refused active_recurring_exists
create_budget_past_year_example =
    create_budget_past_year db 1 sep_20 1 leap team 740226 team_owned leap_checked year_before

-- 1 to 20 September.
abbrev short : BudgetCreateRequest
short = record {
  period_type = custom;
  start_date = sep_1;
  end_date = some sep_20;
  limit_amount = 1_000_000;
  currency = none;
}

abbrev short_budget : TeamBudget
short_budget = record {
  id = 3;
  team_id = 1;
  period_type = custom;
  start_date = sep_1;
  end_date = some sep_20;
  limit_amount = 1_000_000;
  currency = "USD";
}

-- A team that has no account yet.
abbrev bare : Db
bare = record db { accounts = [] }

abbrev with_short : Db
with_short = record bare { budgets = short_budget ∷ yearly ∷ later ∷ [] }

short_created : create_budget bare 1 sep_20 1 short ≡ done with_short
unfolding create_budget create_for store_new insert_budget is_storable new_budget plus_year
    check_new check_overlap validate_custom_window find_custom_overlap get_owned_team safe_evaluate
    evaluate_budget_thresholds notify_status compute_budget_status answer_for judge_in judge
    select_status_budget team_budgets recurring_chain budget_state effective_end budget_period
    calendar_period add_months date year month day year_from days_before_year days_before_month
    day_of_year month_of_day sort_by max_by min_by unconfirmed missing_days_for_account
    analysis_ready_for_account counted_rows sum_usage scale_ℤ ratio_pct exclusion excluded_of
    included_of thresholds_of conclude usage_of has_mismatch round_ℤ round_half_even
    is_cost_supported has_credential team_accounts account_currency Coverage.missing_days
    analysis_ready_days day_basis_map covered_days missing_from provider_of row_days saved_runs
    cover_days apply_runs set_defaults resolve_basis ◌+ℤ◌
short_created = refl

create_budget-IsPlaced_example :
    (new : TeamBudget) × (with_short.budgets ≡ new ∷ bare.budgets)
    × (new.team_id ≡ 1)
    × IsPlaced bare new
create_budget-IsPlaced_example =
    create_budget-IsPlaced bare 1 sep_20 1 short with_short tt short_created

bare-IsPlanned : IsPlanned bare.budgets
bare-IsPlanned x y (inl p) (inl q) same = ((λ _ _ _. p ∙ sym q), λ _ _ _ _ _. p ∙ sym q)
bare-IsPlanned x y (inl p) (inr (inl q)) same =
    rw (p, q) ((λ _ _ e. absurd (omega (arith, e))), λ e c. cc)
bare-IsPlanned x y (inr (inl p)) (inl q) same =
    rw (p, q) ((λ _ _ e. absurd (omega (arith, e))), λ e c. cc)
bare-IsPlanned x y (inr (inl p)) (inr (inl q)) same = ((λ _ _ _. p ∙ sym q), λ _ _ _ _ _. p ∙ sym q)
bare-IsPlanned x y (inr (inr p)) i same = absurd p
bare-IsPlanned x y (inl p) (inr (inr q)) same = absurd q
bare-IsPlanned x y (inr (inl p)) (inr (inr q)) same = absurd q

create_budget-IsPlanned_example : IsPlanned with_short.budgets
create_budget-IsPlanned_example =
    create_budget-IsPlanned bare 1 sep_20 1 short with_short tt short_created bare-IsPlanned

-- A team without a budget, with its account and without.
abbrev full : Db
full = record db { budgets = [] }

abbrev bound : Db
bound = record full { accounts = record account { team_id = none } ∷ [] }

freed : put_team_accounts full 1 sep_20 1 [] ≡ assigned bound
unfolding put_team_accounts assign_to reassign get_owned_team has_credential safe_evaluate
    evaluate_budget_thresholds notify_status compute_budget_status answer_for select_status_budget
    team_budgets recurring_chain sort_by max_by min_by
freed = refl

put_team_accounts-IsReassigned_example :
    (a : CloudAccount) × In a full.accounts
    × IsReassigned full 1 1 [] a (record account { team_id = none })
put_team_accounts-IsReassigned_example =
    put_team_accounts-IsReassigned full 1 sep_20 1 [] bound (record account { team_id = none }) tt
      freed (inl refl)

abbrev lower : BudgetPatchRequest
lower = record { end_date = none; limit_amount = some 1 }

abbrev lowered : Db
lowered = record db { budgets = yearly ∷ record later { limit_amount = 1 } ∷ [] }

later_patched : patch_budget db 1 sep_20 2 lower ≡ done lowered
unfolding patch_budget get_owned_budget with_team patch_owned apply_patch update_budget patch_window
    team_budgets recurring_chain budget_state effective_end sort_by
later_patched = refl

patch_budget-IsKept_example : IsKept db sep_20 2 (record later { limit_amount = 1 })
patch_budget-IsKept_example =
    patch_budget-IsKept db 1 sep_20 2 lower lowered (record later { limit_amount = 1 })
      later_patched (inr (inl refl))
