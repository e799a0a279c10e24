-- ===== src/Budget/Status.antt =====
-- backend/app/cost/budget.py, `compute_budget_status`: how much of its budget a team has used, and
-- whether that can be said. The forecast and the
-- times (`as_of`, `crossed_at`) are not modelled. `none` is an exception.
pub mod Reasons
pub mod Confirmed
pub mod Thresholds
use multi_cloud_platform.Prelude.{
  ℕ, zero, suc, ◌+◌, ◌-◌, ◌*◌, min, max, String, Bool, true, false, not, ◌&&◌, ◌||◌, Option, none,
  some, List, [], ◌∷◌, map, ltb, leb, ◌==◌, str_eq, if◌then◌else◌, any, keep_if, length, is_nil,
}
use multi_cloud_platform.Prelude.Int.{ℤ, pos, negsuc, sub_ℕ, sum, leb_ℤ}
use multi_cloud_platform.Prelude.Rounding.{round_ℤ}
use multi_cloud_platform.Calendar.{Date}
use multi_cloud_platform.Models.{
  Team, TeamBudget, CloudAccount, CloudAccountCost, PeriodType, Db, is_usage,
}
use multi_cloud_platform.Adapters.{is_cost_supported, team_accounts, account_currency}
use multi_cloud_platform.Coverage
use multi_cloud_platform.Budget.{
  State, is_upcoming, team_budgets, recurring_chain, budget_state, budget_period,
  select_status_budget,
}

pub data Reason : Type 0 where
  missing_days coverage_unverified currency_mismatch no_budget no_accounts unsupported : Reason
  no_completed_days : Reason

pub data ExclusionReason : Type 0 where
  unsupported currency_mismatch : ExclusionReason

pub record Excluded : Type 0 where
  pub cloud_account_id : ℕ
  pub currency : Option String
  pub reason : ExclusionReason

pub record BudgetInfo : Type 0 where
  pub id : ℕ
  pub period_type : PeriodType
  pub limit_amount : ℕ
  pub currency : String
  pub period_start : Date
  pub period_end : Date
  pub period_state : State
  pub basis_date : Date

pub record Usage : Type 0 where
  pub amount : ℤ
  pub net_amount : ℤ
  pub is_estimated : Bool

pub record Threshold : Type 0 where
  pub percent : ℕ
  pub crossed : Bool
  pub notified : Bool

-- The answer. `ratio_pct` counts tenths of a percent.
pub record BudgetStatus : Type 0 where
  pub budget : Option BudgetInfo
  pub usage : Option Usage
  pub ratio_pct : Option ℤ
  pub thresholds : List Threshold
  pub excluded_accounts : List Excluded
  pub computable : Bool
  pub reason_code : Option Reason

abbrev pub threshold_percents : List ℕ
threshold_percents = 80 ∷ 100 ∷ []

-- The answer before anything is known.
abbrev pub blank : BudgetStatus
blank = record {
  budget = none;
  usage = none;
  ratio_pct = none;
  thresholds =
      map (λ p. record { percent = p; crossed = false; notified = false }) threshold_percents;
  excluded_accounts = [];
  computable = false;
  reason_code = none;
}

-- The days of [start, end) of one account that are not confirmed.
unfoldable pub missing_days_for_account : Db → CloudAccount → Date → Date → List Date
missing_days_for_account db a period_start check_end =
    if leb check_end period_start then [] else Coverage.missing_days db a.id period_start check_end

unfoldable pub analysis_ready_for_account : Db → CloudAccount → Date → Date → Bool
analysis_ready_for_account db a period_start check_end =
    if leb check_end period_start
    then true
    else length (Coverage.analysis_ready_days db a.id period_start check_end)
      == check_end - period_start

-- The rows that a sum is over; `all_categories` is `categories=None`.
unfoldable pub counted_rows :
    Db → List CloudAccount → String → Date → Date → Bool → List CloudAccountCost
counted_rows db accounts currency period_start period_end all_categories =
    keep_if
      (λ r.
        any (λ a. a.id == r.cloud_account_id) accounts
        && str_eq r.currency currency
        && leb period_start r.period_start
        && ltb r.period_start period_end
        && (all_categories || is_usage r.charge_category))
      db.costs

-- The amount that `_sum_usage` gives, 0 where it gives `None`.
unfoldable pub sum_usage : Db → List CloudAccount → String → Date → Date → Bool → ℤ
sum_usage db accounts currency period_start period_end all_categories =
    sum (
      map (λ r. r.amount)
        (counted_rows db accounts currency period_start period_end all_categories))

unfoldable pub scale_ℤ : ℕ → ℤ → ℤ
scale_ℤ k (pos n) = pos (k * n)
scale_ℤ k (negsuc n) = sub_ℕ 0 (k * suc n)

-- `(amount / limit * 100).quantize(0.1)`, in tenths. The quotient is rounded once here. `Decimal` first
-- rounds it to 28 digits: for amounts below 10 ** 24 millionths that cannot move it across, or off, a
-- point half way between two tenths, since those are at least 1 / (2 * limit) away or are exact.
unfoldable pub ratio_pct : ℤ → ℕ → ℤ
ratio_pct amount limit = round_ℤ (scale_ℤ 1000 amount) limit

abbrev pub differs : Option String → String → Bool
differs none c = false
differs (some x) c = not (str_eq x c)

-- Why the usage cannot be judged, after the currencies were found to agree.
unfoldable pub unconfirmed : Db → List CloudAccount → State → Date → Date → Option Reason
unconfirmed db included state period_start check_end =
    if is_upcoming state
    then none
    else if leb check_end period_start
    then some no_completed_days
    else if any (λ a. not (is_nil (missing_days_for_account db a period_start check_end))) included
    then some missing_days
    else if any (λ a. not (analysis_ready_for_account db a period_start check_end)) included
    then some coverage_unverified
    else none

abbrev pub is_notified : Db → ℕ → Date → ℕ → Bool
is_notified db budget_id period_start p =
    any (λ n. n.team_budget_id == budget_id && n.period_start == period_start && n.threshold == p)
      db.sent

unfoldable pub exclusion : Db → Team → CloudAccount → Option ExclusionReason
exclusion db team a =
    if not (is_cost_supported a.provider)
    then some unsupported
    else if differs (account_currency db a.id) team.currency
    then some currency_mismatch
    else none

-- The `excluded` list.
unfoldable pub excluded_of : Db → Team → List CloudAccount → List Excluded
excluded_of db team [] = []
excluded_of db team (a ∷ accounts) =
    let rest = excluded_of db team accounts in
    elim (exclusion db team a) [
      | none ↦ rest
      | some why ↦
          record { cloud_account_id = a.id; currency = account_currency db a.id; reason = why }
          ∷ rest
    ]

-- The accounts whose costs count: supported, and in the team's currency as far as that is known.
unfoldable pub included_of : Db → Team → List CloudAccount → List CloudAccount
included_of db team accounts =
    keep_if
      (λ a. is_cost_supported a.provider && not (differs (account_currency db a.id) team.currency))
      accounts

abbrev pub is_currency_mismatch : ExclusionReason → Bool
is_currency_mismatch currency_mismatch = true
is_currency_mismatch unsupported = false

unfoldable pub thresholds_of : Db → ℕ → Date → ℤ → List Threshold
thresholds_of db budget_id period_start ratio =
    map
      (λ p. record {
        percent = p;
        crossed = leb_ℤ (pos (p * 10)) ratio;
        notified = is_notified db budget_id period_start p;
      })
      threshold_percents

-- The early returns, each with what is filled in by then.
unfoldable pub conclude :
    BudgetInfo
    → List Excluded
    → Usage
    → (no_account no_supported mismatch : Bool) → Option Reason
    → ℤ
    → List Threshold
    → BudgetStatus
conclude info excluded usage no_account no_supported mismatch why ratio thresholds =
    let shown = record blank { budget = some info } in
    let listed = record shown { excluded_accounts = excluded } in
    let measured = record listed { usage = some usage } in
    if no_account
    then record shown { reason_code = some no_accounts }
    else if no_supported
    then record listed { reason_code = some Reason.unsupported }
    else if mismatch
    then record measured { reason_code = some Reason.currency_mismatch }
    else elim why [
      | some reason ↦ record measured { reason_code = some reason }
      | none ↦ record measured {
        computable = true;
        ratio_pct = some ratio;
        thresholds = thresholds;
      }
    ]

abbrev pub info_of : TeamBudget → State → Date → Date → Date → BudgetInfo
info_of budget state reference_date period_start period_end = record {
  id = budget.id;
  period_type = budget.period_type;
  limit_amount = budget.limit_amount;
  currency = budget.currency;
  period_start = period_start;
  period_end = period_end;
  period_state = state;
  basis_date = reference_date;
}

-- `sum_usage` over the usage rows and over all rows, up to the excluded day.
unfoldable pub usage_of : Db → Team → List CloudAccount → Date → Date → Usage
usage_of db team included period_start usage_end = record {
  amount = sum_usage db included team.currency period_start usage_end false;
  net_amount = sum_usage db included team.currency period_start usage_end true;
  is_estimated =
      any (λ r. r.is_estimated)
        (counted_rows db included team.currency period_start usage_end false);
}

-- The budget's or some account's currency is not the team's.
unfoldable pub has_mismatch : Team → TeamBudget → List Excluded → Bool
has_mismatch team budget excluded =
    not (str_eq budget.currency team.currency) || any (λ e. is_currency_mismatch e.reason) excluded

-- The usage is summed through the reference day, and confirmed up to the day before today at most.
abbrev pub usage_end_of : Date → Date → Date
usage_end_of period_end reference_date = min period_end (reference_date + 1)

abbrev pub check_end_of : Date → Date → Date → Date
check_end_of period_end reference_date today = min (usage_end_of period_end reference_date) today

-- The answer once the budget and its period are known.
unfoldable pub judge : Db → Team → Date → Date → TeamBudget → State → Date × Date → BudgetStatus
judge db team today reference_date budget state (period_start, period_end) =
    let accounts = team_accounts db team.id in
    let excluded = excluded_of db team accounts in
    let included = included_of db team accounts in
    let usage = usage_of db team included period_start (usage_end_of period_end reference_date) in
    let ratio = ratio_pct usage.amount budget.limit_amount in
    conclude (info_of budget state reference_date period_start period_end) excluded usage
      (is_nil accounts) (is_nil (keep_if (λ a. is_cost_supported a.provider) accounts))
      (has_mismatch team budget excluded)
      (unconfirmed db included state period_start (check_end_of period_end reference_date today))
      ratio (thresholds_of db budget.id period_start ratio)

abbrev pub or_today : Option Date → Date → Date
or_today none today = today
or_today (some d) today = min d today

-- The judgement in the budget's period, where it has one.
unfoldable pub judge_in :
    Db → Team → Date → Date → TeamBudget → State → Option (Date × Date) → Option BudgetStatus
judge_in db team today reference_date b state none = none
judge_in db team today reference_date b state (some period) =
    some (judge db team today reference_date b state period)

-- The answer for the budget chosen, if one is.
unfoldable pub answer_for : Db → Team → Date → Date → Option TeamBudget → Option BudgetStatus
unfolding judge_in
answer_for db team today reference_date none = some (record blank { reason_code = some no_budget })
answer_for db team today reference_date (some b) =
    let chain = recurring_chain (team_budgets db team.id) in
    judge_in db team today reference_date b (budget_state b chain reference_date)
      (budget_period b chain reference_date)

unfoldable pub compute_budget_status : Db → Team → Date → Option Date → Option BudgetStatus
compute_budget_status db team today reference =
    let reference_date = or_today reference today in
    answer_for db team today reference_date
      (select_status_budget (team_budgets db team.id) reference_date)
