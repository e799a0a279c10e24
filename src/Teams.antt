-- ===== src/Teams.antt =====
-- backend/app/routers/teams.py: the writes of a team's budgets. The lock of the team's budgets makes each
-- request a single step. A request's body is taken as the schema (schemas/teams.py) reads it.
pub mod Created
pub mod Planned
pub mod Assign
pub mod Edit
pub mod PastYear
pub mod Lifecycle
use multi_cloud_platform.Prelude.{
  ℕ, ◌+◌, ◌-◌, String, Bool, true, false, not, ◌&&◌, ◌||◌, Option, none, some, List, [], ◌∷◌, map,
  ltb, leb, ◌==◌, if◌then◌else◌, any, find, keep_if, is_nil,
}
use multi_cloud_platform.Calendar.{Date, date, year, month, day}
use multi_cloud_platform.Models.{PeriodType, Team, TeamBudget, Db, is_custom}
use multi_cloud_platform.Budget.{
  team_budgets, recurring_chain, budget_state, is_upcoming, find_active_recurring,
  find_custom_overlap,
}
use multi_cloud_platform.Notify.{evaluate_budget_thresholds}

pub record BudgetCreateRequest : Type 0 where
  pub period_type : PeriodType
  pub start_date : Date
  pub end_date : Option Date
  pub limit_amount : ℕ
  pub currency : Option String

pub record BudgetPatchRequest : Type 0 where
  pub end_date : Option Date
  pub limit_amount : Option ℕ

pub data TeamError : Type 0 where
  team_not_found budget_not_found end_required invalid_range range_too_long : TeamError
  end_not_allowed budget_already_started active_recurring_exists integrity_error : TeamError
  custom_period_overlap : ℕ → TeamError

pub data Result : Type 0 where
  refused : TeamError → Result
  done : Db → Result

-- The end of a window, or why it is refused.
pub data Window : Type 0 where
  bad : TeamError → Window
  good : Option Date → Window

unfoldable pub get_owned_team : Db → ℕ → ℕ → Option Team
get_owned_team db user_id id = find (λ t. t.id == id && t.user_id == user_id) db.teams

abbrev pub max_custom_days : ℕ
max_custom_days = 366

unfoldable pub validate_custom_window : Date → Option Date → Window
validate_custom_window start none = bad end_required
validate_custom_window start (some end) =
    if leb end start
    then bad invalid_range
    else if ltb max_custom_days (end - start)
    then bad range_too_long
    else good (some end)

-- `start_date + INTERVAL '1 year'`, which takes 29 February to 28 February.
unfoldable pub plus_year : Date → Date
plus_year d = date (year d + 1) (month d) (if month d == 2 && day d == 29 then 28 else day d)

-- The CHECK constraints of a budget's end.
abbrev pub is_end_allowed : PeriodType → Date → Option Date → Bool
is_end_allowed period start none = not (is_custom period)
is_end_allowed period start (some end) =
    is_custom period && ltb start end && leb end (plus_year start)

abbrev pub has_end : Option Date → Bool
has_end none = false
has_end (some end) = true

-- Some recurring budget of the team starts on that day.
abbrev pub is_start_taken : List TeamBudget → TeamBudget → Bool
is_start_taken rows b =
    not (has_end b.end_date)
    && any (λ c. c.team_id == b.team_id && not (has_end c.end_date) && c.start_date == b.start_date)
        rows

-- What the constraints of the table accept.
unfoldable pub is_storable : Db → TeamBudget → Bool
is_storable db b =
    ltb 0 b.limit_amount
    && is_end_allowed b.period_type b.start_date b.end_date
    && not (is_start_taken db.budgets b)

-- `none` is an `IntegrityError`.
unfoldable pub insert_budget : Db → TeamBudget → Option Db
insert_budget db b =
    if is_storable db b then some (record db { budgets = b ∷ db.budgets }) else none

-- An evaluation that raises has written nothing.
unfoldable pub safe_evaluate : Db → Team → Date → Db
safe_evaluate db team today = elim (evaluate_budget_thresholds db team today) [
  | none ↦ db
  | some r ↦ r.0
]

unfoldable pub check_overlap : List TeamBudget → Date → Option ℕ → Window → Window
check_overlap budgets start exclude_id (bad e) = bad e
check_overlap budgets start exclude_id (good none) = good none
check_overlap budgets start exclude_id (good (some end)) =
    elim (find_custom_overlap budgets start end exclude_id) [
      | none ↦ good (some end)
      | some b ↦ bad (custom_period_overlap b.id)
    ]

unfoldable pub check_latest : Date → Option TeamBudget → Window
check_latest start none = good none
check_latest start (some latest) =
    if leb start latest.start_date then bad active_recurring_exists else good none

unfoldable pub check_recurring : List TeamBudget → Date → Option Date → Window
check_recurring budgets start none = check_latest start (find_active_recurring budgets)
check_recurring budgets start (some end) = bad end_not_allowed

unfoldable pub check_new : List TeamBudget → BudgetCreateRequest → Window
check_new budgets payload =
    if is_custom payload.period_type
    then check_overlap budgets payload.start_date none
        (validate_custom_window payload.start_date payload.end_date)
    else check_recurring budgets payload.start_date payload.end_date

abbrev pub or_text : Option String → String → String
or_text none c = c
or_text (some c) d = c

abbrev pub next_budget_id : List TeamBudget → ℕ
next_budget_id [] = 1
next_budget_id (b ∷ bs) = let rest = next_budget_id bs in if ltb b.id rest then rest else b.id + 1

unfoldable pub new_budget : Db → Team → BudgetCreateRequest → Option Date → TeamBudget
new_budget db team payload end = record {
  id = next_budget_id db.budgets;
  team_id = team.id;
  period_type = payload.period_type;
  start_date = payload.start_date;
  end_date = end;
  limit_amount = payload.limit_amount;
  currency = or_text payload.currency team.currency;
}

abbrev pub evaluated : Team → Date → Option Db → Result
evaluated team today none = refused active_recurring_exists
evaluated team today (some db) = done (safe_evaluate db team today)

unfoldable pub store_new : Db → Team → Date → BudgetCreateRequest → Window → Result
store_new db team today payload (bad e) = refused e
store_new db team today payload (good end) =
    evaluated team today (insert_budget db (new_budget db team payload end))

unfoldable pub create_for : Db → Date → BudgetCreateRequest → Option Team → Result
create_for db today payload none = refused team_not_found
create_for db today payload (some team) =
    store_new db team today payload (check_new (team_budgets db team.id) payload)

unfoldable pub create_budget : Db → ℕ → Date → ℕ → BudgetCreateRequest → Result
create_budget db user_id today team_id payload =
    create_for db today payload (get_owned_team db user_id team_id)
