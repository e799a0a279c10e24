-- ===== src/Budget.antt =====
-- backend/app/cost/budget.py, the calendar, the chain of recurring budgets, and the budget shown.
pub mod Period
pub mod Stable
pub mod Chain
pub mod InProgress
pub mod Select
pub mod Counted
pub mod Status
use multi_cloud_platform.Prelude.{
  ℕ, ◌+◌, ◌-◌, ◌*◌, ◌/◌, ◌%◌, min, max, Bool, true, false, not, ◌&&◌, ◌||◌, Option, none, some,
  List, [], ◌∷◌, ltb, leb, ◌==◌, if◌then◌else◌, keep_if, find,
}
use multi_cloud_platform.Prelude.Sort.{key_ltb, sort_by, max_by, min_by}
use multi_cloud_platform.Calendar.{Date, year, month, date, constructed}
use multi_cloud_platform.Models.{
  PeriodType, monthly, quarterly, annual, custom, TeamBudget, Db, is_custom,
}

-- The first day of the month that lies so many months after the month of the day.
unfoldable pub add_months : Date → ℕ → Option Date
add_months d months =
    let k = month d - 1 + months in constructed (date (year d + k / 12) (k % 12 + 1) 1)

-- The pair of a start and an end, unless the end is not constructed.
abbrev pub until : Date → Option Date → Option (Date × Date)
until start none = none
until start (some end) = some (start, end)

-- The calendar period [start, end) that holds the day; `none` is the `ValueError`.
unfoldable pub calendar_period : PeriodType → Date → Option (Date × Date)
calendar_period monthly on =
    let start = date (year on) (month on) 1 in until start (add_months start 1)
calendar_period quarterly on =
    let q_month = (month on - 1) / 3 * 3 + 1 in
    let start = date (year on) q_month 1 in until start (add_months start 3)
calendar_period annual on = until (date (year on) 1 1) (constructed (date (year on + 1) 1 1))
calendar_period custom on = none

-- The sort key `(b.start_date, b.id)`.
abbrev pub budget_key : TeamBudget → ℕ × ℕ
budget_key b = (b.start_date, b.id)

unfoldable pub team_budgets : Db → ℕ → List TeamBudget
team_budgets db team_id = sort_by budget_key (keep_if (λ b. b.team_id == team_id) db.budgets)

unfoldable pub recurring_chain : List TeamBudget → List TeamBudget
recurring_chain budgets = sort_by budget_key (keep_if (λ b. not (is_custom b.period_type)) budgets)

-- The first row of the chain behind the budget.
abbrev pub next_in_chain : TeamBudget → List TeamBudget → Option TeamBudget
next_in_chain budget chain = find (λ b. key_ltb (budget_key budget) (budget_key b)) chain

abbrev pub start_of : Option TeamBudget → Option Date
start_of none = none
start_of (some b) = some b.start_date

-- The excluded day on which the budget's effect ends.
unfoldable pub effective_end : TeamBudget → List TeamBudget → Option Date
effective_end budget chain =
    if is_custom budget.period_type then budget.end_date else start_of (next_in_chain budget chain)

pub data State : Type 0 where
  upcoming in_progress ended : State

-- `end is not None and today >= end`
abbrev pub has_ended : Option Date → Date → Bool
has_ended none today = false
has_ended (some end) today = leb end today

unfoldable pub budget_state : TeamBudget → List TeamBudget → Date → State
budget_state budget chain today =
    if ltb today budget.start_date
    then upcoming
    else if has_ended (effective_end budget chain) today
    then ended
    else in_progress

-- The day whose calendar period is shown. The code raises where an effect ends on 1 January of year 1.
abbrev pub reference_day : State → TeamBudget → Option Date → Date → Date
reference_day upcoming budget end today = budget.start_date
reference_day ended budget none today = today
reference_day ended budget (some end) today = end - 1
reference_day in_progress budget end today = today

-- The calendar period, cut to the range in which the budget has effect.
abbrev pub cut : TeamBudget → Option Date → Option (Date × Date) → Option (Date × Date)
cut budget end none = none
cut budget none (some (cal_start, cal_end)) = some (max cal_start budget.start_date, cal_end)
cut budget (some end) (some (cal_start, cal_end)) =
    some (max cal_start budget.start_date, min cal_end end)

-- A custom budget without an end date, which a CHECK constraint excludes, has no period.
abbrev pub own_period : TeamBudget → Option Date → Option (Date × Date)
own_period budget none = none
own_period budget (some end) = some (budget.start_date, end)

unfoldable pub budget_period : TeamBudget → List TeamBudget → Date → Option (Date × Date)
budget_period budget chain today =
    if is_custom budget.period_type
    then own_period budget budget.end_date
    else let end = effective_end budget chain in
      let ref = reference_day (budget_state budget chain today) budget end today in
      cut budget end (calendar_period budget.period_type ref)

abbrev pub is_in_progress : State → Bool
is_in_progress in_progress = true
is_in_progress _ = false

abbrev pub is_upcoming : State → Bool
is_upcoming upcoming = true
is_upcoming _ = false

abbrev pub is_ended : State → Bool
is_ended ended = true
is_ended _ = false

-- `(budget_period(b, chain, today)[1], b.id)`
abbrev pub ended_key : List TeamBudget → Date → TeamBudget → ℕ × ℕ
ended_key chain today b = (elim (budget_period b chain today) [ none ↦ 0 | some p ↦ p.1 ], b.id)

abbrev pub or_else : Option TeamBudget → Option TeamBudget → Option TeamBudget
or_else (some b) rest = some b
or_else none rest = rest

-- Ids are primary keys, so the dict `states` is a function of the budget. A list that is empty has no
-- `max`, and the next rule applies.
unfoldable pub select_status_budget : List TeamBudget → Date → Option TeamBudget
select_status_budget budgets today =
    let chain = recurring_chain budgets in
    let running = keep_if (λ b. is_in_progress (budget_state b chain today)) budgets in
    let running_custom =
      keep_if (λ b. is_custom b.period_type && is_in_progress (budget_state b chain today))
        budgets in
    let coming = keep_if (λ b. is_upcoming (budget_state b chain today)) budgets in
    let over = keep_if (λ b. is_ended (budget_state b chain today)) budgets in
    or_else (max_by budget_key running_custom) (
      or_else (max_by budget_key running)
        (or_else (min_by budget_key coming) (max_by (ended_key chain today) over)))

abbrev pub last_of : List TeamBudget → Option TeamBudget
last_of [] = none
last_of (b ∷ bs) = elim (last_of bs) [ some c ↦ some c | none ↦ some b ]

unfoldable pub find_active_recurring : List TeamBudget → Option TeamBudget
find_active_recurring budgets = last_of (recurring_chain budgets)

abbrev pub is_excluded : Option ℕ → ℕ → Bool
is_excluded none id = false
is_excluded (some x) id = id == x

-- `b.start_date < end and start < b.end_date`, for a custom budget.
abbrev pub overlaps : Date → Date → TeamBudget → Bool
overlaps start end b =
    ltb b.start_date end && elim b.end_date [ none ↦ false | some e ↦ ltb start e ]

unfoldable pub find_custom_overlap : List TeamBudget → Date → Date → Option ℕ → Option TeamBudget
find_custom_overlap budgets start end exclude_id =
    find (λ b. is_custom b.period_type && not (is_excluded exclude_id b.id) && overlaps start end b)
      budgets
