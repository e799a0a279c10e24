-- ===== src/Teams/Edit.antt =====
-- backend/app/routers/teams.py, `patch_budget` and `delete_budget`.
pub mod Kept
use multi_cloud_platform.Prelude.{
  ℕ, Bool, true, false, not, ◌&&◌, Option, none, some, List, map, ltb, ◌==◌, if◌then◌else◌, find,
  keep_if,
}
use multi_cloud_platform.Calendar.{Date}
use multi_cloud_platform.Models.{Team, TeamBudget, Db, is_custom}
use multi_cloud_platform.Budget.{team_budgets, recurring_chain, budget_state, is_upcoming}
use multi_cloud_platform.Teams.{
  BudgetPatchRequest, end_not_allowed, budget_not_found, budget_already_started, integrity_error,
  Result, refused, done, Window, bad, good, validate_custom_window, check_overlap, is_end_allowed,
  safe_evaluate,
}

-- The budget with its team, if the user owns that.
unfoldable pub with_team : Db → ℕ → Option TeamBudget → Option (TeamBudget × Team)
with_team db user_id none = none
with_team db user_id (some b) =
    elim (find (λ t. t.id == b.team_id && t.user_id == user_id) db.teams) [
      | none ↦ none
      | some t ↦ some (b, t)
    ]

unfoldable pub get_owned_budget : Db → ℕ → ℕ → Option (TeamBudget × Team)
get_owned_budget db user_id id = with_team db user_id (find (λ b. b.id == id) db.budgets)

-- The new end, where one is asked for; a budget without an end needs none.
unfoldable pub patch_window : List TeamBudget → TeamBudget → Option Date → Window
patch_window budgets b none = good b.end_date
patch_window budgets b (some end) =
    if is_custom b.period_type
    then check_overlap budgets b.start_date (some b.id)
        (validate_custom_window b.start_date (some end))
    else bad end_not_allowed

abbrev pub or_limit : Option ℕ → ℕ → ℕ
or_limit none limit = limit
or_limit (some new) limit = new

abbrev pub patched : TeamBudget → Option Date → Option ℕ → TeamBudget
patched b end limit = record b { end_date = end; limit_amount = or_limit limit b.limit_amount }

-- The row is written, where the CHECK constraints accept it; an `IntegrityError` is not caught.
unfoldable pub update_budget : Db → TeamBudget → Result
update_budget db new =
    if ltb 0 new.limit_amount && is_end_allowed new.period_type new.start_date new.end_date
    then done (record db { budgets = map (λ c. if c.id == new.id then new else c) db.budgets })
    else refused integrity_error

unfoldable pub apply_patch : Db → TeamBudget → Option ℕ → Window → Result
apply_patch db b limit (bad e) = refused e
apply_patch db b limit (good end) = update_budget db (patched b end limit)

-- For a request without one of the locked fields.
unfoldable pub patch_owned : Db → Date → BudgetPatchRequest → Option (TeamBudget × Team) → Result
patch_owned db today payload none = refused budget_not_found
patch_owned db today payload (some (b, team)) =
    let budgets = team_budgets db team.id in
    if is_upcoming (budget_state b (recurring_chain budgets) today)
    then apply_patch db b payload.limit_amount (patch_window budgets b payload.end_date)
    else refused budget_already_started

unfoldable pub patch_budget : Db → ℕ → Date → ℕ → BudgetPatchRequest → Result
patch_budget db user_id today id payload =
    patch_owned db today payload (get_owned_budget db user_id id)

-- The row goes, and with it its notifications (`ON DELETE CASCADE`).
unfoldable pub remove_budget : Db → ℕ → Db
remove_budget db id = record db {
  budgets = keep_if (λ c. not (c.id == id)) db.budgets;
  sent = keep_if (λ n. not (n.team_budget_id == id)) db.sent;
}

unfoldable pub delete_owned : Db → Date → Option (TeamBudget × Team) → Result
delete_owned db today none = refused budget_not_found
delete_owned db today (some (b, team)) = done (safe_evaluate (remove_budget db b.id) team today)

unfoldable pub delete_budget : Db → ℕ → Date → ℕ → Result
delete_budget db user_id today id = delete_owned db today (get_owned_budget db user_id id)
