-- ===== src/Teams/PastYear.antt =====
-- A custom window that passes the code's test and not the table's.
use multi_cloud_platform.Prelude.{ℕ, ◌<◌, ◌≡◌, refl, false, some, arith}
use multi_cloud_platform.Calendar.{Date}
use multi_cloud_platform.Models.{Team, TeamBudget, Db}
use multi_cloud_platform.Budget.{team_budgets}
use multi_cloud_platform.Teams.{
  BudgetCreateRequest, active_recurring_exists, refused, good, get_owned_team, plus_year,
  is_storable, insert_budget, new_budget, check_new, store_new, create_for, create_budget,
}

not_storable :
    (db : Db) (b : TeamBudget) (end : Date)
    → b.end_date ≡ some end
    → plus_year b.start_date < end
    → is_storable db b ≡ false
unfolding is_storable
not_storable db b end e h = ground (arith, e)

-- A custom budget whose window passes all checks of the request, as 366 days do, and ends more than a
-- calendar year after its start is answered as if a recurring budget began on the same day.
pub create_budget_past_year :
    (db : Db) (user_id : ℕ) (today : Date) (team_id : ℕ) (payload : BudgetCreateRequest)
    (team : Team) (end : Date)
    → get_owned_team db user_id team_id ≡ some team
    → check_new (team_budgets db team.id) payload ≡ good (some end)
    → plus_year payload.start_date < end
    → create_budget db user_id today team_id payload ≡ refused active_recurring_exists
unfolding create_budget create_for store_new insert_budget new_budget
create_budget_past_year db user_id today team_id payload team end owned checked long =
    rw (owned, checked, not_storable db (new_budget db team payload (some end)) end refl long) refl
