-- ===== src/Teams/Lifecycle.antt =====
-- backend/app/routers/teams.py: a team is made, changed and deleted.
pub mod Currency
pub mod Gone
use multi_cloud_platform.Prelude.{
  ℕ, ◌+◌, String, Bool, true, false, not, ◌&&◌, Option, none, some, List, [], ◌∷◌, map, ltb, ◌==◌,
  str_eq, if◌then◌else◌, any, keep_if,
}
use multi_cloud_platform.Calendar.{Date}
use multi_cloud_platform.Models.{Team, CloudAccount, Db}
use multi_cloud_platform.Adapters.{in_team}
use multi_cloud_platform.Budget.{is_excluded}
use multi_cloud_platform.Teams.{get_owned_team, safe_evaluate, or_text}

pub record TeamCreateRequest : Type 0 where
  pub name : String
  pub currency : String

pub record TeamPatchRequest : Type 0 where
  pub name : Option String
  pub currency : Option String

pub data WriteError : Type 0 where
  team_missing duplicate_name team_has_collected_costs : WriteError

pub data TeamWrite : Type 0 where
  denied : WriteError → TeamWrite
  saved : Db → TeamWrite

unfoldable pub is_duplicate_name : Db → ℕ → String → Option ℕ → Bool
is_duplicate_name db user_id name exclude_id =
    any (λ t. t.user_id == user_id && str_eq t.name name && not (is_excluded exclude_id t.id))
      db.teams

abbrev pub next_team_id : List Team → ℕ
next_team_id [] = 1
next_team_id (t ∷ ts) = let rest = next_team_id ts in if ltb t.id rest then rest else t.id + 1

unfoldable pub create_team : Db → ℕ → TeamCreateRequest → TeamWrite
create_team db user_id payload =
    if is_duplicate_name db user_id payload.name none
    then denied duplicate_name
    else saved (record db {
      teams =
          record {
            id = next_team_id db.teams;
            user_id = user_id;
            name = payload.name;
            currency = payload.currency;
          }
          ∷ db.teams;
    })

-- Some cost row belongs to an account of the team.
unfoldable pub has_costs : Db → ℕ → Bool
has_costs db t =
    any (λ r. any (λ a. a.id == r.cloud_account_id && in_team a.team_id t) db.accounts) db.costs

-- A value is asked for that is not the present one.
abbrev pub is_changed : Option String → String → Bool
is_changed none present = false
is_changed (some c) present = not (str_eq c present)

unfoldable pub update_team : Db → Team → Db
update_team db new = record db { teams = map (λ t. if t.id == new.id then new else t) db.teams }

-- The guards, and what is written past them.
unfoldable pub patch_found : Db → ℕ → Date → TeamPatchRequest → Option Team → TeamWrite
patch_found db user_id today payload none = denied team_missing
patch_found db user_id today payload (some team) =
    let new = record team {
      name = or_text payload.name team.name;
      currency = or_text payload.currency team.currency;
    } in
    if is_changed payload.name team.name && is_duplicate_name db user_id new.name (some team.id)
    then denied duplicate_name
    else if is_changed payload.currency team.currency && has_costs db team.id
    then denied team_has_collected_costs
    else saved (
        if is_changed payload.currency team.currency
        then safe_evaluate (update_team db new) new today
        else update_team db new)

unfoldable pub patch_team : Db → ℕ → Date → ℕ → TeamPatchRequest → TeamWrite
patch_team db user_id today team_id payload =
    patch_found db user_id today payload (get_owned_team db user_id team_id)

-- The row goes; accounts are released (`ON DELETE SET NULL`), budgets and their notifications go with it
-- (`ON DELETE CASCADE`).
unfoldable pub remove_team : Db → ℕ → Db
remove_team db t = record db {
  teams = keep_if (λ x. not (x.id == t)) db.teams;
  accounts = map (λ a. if in_team a.team_id t then record a { team_id = none } else a) db.accounts;
  budgets = keep_if (λ b. not (b.team_id == t)) db.budgets;
  sent =
      keep_if (λ n. not (any (λ b. b.team_id == t && b.id == n.team_budget_id) db.budgets)) db.sent;
}

unfoldable pub delete_found : Db → Option Team → TeamWrite
delete_found db none = denied team_missing
delete_found db (some team) = saved (remove_team db team.id)

unfoldable pub delete_team : Db → ℕ → ℕ → TeamWrite
delete_team db user_id team_id = delete_found db (get_owned_team db user_id team_id)
