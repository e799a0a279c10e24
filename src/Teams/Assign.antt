-- ===== src/Teams/Assign.antt =====
-- backend/app/routers/teams.py, `put_team_accounts`: the accounts of a team are set.
pub mod Exact
use multi_cloud_platform.Prelude.{
  ℕ, Bool, true, false, not, ◌&&◌, Option, none, some, List, map, ◌==◌, if◌then◌else◌, any, all,
  elem,
}
use multi_cloud_platform.Calendar.{Date}
use multi_cloud_platform.Models.{Team, CloudAccount, Db}
use multi_cloud_platform.Adapters.{has_credential, in_team}
use multi_cloud_platform.Teams.{get_owned_team, safe_evaluate}

pub data AssignError : Type 0 where
  team_not_found account_not_found account_already_in_team : AssignError

pub data AssignResult : Type 0 where
  refused : AssignError → AssignResult
  assigned : Db → AssignResult

-- The filter of the accounts asked for.
abbrev pub is_wanted : Db → ℕ → List ℕ → CloudAccount → Bool
is_wanted db user_id wanted a = a.user_id == user_id && has_credential db a.id && elem a.id wanted

abbrev pub is_taken : Option ℕ → ℕ → Bool
is_taken none t = false
is_taken (some x) t = not (x == t)

-- The account after the two loops.
unfoldable pub reassign : Db → ℕ → ℕ → List ℕ → CloudAccount → CloudAccount
reassign db user_id t wanted a =
    if is_wanted db user_id wanted a
    then record a { team_id = some t }
    else if in_team a.team_id t && has_credential db a.id && not (elem a.id wanted)
    then record a { team_id = none }
    else a

unfoldable pub assign_to : Db → ℕ → Date → List ℕ → Option Team → AssignResult
assign_to db user_id today wanted none = refused team_not_found
assign_to db user_id today wanted (some team) =
    if not (all (λ i. any (λ a. is_wanted db user_id wanted a && a.id == i) db.accounts) wanted)
    then refused account_not_found
    else if any (λ a. is_wanted db user_id wanted a && is_taken a.team_id team.id) db.accounts
    then refused account_already_in_team
    else assigned (
        safe_evaluate
          (record db { accounts = map (reassign db user_id team.id wanted) db.accounts }) team
          today)

unfoldable pub put_team_accounts : Db → ℕ → Date → ℕ → List ℕ → AssignResult
put_team_accounts db user_id today team_id wanted =
    assign_to db user_id today wanted (get_owned_team db user_id team_id)
