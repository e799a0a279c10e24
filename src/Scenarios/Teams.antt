-- ===== src/Scenarios/Teams.antt =====
-- Instances for the life of a team.
use multi_cloud_platform.Prelude.{◌≡◌, refl, inl, none, some, [], ◌∷◌}
use multi_cloud_platform.Models.{Team, Db}
use multi_cloud_platform.Teams.{get_owned_team}
use multi_cloud_platform.Teams.Lifecycle.{
  TeamPatchRequest, saved, is_duplicate_name, has_costs, update_team, patch_found, patch_team,
  remove_team, delete_found, delete_team,
}
use multi_cloud_platform.Teams.Lifecycle.Currency.{HasCurrency, patch_team-HasCurrency}
use multi_cloud_platform.Teams.Lifecycle.Gone.{IsGone, delete_team-IsGone}
use multi_cloud_platform.Scenarios.{sep_20, team, account, db}

abbrev rename : TeamPatchRequest
rename = record { name = some "Core"; currency = some "USD" }

abbrev renamed_team : Team
renamed_team = record team { name = "Core" }

abbrev renamed : Db
renamed = record db { teams = renamed_team ∷ [] }

renamed_lem : patch_team db 1 sep_20 1 rename ≡ saved renamed
unfolding patch_team patch_found get_owned_team is_duplicate_name has_costs update_team
renamed_lem = refl

patch_team-HasCurrency_example : HasCurrency db renamed_team
patch_team-HasCurrency_example =
    patch_team-HasCurrency db 1 sep_20 1 rename renamed renamed_team tt renamed_lem (inl refl)

abbrev alone : Db
alone = record db { teams = []; accounts = record account { team_id = none } ∷ []; budgets = [] }

alone_lem : delete_team db 1 1 ≡ saved alone
unfolding delete_team delete_found remove_team get_owned_team
alone_lem = refl

delete_team-IsGone_example : IsGone db 1 alone
delete_team-IsGone_example = delete_team-IsGone db 1 1 alone alone_lem
