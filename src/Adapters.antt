-- ===== src/Adapters.antt =====
-- backend/app/cost/__init__.py, the table of cost adapters, backend/app/account_scope.py, the test for
-- the demo user (backend/app/demo.py), and the currency that the cost queries give to an account (backend/app/cost/query.py).
use multi_cloud_platform.Prelude.{
  ℕ, String, Bool, ◌&&◌, ◌||◌, Option, none, some, List, ◌==◌, str_eq, any, keep_if, if◌then◌else◌,
}
use Prim.Native.String.{◌++◌}
use multi_cloud_platform.Prelude.Sort.{sort_by, max_by}
use multi_cloud_platform.Models.{CloudAccount, CloudAccountCost, Db}

-- `provider in COST_ADAPTERS`
unfoldable pub is_cost_supported : String → Bool
is_cost_supported provider =
    str_eq provider "aws" || str_eq provider "azure" || str_eq provider "gcp"

-- Some credential row belongs to the account.
unfoldable pub has_credential : Db → ℕ → Bool
has_credential db a = any (λ c. c.cloud_account_id == a) db.credentials

abbrev pub in_team : Option ℕ → ℕ → Bool
in_team none t = Bool.false
in_team (some x) t = x == t

-- A team's accounts that still have a credential, by id.
unfoldable pub team_accounts : Db → ℕ → List CloudAccount
team_accounts db t =
    sort_by (λ a. (a.id, 0))
      (keep_if (λ a. in_team a.team_id t && has_credential db a.id) db.accounts)

abbrev pub currency_in : Option CloudAccountCost → Option String
currency_in none = none
currency_in (some r) = some r.currency

-- The currency of the account's latest row: `accounts_currency_map` at that account. Which of several
-- rows of the same `as_of` comes first is the database's choice; here it is the first stored.
unfoldable pub account_currency : Db → ℕ → Option String
account_currency db a =
    currency_in (max_by (λ r. (r.as_of, 0)) (keep_if (λ r. r.cloud_account_id == a) db.costs))

-- The account belongs to the demo user.
unfoldable pub is_demo_account : Db → CloudAccount → Bool
is_demo_account db a =
    any (λ u. u.id == a.user_id && str_eq u.normalized_email "demo@exam.com") db.users

abbrev pub demo_cost_source : String
demo_cost_source = "seed_demo"

-- The origin that an account's rows are stored with.
unfoldable pub cost_source_for : String → String
cost_source_for provider =
    if str_eq provider "aws"
    then "aws_cost_explorer"
    else if str_eq provider "azure"
    then "azure_cost_management"
    else if str_eq provider "gcp"
    then "gcp_billing_export"
    else provider ++ "_cost_explorer"
