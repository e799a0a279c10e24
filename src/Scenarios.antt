-- ===== src/Scenarios.antt =====
-- Example data, tests and instances of the theorems at them.
mod Budgets
mod Collections
mod Planning
mod Inventories
mod Jumps
mod Logins
mod Teams
use multi_cloud_platform.Prelude.{ℕ, true, false, none, some, List, [], ◌∷◌}
use multi_cloud_platform.Prelude.Int.{pos}
use multi_cloud_platform.Calendar.{Date}
use multi_cloud_platform.Models.{
  Team, TeamBudget, CloudAccount, CloudAccountCost, CostIngestionRun, Credential, Db, monthly,
  quarterly, custom, usage, auto, success,
}

-- 1, 10 and 20 September and 1 October 2026.
abbrev pub sep_1 : Date
sep_1 = 739860

abbrev pub sep_10 : Date
sep_10 = 739869

abbrev pub sep_20 : Date
sep_20 = 739879

abbrev pub oct_1 : Date
oct_1 = 739890

abbrev pub team : Team
team = record { id = 1; user_id = 1; name = "Platform"; currency = "USD" }

-- A monthly budget of 100 dollars from 1 January 2026 on.
abbrev pub yearly : TeamBudget
yearly = record {
  id = 1;
  team_id = 1;
  period_type = monthly;
  start_date = 739617;
  end_date = none;
  limit_amount = 100_000_000;
  currency = "USD";
}

-- A quarterly one from 1 October 2026 on.
abbrev pub later : TeamBudget
later = record {
  id = 2;
  team_id = 1;
  period_type = quarterly;
  start_date = oct_1;
  end_date = none;
  limit_amount = 500_000_000;
  currency = "USD";
}

abbrev pub account : CloudAccount
account = record { id = 7; user_id = 1; team_id = some 1; provider = "aws" }

abbrev pub key : Credential
key = record { id = 3; cloud_account_id = 7; verified = true; display_order = 0 }

-- 79.95 dollars on 10 September.
abbrev pub cost : CloudAccountCost
cost = record {
  cloud_account_id = 7;
  provider = "aws";
  service = some "AmazonEC2";
  charge_category = usage;
  amount = pos 79_950_000;
  currency = "USD";
  period_start = sep_10;
  period_end = 739870;
  is_estimated = false;
  as_of = 100;
  source = "aws_cost_explorer";
  source_record_key = "7:AmazonEC2:2026-09-10:usage";
}

abbrev pub run : CostIngestionRun
run = record {
  id = 11;
  cloud_account_id = 7;
  trigger_type = auto;
  status = success;
  period_start = sep_1;
  period_end = oct_1;
  requested_at = 90;
  finished_at = some 100;
  api_calls = 1;
  records_replaced = 1;
  error_code = none;
  coverage_basis = some "complete_range";
}

abbrev pub db : Db
db = record {
  users = record { id = 1; normalized_email = "kim@example.com" } ∷ [];
  teams = team ∷ [];
  accounts = account ∷ [];
  credentials = key ∷ [];
  costs = cost ∷ [];
  runs = run ∷ [];
  budgets = yearly ∷ later ∷ [];
  sent = [];
}
