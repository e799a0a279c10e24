-- ===== src/Scenarios/Collections.antt =====
-- Instances for the collection of costs and the notifications.
use multi_cloud_platform.Prelude.{
  ◌≡◌, ◌⊎◌, refl, inl, inr, true, false, ◌&&◌, ◌*◌, none, some, List, [], ◌∷◌, arith, All, any,
  str_eq, ◌==◌,
}
use multi_cloud_platform.Prelude.Int.{pos, ltb_ℤ}
use multi_cloud_platform.Prelude.Sort.{In, max_by}
use multi_cloud_platform.Models.{CostIngestionRun, Db, usage, is_success, manual, pending}
use multi_cloud_platform.Adapters.{is_demo_account, is_cost_supported, has_credential}
use multi_cloud_platform.Budget.Status.{threshold_percents}
use multi_cloud_platform.Gating.{
  Settings, ingest_enabled, manual_ingest_denial, auto_ingest_allowed, denial, is_account_allowed,
}
use multi_cloud_platform.Gating.Laws.{ingest_enabled-listed}
use multi_cloud_platform.Notify.{
  Notification, is_sent, evaluate_for_account, evaluate_budget_thresholds,
}
use multi_cloud_platform.Notify.Once.{Unique, Grows, IsNew}
use multi_cloud_platform.Notify.Due.{
  evaluate_for_account-Evaluated, evaluate_budget_thresholds_complete,
}
use multi_cloud_platform.Ingest.{
  Outside, CostRow, CostFetchResult, payload, is_replaced, stored_row, replaced, insert_rows,
  has_clash, replace_cost_rows,
}
use multi_cloud_platform.Ingest.Ends.{Settled}
use multi_cloud_platform.Ingest.Replace.{IsExchanged, replace_cost_rows-IsExchanged}
use multi_cloud_platform.Ingest.Daily.{run_daily_ingestion, last_active_run}
use multi_cloud_platform.Ingest.Daily.Unstuck.{
  RequestedBefore, Unstuck, run_daily_ingestion-Unstuck,
}
use multi_cloud_platform.Ingest.Manual.{run_cost_ingestion_run, manual_denial}
use multi_cloud_platform.Ingest.Manual.Closed.{run_cost_ingestion_run-Ended}
use multi_cloud_platform.Ingest.Request.{
  Request, Accepted, accepted, create_cost_ingestion_runs, with_accounts, requested_accounts,
  owned_accounts, run_request, respond, take_accounts, take_account, skip_reason,
  last_manual_success, manual_run,
}
use multi_cloud_platform.Ingest.Request.OneActive.{OneActive}
use multi_cloud_platform.Ingest.Request.Granted.{
  IsGranted, IsOwned, create_cost_ingestion_runs-Fair,
}
use multi_cloud_platform.Scenarios.Budgets.{shown, answer, answer_lem}
use multi_cloud_platform.Scenarios.{sep_1, sep_20, team, account, run, yearly, db}

abbrev row : CostRow
row = record {
  period_start = sep_20;
  period_end = 739880;
  service = some "AmazonS3";
  charge_category = usage;
  amount = pos 5_000_000;
  currency = "USD";
  is_estimated = true;
  source_record_key = "7:AmazonS3:2026-09-20:usage";
}

abbrev answer_of_aws : CostFetchResult
answer_of_aws = record {
  rows = row ∷ [];
  api_calls = 1;
  partial = false;
  error_code = none;
  coverage_basis = "complete_range";
}

-- An hour and more after the run of the example.
abbrev outside : Outside
outside = record {
  now = 9000;
  today = sep_20;
  secret = λ a c. payload "{}";
  fetch = λ a demo secret start end. some answer_of_aws;
  try_lock = λ a. true;
}

abbrev settings : Settings
settings = record {
  cost_ingest_providers = "aws" ∷ "azure" ∷ [];
  cost_auto_ingest_providers = "aws" ∷ [];
  cost_ingest_account_ids = ("azure", 8) ∷ [];
}

-- The database after the replacement.
abbrev exchanged : Db
exchanged = record db { costs = stored_row account "aws_cost_explorer" 9000 row ∷ [] }

exchanged_lem :
    replace_cost_rows outside db account run (row ∷ []) "aws_cost_explorer" ≡ replaced exchanged
unfolding replace_cost_rows insert_rows has_clash is_replaced stored_row
exchanged_lem = refl

replace_cost_rows-IsExchanged_example :
    IsExchanged outside db account run (row ∷ []) "aws_cost_explorer" exchanged
replace_cost_rows-IsExchanged_example =
    replace_cost_rows-IsExchanged outside db exchanged account run (row ∷ []) "aws_cost_explorer"
      (tt, tt) exchanged_lem

run_cost_ingestion_run-Ended_example :
    let after = run_cost_ingestion_run outside settings db 11 in
    Settled 11 db after
    × Unique after.sent
    × ((after.costs ≡ db.costs)
        ⊎ ((x : CostIngestionRun) × In x after.runs × (x.id ≡ 11) × (is_success x.status ≡ true)))
run_cost_ingestion_run-Ended_example =
    run_cost_ingestion_run-Ended outside settings db run tt (inl refl)

run_over : RequestedBefore 9000 db
run_over r (inl e) active = ground (arith, e)
run_over r (inr i) active = absurd i

run_daily_ingestion-Unstuck_example :
    Unstuck db (run_daily_ingestion outside settings db)
    × Unique (run_daily_ingestion outside settings db).sent
run_daily_ingestion-Unstuck_example = run_daily_ingestion-Unstuck outside settings db tt run_over

evaluate_for_account-Evaluated_example :
    let (after, made) = evaluate_for_account db sep_20 account in
    (after ≡ record db { sent = after.sent })
    × (Unique after.sent × Grows db.sent after.sent × All (IsNew db.sent after.sent) made)
evaluate_for_account-Evaluated_example = evaluate_for_account-Evaluated db sep_20 account tt

eight_open : ingest_enabled settings "azure" 8 ≡ true
unfolding ingest_enabled manual_ingest_denial auto_ingest_allowed denial is_account_allowed
eight_open = refl

ingest_enabled-listed_example :
    any (λ e. str_eq e.0 "azure" && e.1 == 8) settings.cost_ingest_account_ids ≡ true
ingest_enabled-listed_example = ingest_enabled-listed settings "azure" 8 refl eight_open

abbrev request : Request
request = record { period_start = some sep_1; period_end = none; cloud_account_ids = some (7 ∷ []) }

abbrev asked : CostIngestionRun
asked = record {
  id = 12;
  cloud_account_id = 7;
  trigger_type = manual;
  status = pending;
  period_start = sep_1;
  period_end = 739880;
  requested_at = 9000;
  finished_at = none;
  api_calls = 0;
  records_replaced = 0;
  error_code = none;
  coverage_basis = none;
}

abbrev granted : Accepted
granted = record { db = record db { runs = asked ∷ run ∷ [] }; items = asked ∷ []; skipped = [] }

granted_lem : create_cost_ingestion_runs outside settings db 1 request ≡ accepted granted
unfolding create_cost_ingestion_runs with_accounts requested_accounts owned_accounts run_request
    respond take_accounts take_account skip_reason last_manual_success last_active_run manual_denial
    manual_ingest_denial denial is_account_allowed is_demo_account is_cost_supported has_credential
    manual_run max_by
granted_lem = refl

create_cost_ingestion_runs-Fair_example :
    (OneActive db → OneActive granted.db)
    × ((item : CostIngestionRun)
        → In item granted.items
        → IsGranted settings db (IsOwned db 1) granted.db item)
create_cost_ingestion_runs-Fair_example =
    create_cost_ingestion_runs-Fair outside settings db 1 request granted granted_lem

evaluate_budget_thresholds_complete_example :
    (r : Db × List Notification) × (evaluate_budget_thresholds db team sep_20 ≡ some r)
    × All
        (λ t. ltb_ℤ (pos 800) (pos (t * 10)) ≡ false → is_sent r.0.sent 1 sep_1 t ≡ true)
        threshold_percents
evaluate_budget_thresholds_complete_example =
    evaluate_budget_thresholds_complete db team sep_20 answer shown yearly (pos 800) tt answer_lem
      refl refl refl refl refl
