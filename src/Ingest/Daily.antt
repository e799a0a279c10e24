-- ===== src/Ingest/Daily.antt =====
-- backend/app/cost/scheduler.py: the daily collection. The review for jumps of cost, which follows the
-- collection, writes only to tables of its own (Review.antt), and is no part of it here.
pub mod Unstuck
use multi_cloud_platform.Prelude.{
  ℕ, zero, suc, ◌+◌, ◌-◌, min, max, Bool, true, false, ◌&&◌, ◌||◌, Option, none, some, List, [],
  ◌∷◌, ◌==◌, if◌then◌else◌, keep_if,
}
use multi_cloud_platform.Prelude.Sort.{max_by}
use multi_cloud_platform.Calendar.{Date, date, year, month}
use multi_cloud_platform.Models.{
  auto, running, CloudAccount, CostIngestionRun, Credential, Db, is_active,
}
use multi_cloud_platform.Adapters.{is_cost_supported, has_credential, is_demo_account}
use multi_cloud_platform.Gating.{Settings, auto_ingest_allowed}
use multi_cloud_platform.Ingest.{Outside, run_credential, collect, finalize_interrupted_run}

unfoldable pub auto_period : Date → Date × Date
auto_period today = (min (date (year today) (month today) 1) (today - 3), today + 1)

unfoldable pub last_active_run : Db → ℕ → Option CostIngestionRun
last_active_run db a =
    max_by (λ r. (r.requested_at, 0))
      (keep_if (λ r. r.cloud_account_id == a && is_active r.status) db.runs)

-- The id that the database gives to the next run.
abbrev pub next_id : List CostIngestionRun → ℕ
next_id [] = 1
next_id (r ∷ rs) = max (suc r.id) (next_id rs)

unfoldable pub auto_run : Outside → Db → CloudAccount → Date → Date → CostIngestionRun
auto_run o db account start end = record {
  id = next_id db.runs;
  cloud_account_id = account.id;
  trigger_type = auto;
  status = running;
  period_start = start;
  period_end = end;
  requested_at = o.now;
  finished_at = none;
  api_calls = 0;
  records_replaced = 0;
  error_code = none;
  coverage_basis = none;
}

-- From the credential on.
unfoldable pub start_run : Outside → Db → CloudAccount → Date → Date → Option Credential → Db × Bool
start_run o db account start end none = (db, false)
start_run o db account start end (some credential) =
    let run = auto_run o db account start end in
    collect o (record db { runs = run ∷ db.runs }) account run credential

-- The database, as far as it was committed, and whether an exception is raised.
unfoldable pub run_single_account : Outside → Db → CloudAccount → Date → Date → Db × Bool
run_single_account o db account start end =
    if is_demo_account db account || is_cost_supported account.provider
    then start_run o db account start end (run_credential db account.id)
    else (db, false)

-- The handler of an exception.
unfoldable pub finalize_stuck : Outside → Db → Option CostIngestionRun → Db
finalize_stuck o db none = db
finalize_stuck o db (some stuck) = (finalize_interrupted_run o db stuck.id).0

-- The body of the loop, for an account that is collected daily.
unfoldable pub run_account : Outside → Date → Date → Db → CloudAccount → Db
run_account o start end db account =
    let (after, raised) = run_single_account o db account start end in
    if raised then finalize_stuck o after (last_active_run after account.id) else after

unfoldable pub is_due : Settings → Db → CloudAccount → Bool
is_due settings db account =
    is_cost_supported account.provider
    && (auto_ingest_allowed settings account.provider account.id || is_demo_account db account)

unfoldable pub run_accounts : Outside → Settings → Date → Date → List CloudAccount → Db → Db
run_accounts o settings start end [] db = db
run_accounts o settings start end (account ∷ accounts) db =
    run_accounts o settings start end accounts
      (if is_due settings db account then run_account o start end db account else db)

unfoldable pub run_daily_ingestion : Outside → Settings → Db → Db
run_daily_ingestion o settings db =
    let (start, end) = auto_period o.today in
    run_accounts o settings start end
      (keep_if (λ a. is_cost_supported a.provider && has_credential db a.id) db.accounts) db
