-- ===== src/Ingest/Manual.antt =====
-- backend/app/routers/costs.py, a collection by hand: `_run_cost_ingestion_run_inner`. The notices in the
-- user's inbox about the end of a run are not modelled.
pub mod Closed
use multi_cloud_platform.Prelude.{
  ℕ, Bool, true, false, ◌||◌, not, Option, none, some, ◌==◌, if◌then◌else◌, find,
}
use multi_cloud_platform.Models.{running, CloudAccount, CostIngestionRun, Credential, Db}
use multi_cloud_platform.Adapters.{is_cost_supported, is_demo_account}
use multi_cloud_platform.Gating.{Settings, Denial, denial_text, manual_ingest_denial}
use multi_cloud_platform.Ingest.{
  Outside, set_run, fail_run, run_credential, collect, finalize_interrupted_run,
}

-- `except Exception`
unfoldable pub or_finalize : Outside → ℕ → Db × Bool → Db
or_finalize o id (db, raised) = if raised then (finalize_interrupted_run o db id).0 else db

-- Once the run is committed as running.
unfoldable pub run_with : Outside → Db → CloudAccount → CostIngestionRun → Option Credential → Db
run_with o db account run none = fail_run o db run.id "CLOUD_PERMISSION_DENIED"
run_with o db account run (some credential) =
    or_finalize o run.id (collect o db account run credential)

unfoldable pub mark_running : Db → ℕ → Db
mark_running db id = set_run db id (λ r. record r { status = running })

unfoldable pub run_unless : Outside → Db → CloudAccount → CostIngestionRun → Option Denial → Db
run_unless o db account run (some d) = fail_run o db run.id (denial_text d)
run_unless o db account run none =
    run_with o (mark_running db run.id) account run (run_credential db account.id)

unfoldable pub manual_denial : Settings → Db → CloudAccount → Option Denial
manual_denial settings db account =
    if is_demo_account db account
    then none
    else manual_ingest_denial settings account.provider account.id

unfoldable pub run_for : Outside → Settings → Db → CostIngestionRun → Option CloudAccount → Db
run_for o settings db run none = fail_run o db run.id "UNSUPPORTED"
run_for o settings db run (some account) =
    if is_demo_account db account || is_cost_supported account.provider
    then run_unless o db account run (manual_denial settings db account)
    else fail_run o db run.id "UNSUPPORTED"

unfoldable pub run_cost_ingestion_run : Outside → Settings → Db → ℕ → Db
run_cost_ingestion_run o settings db id = elim (find (λ r. r.id == id) db.runs) [
  | none ↦ db
  | some run ↦ run_for o settings db run (find (λ a. a.id == run.cloud_account_id) db.accounts)
]
