-- ===== src/Ingest.antt =====
-- backend/app/cost/ingest.py and cost/base.py, and the steps that the daily collection
-- (cost/scheduler.py) and the one by hand (routers/costs.py) have in common: the secret, the adapter's
-- answer, and how a run ends. The adapters, decryption, the token service, the clock and the advisory
-- lock are the fields of `Outside`.
pub mod Keys
pub mod Replace
pub mod Ends
pub mod Interrupted
pub mod Daily
pub mod Manual
pub mod Request
use multi_cloud_platform.Prelude.{
  ℕ, String, Bool, true, false, ◌&&◌, ◌||◌, Option, none, some, List, [], ◌∷◌, ◌++◌, map, ltb, leb,
  ◌==◌, str_eq, any, if◌then◌else◌, keep_if, find, length, not,
}
use multi_cloud_platform.Prelude.Int.{ℤ}
use multi_cloud_platform.Prelude.Sort.{min_by}
use multi_cloud_platform.Calendar.{Date}
use multi_cloud_platform.Models.{
  ChargeCategory, RunStatus, success, partial_success, failed, CloudAccount, CloudAccountCost,
  CostIngestionRun, Credential, Db, is_active,
}
use multi_cloud_platform.Adapters.{is_demo_account, demo_cost_source, cost_source_for}
use multi_cloud_platform.Coverage.{Basis, complete_range, observed_only, resolve_basis}
use multi_cloud_platform.Notify.{evaluate_for_account}

pub record CostRow : Type 0 where
  pub period_start : Date
  pub period_end : Date
  pub service : Option String
  pub charge_category : ChargeCategory
  pub amount : ℤ
  pub currency : String
  pub is_estimated : Bool
  pub source_record_key : String

pub record CostFetchResult : Type 0 where
  pub rows : List CostRow
  pub api_calls : ℕ
  pub partial : Bool
  pub error_code : Option String
  pub coverage_basis : String

-- A decrypted and resolved secret, the error code of a refusal, or another exception.
pub data Secret : Type 0 where
  payload : String → Secret
  refused : String → Secret
  crashed : Secret

-- `fetch` has the account, whether it is a demo, the secret and the period; `none` is an exception.
pub record Outside : Type 0 where
  pub now : ℕ
  pub today : Date
  pub secret : CloudAccount → Credential → Secret
  pub fetch : CloudAccount → Bool → String → Date → Date → Option CostFetchResult
  pub try_lock : ℕ → Bool

-- `error_code in NOT_STARTED_ERROR_CODES`
abbrev pub is_not_started : Option String → Bool
is_not_started none = false
is_not_started (some code) =
    str_eq code "COST_SETUP_REQUIRED"
    || str_eq code "CLOUD_PERMISSION_DENIED"
    || str_eq code "PROVIDER_AUTHENTICATION_FAILED"

-- The filter of the DELETE.
unfoldable pub is_replaced : ℕ → Date → Date → String → CloudAccountCost → Bool
is_replaced a start end source r =
    r.cloud_account_id == a
    && leb start r.period_start
    && ltb r.period_start end
    && str_eq r.source source

unfoldable pub stored_row : CloudAccount → String → ℕ → CostRow → CloudAccountCost
stored_row account source as_of row = record {
  cloud_account_id = account.id;
  provider = account.provider;
  service = row.service;
  charge_category = row.charge_category;
  amount = row.amount;
  currency = row.currency;
  period_start = row.period_start;
  period_end = row.period_end;
  is_estimated = row.is_estimated;
  as_of = as_of;
  source = source;
  source_record_key = row.source_record_key;
}

-- UNIQUE (provider, source_record_key)
abbrev pub is_same_key : CloudAccountCost → CloudAccountCost → Bool
is_same_key r x = str_eq r.provider x.provider && str_eq r.source_record_key x.source_record_key

unfoldable pub has_clash : List CloudAccountCost → List CloudAccountCost → Bool
has_clash [] kept = false
has_clash (r ∷ rs) kept = any (is_same_key r) kept || any (is_same_key r) rs || has_clash rs kept

-- CHECK (period_end > period_start)
abbrev pub is_empty_period : CloudAccountCost → Bool
is_empty_period r = leb r.period_end r.period_start

-- `locked` is `AccountLockedError`; `violated` is the `IntegrityError` of the INSERTs.
pub data Replacement : Type 0 where
  locked violated : Replacement
  replaced : Db → Replacement

unfoldable pub insert_rows : Db → List CloudAccountCost → List CloudAccountCost → Replacement
insert_rows db kept new =
    if any is_empty_period new || has_clash new kept
    then violated
    else replaced (record db { costs = kept ++ new })

unfoldable pub replace_cost_rows :
    Outside → Db → CloudAccount → CostIngestionRun → List CostRow → String → Replacement
replace_cost_rows o db account run rows source =
    if o.try_lock account.id
    then insert_rows db
        (keep_if (λ r. not (is_replaced account.id run.period_start run.period_end source r))
          db.costs)
        (map (stored_row account source o.now) rows)
    else locked

-- The UPDATE of one run.
unfoldable pub set_run : Db → ℕ → (CostIngestionRun → CostIngestionRun) → Db
set_run db id f = record db { runs = map (λ r. if r.id == id then f r else r) db.runs }

-- A run that is left with an error.
abbrev pub finish : RunStatus → Option String → ℕ → CostIngestionRun → CostIngestionRun
finish status code now r = record r { status = status; error_code = code; finished_at = some now }

unfoldable pub fail_run : Outside → Db → ℕ → String → Db
fail_run o db id code = set_run db id (finish failed (some code) o.now)

-- With whether the run was ended.
unfoldable pub finalize_found : Outside → Db → ℕ → Option CostIngestionRun → Db × Bool
finalize_found o db id none = (db, false)
finalize_found o db id (some run) =
    if is_active run.status then (fail_run o db id "INTERNAL_ERROR", true) else (db, false)

unfoldable pub finalize_interrupted_run : Outside → Db → ℕ → Db × Bool
finalize_interrupted_run o db id = finalize_found o db id (find (λ r. r.id == id) db.runs)

abbrev pub basis_text : Basis → String
basis_text complete_range = "complete_range"
basis_text observed_only = "observed_only"

-- A partial answer is not stored.
unfoldable pub end_partial : Outside → Db → ℕ → CostFetchResult → Db
end_partial o db id result = set_run db id (λ r.
    finish (if is_not_started result.error_code then failed else partial_success) result.error_code
      o.now (record r { api_calls = result.api_calls }))

-- The rows are stored and the run has succeeded, in one transaction.
unfoldable pub end_success : Outside → Db → ℕ → CloudAccount → CostFetchResult → Db
end_success o db id account result = set_run db id (λ r. record r {
  status = success;
  api_calls = result.api_calls;
  records_replaced = length result.rows;
  coverage_basis = some (basis_text (resolve_basis (some result.coverage_basis) account.provider));
  finished_at = some o.now;
})

abbrev pub source_of : Db → CloudAccount → String
source_of db account =
    if is_demo_account db account then demo_cost_source else cost_source_for account.provider

-- A lock that is held rolls back what was changed since the last commit, and so does a constraint that
-- refuses the rows, which raises.
unfoldable pub settle_replaced :
    Outside → Db → CloudAccount → CostIngestionRun → CostFetchResult → Replacement → Db × Bool
settle_replaced o db account run result locked = (fail_run o db run.id "JOB_ALREADY_RUNNING", false)
settle_replaced o db account run result violated = (db, true)
settle_replaced o db account run result (replaced stored) =
    ((evaluate_for_account (end_success o stored run.id account result) o.today account).0, false)

-- From the adapter's answer on.
unfoldable pub settle : Outside → Db → CloudAccount → CostIngestionRun → CostFetchResult → Db × Bool
settle o db account run result =
    if result.partial
    then (end_partial o db run.id result, false)
    else settle_replaced o db account run result
        (replace_cost_rows o db account run result.rows (source_of db account))

-- The first verified credential.
unfoldable pub run_credential : Db → ℕ → Option Credential
run_credential db a =
    min_by (λ c. (c.display_order, c.id))
      (keep_if (λ c. c.cloud_account_id == a && c.verified) db.credentials)

abbrev pub secret_for : Outside → Db → CloudAccount → Credential → Secret
secret_for o db account credential =
    if is_demo_account db account then payload "{}" else o.secret account credential

unfoldable pub fetch_and_settle :
    Outside → Db → CloudAccount → CostIngestionRun → Secret → Db × Bool
fetch_and_settle o db account run crashed = (db, true)
fetch_and_settle o db account run (refused code) = (fail_run o db run.id code, false)
fetch_and_settle o db account run (payload p) =
    elim (o.fetch account (is_demo_account db account) p run.period_start run.period_end) [
      | none ↦ (db, true)
      | some result ↦ settle o db account run result
    ]

-- What follows once the run is committed as running: the database, as far as it was committed, and whether
-- an exception is raised.
unfoldable pub collect : Outside → Db → CloudAccount → CostIngestionRun → Credential → Db × Bool
collect o db account run credential =
    fetch_and_settle o db account run (secret_for o db account credential)
