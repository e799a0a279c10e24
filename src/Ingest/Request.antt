-- ===== src/Ingest/Request.antt =====
-- backend/app/routers/costs.py, `create_cost_ingestion_runs`: the request for collections by hand. The
-- dates and ids of the body are taken as parsed; times count seconds.
pub mod Granted
pub mod OneActive
use multi_cloud_platform.Prelude.{
  ℕ, ◌+◌, Bool, true, false, not, ◌&&◌, ◌||◌, Option, none, some, List, [], ◌∷◌, ◌++◌, ltb, leb,
  ◌==◌, if◌then◌else◌, keep_if, length, is_nil, all, any, elem,
}
use multi_cloud_platform.Prelude.Sort.{max_by}
use multi_cloud_platform.Calendar.{Date, date, year, month}
use multi_cloud_platform.Models.{
  manual, pending, CloudAccount, CostIngestionRun, Db, is_active, is_manual, is_success,
}
use multi_cloud_platform.Adapters.{is_cost_supported, has_credential}
use multi_cloud_platform.Coverage.{saved_key, after_all}
use multi_cloud_platform.Gating.{Settings, Denial}
use multi_cloud_platform.Ingest.{Outside}
use multi_cloud_platform.Ingest.Daily.{next_id, last_active_run}
use multi_cloud_platform.Ingest.Manual.{manual_denial}

pub record Request : Type 0 where
  pub period_start : Option Date
  pub period_end : Option Date
  pub cloud_account_ids : Option (List ℕ)

-- The reasons of a skipped account; a limited one has the time from which it may be asked for again.
pub data Skip : Type 0 where
  job_already_running unsupported : Skip
  denied : Denial → Skip
  rate_limited : ℕ → Skip

pub data RequestError : Type 0 where
  invalid_range too_many account_not_found no_accounts : RequestError
  all_rate_limited all_already_running : RequestError

-- The database and what became of the accounts.
pub record Accepted : Type 0 where
  pub db : Db
  pub items : List CostIngestionRun
  pub skipped : List (CloudAccount × Skip)

pub data Response : Type 0 where
  rejected : RequestError → Response
  accepted : Accepted → Response

abbrev pub manual_rate_limit : ℕ
manual_rate_limit = 3600

abbrev pub max_account_ids : ℕ
max_account_ids = 20

-- `ORDER BY finished_at DESC`, where NULL comes first.
unfoldable pub last_manual_success : Db → ℕ → Option CostIngestionRun
last_manual_success db a =
    max_by (λ r. ((saved_key (after_all db.runs) r).0, 0))
      (keep_if (λ r. r.cloud_account_id == a && is_manual r.trigger_type && is_success r.status)
        db.runs)

abbrev pub finished : Option CostIngestionRun → Option ℕ
finished none = none
finished (some r) = r.finished_at

abbrev pub limit_after : ℕ → Option ℕ → Option Skip
limit_after now none = none
limit_after now (some t) =
    if ltb now (t + manual_rate_limit) then some (rate_limited (t + manual_rate_limit)) else none

abbrev pub is_running_already : Option CostIngestionRun → Bool
is_running_already none = false
is_running_already (some r) = true

abbrev pub denied_or : Option Denial → Option Skip → Option Skip
denied_or none later = later
denied_or (some d) later = some (denied d)

-- The guards of the loop, in their order.
unfoldable pub skip_reason : Outside → Settings → Db → CloudAccount → Option Skip
skip_reason o settings db account =
    if is_running_already (last_active_run db account.id)
    then some job_already_running
    else if not (is_cost_supported account.provider)
    then some unsupported
    else denied_or (manual_denial settings db account)
        (limit_after o.now (finished (last_manual_success db account.id)))

unfoldable pub manual_run : Outside → Db → CloudAccount → Date → Date → CostIngestionRun
manual_run o db account start end = record {
  id = next_id db.runs;
  cloud_account_id = account.id;
  trigger_type = manual;
  status = pending;
  period_start = start;
  period_end = end;
  requested_at = o.now;
  finished_at = none;
  api_calls = 0;
  records_replaced = 0;
  error_code = none;
  coverage_basis = none;
}

-- The body of the loop, after its guards.
unfoldable pub take_account :
    Outside → Date → Date → CloudAccount → Option Skip → Accepted → Accepted
take_account o start end account none so_far =
    let run = manual_run o so_far.db account start end in
    record so_far {
      db = record so_far.db { runs = run ∷ so_far.db.runs };
      items = so_far.items ++ run ∷ [];
    }
take_account o start end account (some why) so_far = record so_far {
  skipped = so_far.skipped ++ (account, why) ∷ [];
}

-- The loop.
unfoldable pub take_accounts :
    Outside → Settings → Date → Date → List CloudAccount → Accepted → Accepted
take_accounts o settings start end [] so_far = so_far
take_accounts o settings start end (account ∷ accounts) so_far =
    take_accounts o settings start end accounts
      (take_account o start end account (skip_reason o settings so_far.db account) so_far)

abbrev pub is_rate_limited : Skip → Bool
is_rate_limited (rate_limited t) = true
is_rate_limited _ = false

abbrev pub is_already_running : Skip → Bool
is_already_running job_already_running = true
is_already_running _ = false

-- `reasons == {reason}`
abbrev pub only : (Skip → Bool) → List (CloudAccount × Skip) → Bool
only p [] = false
only p (s ∷ ss) = all (λ x. p x.1) (s ∷ ss)

-- What an outcome is answered with; the refusals roll back.
unfoldable pub respond : Accepted → Response
respond result =
    if not (is_nil result.items)
    then accepted result
    else if only is_rate_limited result.skipped
    then rejected all_rate_limited
    else if only is_already_running result.skipped
    then rejected all_already_running
    else accepted result

abbrev pub or_default : Option Date → Date → Date
or_default none d = d
or_default (some x) d = x

-- The accounts that the user owns and that have a credential.
unfoldable pub owned_accounts : Db → ℕ → List CloudAccount
owned_accounts db user_id =
    keep_if (λ a. a.user_id == user_id && has_credential db a.id) db.accounts

abbrev pub distinct : List ℕ → List ℕ
distinct [] = []
distinct (n ∷ ns) = let rest = distinct ns in if elem n ns then rest else n ∷ rest

-- The accounts asked for, where each of the ids is an account of the user.
unfoldable pub requested_accounts : Db → ℕ → List ℕ → Option (List CloudAccount)
requested_accounts db user_id ids =
    let accounts = keep_if (λ a. elem a.id ids) (owned_accounts db user_id) in
    if length accounts == length (distinct ids) then some accounts else none

-- From the accounts on.
unfoldable pub run_request :
    Outside → Settings → Db → Date → Date → Option (List CloudAccount) → Response
run_request o settings db start end none = rejected account_not_found
run_request o settings db start end (some accounts) =
    if is_nil accounts
    then rejected no_accounts
    else respond
        (take_accounts o settings start end accounts (record { db = db; items = []; skipped = [] }))

unfoldable pub with_accounts :
    Outside → Settings → Db → ℕ → Date → Date → Option (List ℕ) → Response
with_accounts o settings db user_id start end none =
    run_request o settings db start end (some (owned_accounts db user_id))
with_accounts o settings db user_id start end (some ids) =
    if ltb max_account_ids (length ids)
    then rejected too_many
    else run_request o settings db start end (requested_accounts db user_id ids)

-- For the user who asks, with the period from the first of the month through today where none is given.
unfoldable pub create_cost_ingestion_runs : Outside → Settings → Db → ℕ → Request → Response
create_cost_ingestion_runs o settings db user_id request =
    let start = or_default request.period_start (date (year o.today) (month o.today) 1) in
    let end = or_default request.period_end (o.today + 1) in
    if leb end start
    then rejected invalid_range
    else with_accounts o settings db user_id start end request.cloud_account_ids
