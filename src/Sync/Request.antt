-- ===== src/Sync/Request.antt =====
-- backend/app/routers/sync_jobs.py, the requests that begin a job and that cancel one. The ids of
-- accounts are the request's texts as Python's `int` reads them; that reading is `parse_int`.
pub mod Accepted
pub mod OneActive
pub mod Runs
pub mod Interleaved
pub mod Stuck
pub mod Revived
use multi_cloud_platform.Prelude.{
  ℕ, suc, max, String, Bool, true, false, not, ◌&&◌, ◌||◌, Option, none, some, List, [], ◌∷◌, ◌++◌,
  map, find, keep_if, length, any, ◌==◌, if◌then◌else◌, is_nil,
}
use multi_cloud_platform.Prelude.Int.{ℤ, pos, negsuc}
use multi_cloud_platform.Prelude.Sort.{min_by}
use multi_cloud_platform.Models.{
  CloudAccount, Credential, Db, RunStatus, pending, running, cancelled, is_active,
}
use multi_cloud_platform.Ingest.{run_credential}
use multi_cloud_platform.Sync.{ResourceSyncJob, ResourceSyncJobItem, Inventory, Clouds, set_job}
use multi_cloud_platform.Sync.Job.{same_status}

pub data SyncError : Type 0 where
  job_already_running cloud_account_not_found no_account invalid_id : SyncError
  sync_job_not_found job_not_cancellable : SyncError

pub data SyncResult : Type 0 where
  refused : SyncError → SyncResult
  accepted : ℕ → Inventory → SyncResult

abbrev pub eq_ℤ : ℤ → ℤ → Bool
eq_ℤ (pos m) (pos n) = m == n
eq_ℤ (negsuc m) (negsuc n) = m == n
eq_ℤ _ _ = false

abbrev pub elem_ℤ : ℤ → List ℤ → Bool
elem_ℤ i ids = any (eq_ℤ i) ids

-- `len(set(ids))`
abbrev pub count_distinct : List ℤ → ℕ
count_distinct [] = 0
count_distinct (i ∷ ids) = let rest = count_distinct ids in if elem_ℤ i ids then rest else suc rest

-- `_parse_int_list`
abbrev pub parse_int_list : (String → Option ℤ) → List String → Option (List ℤ)
parse_int_list parse_int [] = some []
parse_int_list parse_int (v ∷ values) = elim (parse_int v) [
  | none ↦ none
  | some i ↦ elim (parse_int_list parse_int values) [ none ↦ none | some is ↦ some (i ∷ is) ]
]

-- The user's accounts that have a verified credential.
unfoldable pub verified_accounts : Db → ℕ → List CloudAccount
verified_accounts db user =
    keep_if
      (λ a. a.user_id == user && any (λ c. c.cloud_account_id == a.id && c.verified) db.credentials)
      db.accounts

unfoldable pub named_accounts : Db → ℕ → List ℤ → List CloudAccount
named_accounts db user ids = keep_if (λ a. elem_ℤ (pos a.id) ids && a.user_id == user) db.accounts

abbrev pub next_job_id : List ResourceSyncJob → ℕ
next_job_id [] = 1
next_job_id (j ∷ js) = max (suc j.id) (next_job_id js)

abbrev pub next_item_id : List ResourceSyncJobItem → ℕ
next_item_id [] = 1
next_item_id (i ∷ is) = max (suc i.id) (next_item_id is)

abbrev pub credential_id_of : Option Credential → Option ℕ
credential_id_of none = none
credential_id_of (some c) = some c.id

-- One item for each account, with its first verified credential.
unfoldable pub add_items :
    Db → ℕ → List CloudAccount → List ResourceSyncJobItem → List ResourceSyncJobItem
add_items db job_id [] items = items
add_items db job_id (account ∷ rest) items = add_items db job_id rest (
    items
    ++ (record {
      id = next_item_id items;
      sync_job_id = job_id;
      cloud_account_id = account.id;
      credential_id = credential_id_of (run_credential db account.id);
      provider = account.provider;
      status = pending;
      resources_discovered = 0;
      resources_created = 0;
      resources_updated = 0;
      resources_marked_stale = 0;
      error_code = none;
      error_message = none;
      started_at = none;
      finished_at = none;
    }
        ∷ []))

-- The job and its items; the background run is begun with the job's id.
unfoldable pub add_job : Inventory → ℕ → ℕ → List CloudAccount → Inventory
unfolding add_items
add_job st user now accounts =
    let id = next_job_id st.jobs in
    record st {
      jobs =
          (record {
            id = id;
            user_id = user;
            status = pending;
            requested_at = now;
            started_at = none;
            finished_at = none;
          })
          ∷ st.jobs;
      items = add_items st.db id accounts st.items;
    }

unfoldable pub create_job_for : Inventory → ℕ → ℕ → List CloudAccount → SyncResult
create_job_for st user now accounts =
    if is_nil accounts
    then refused no_account
    else accepted (next_job_id st.jobs) (add_job st user now accounts)

unfoldable pub create_named : Inventory → ℕ → ℕ → Option (List ℤ) → SyncResult
create_named st user now none = refused invalid_id
create_named st user now (some ids) =
    let accounts = named_accounts st.db user ids in
    if length accounts == count_distinct ids
    then create_job_for st user now accounts
    else refused cloud_account_not_found

unfoldable pub create_requested :
    (String → Option ℤ) → Inventory → ℕ → ℕ → Option (List String) → SyncResult
create_requested parse_int st user now none =
    create_job_for st user now (verified_accounts st.db user)
create_requested parse_int st user now (some values) =
    create_named st user now (parse_int_list parse_int values)

abbrev pub has_active_job : Inventory → ℕ → Bool
has_active_job st user = any (λ j. j.user_id == user && is_active j.status) st.jobs

unfoldable pub create_sync_job :
    (String → Option ℤ) → Inventory → ℕ → ℕ → Option (List String) → SyncResult
create_sync_job parse_int st user now requested =
    if has_active_job st user
    then refused job_already_running
    else create_requested parse_int st user now requested

-- The items that have not begun are cancelled with a job that has not.
unfoldable pub cancel_pending : Inventory → ℕ → ℕ → Inventory
cancel_pending st id now =
    let after = set_job st id (λ j. record j { status = cancelled; finished_at = some now }) in
    record after {
      items =
          map
            (λ i.
              if i.sync_job_id == id && same_status i.status pending
              then record i { status = cancelled }
              else i)
            after.items;
    }

unfoldable pub cancel_owned : Inventory → ℕ → ResourceSyncJob → SyncResult
cancel_owned st now job =
    if not (is_active job.status)
    then refused job_not_cancellable
    else if same_status job.status pending
    then accepted job.id (cancel_pending st job.id now)
    else accepted job.id (record st { cancel_requested = job.id ∷ st.cancel_requested })

-- `_get_owned_job`
unfoldable pub get_owned_job : Inventory → ℕ → ℕ → Option ResourceSyncJob
get_owned_job st user id = find (λ j. j.id == id && j.user_id == user) st.jobs

unfoldable pub cancel_sync_job : Inventory → ℕ → ℕ → ℕ → SyncResult
cancel_sync_job st user now id = elim (get_owned_job st user id) [
  | none ↦ refused sync_job_not_found
  | some job ↦ cancel_owned st now job
]
