-- ===== src/Sync/Job.antt =====
-- backend/app/routers/sync_jobs.py, the run of a job in the background. Nothing catches a raised exception:
-- it ends the run. Whether the job is asked to be cancelled is read once before each item and once after
-- the last; `is_cancelled` has the answers.
pub mod Ended
pub mod Finished
pub mod Aggregate
use multi_cloud_platform.Prelude.{
  ℕ, ◌+◌, String, Bool, true, false, not, ◌&&◌, Option, none, some, List, [], ◌∷◌, map, find,
  keep_if, length, ◌==◌, str_eq, if◌then◌else◌, any, all, is_nil,
}
use multi_cloud_platform.Prelude.Sort.{sort_by}
use multi_cloud_platform.Models.{
  RunStatus, pending, running, success, partial_success, failed, cancelled,
}
use multi_cloud_platform.Sync.{
  ResourceSyncJob, ResourceSyncJobItem, SyncNotification, Inventory, Clouds, set_job, set_item,
}
use multi_cloud_platform.Sync.Item.{process_sync_item}

abbrev pub same_status : RunStatus → RunStatus → Bool
same_status pending pending = true
same_status running running = true
same_status success success = true
same_status partial_success partial_success = true
same_status failed failed = true
same_status cancelled cancelled = true
same_status _ _ = false

abbrev pub has_status : RunStatus → List RunStatus → Bool
has_status s ss = any (same_status s) ss

-- Of the items of a job, or of those of one provider.
unfoldable pub aggregate_status : List RunStatus → RunStatus
aggregate_status statuses =
    if is_nil statuses
    then success
    else if has_status running statuses
    then running
    else if all (same_status pending) statuses
    then pending
    else if has_status pending statuses
    then running
    else if all (same_status cancelled) statuses
    then cancelled
    else if has_status failed statuses && has_status success statuses
    then partial_success
    else if has_status failed statuses
    then failed
    else success

unfoldable pub cancel_item : Inventory → ResourceSyncJobItem → Inventory
cancel_item st item = set_item st item.id (λ i. record i { status = cancelled })

abbrev pub go_on : (Inventory → Inventory × Bool) → Inventory × Bool → Inventory × Bool
go_on next (st, crashed) = if crashed then (st, true) else next st

unfoldable pub run_item : Clouds → Bool → Inventory → ResourceSyncJobItem → Inventory × Bool
run_item o is_cancelled st item =
    if is_cancelled
    then (cancel_item st item, false)
    else process_sync_item o st item (find (λ a. a.id == item.cloud_account_id) st.db.accounts)

-- The items from the `k`-th on.
unfoldable pub run_items :
    Clouds → (ℕ → Bool) → Inventory → ℕ → List ResourceSyncJobItem → Inventory × Bool
unfolding run_item
run_items o is_cancelled st k [] = (st, false)
run_items o is_cancelled st k (item ∷ rest) =
    go_on (λ after. run_items o is_cancelled after (k + 1) rest)
      (run_item o (is_cancelled k) st item)

-- By id.
unfoldable pub job_items : Inventory → ℕ → List ResourceSyncJobItem
job_items st job_id = sort_by (λ i. (i.id, 0)) (keep_if (λ i. i.sync_job_id == job_id) st.items)

abbrev pub total : (ResourceSyncJobItem → ℕ) → List ResourceSyncJobItem → ℕ
total f [] = 0
total f (i ∷ is) = f i + total f is

-- The message of the first failed item, where it has one.
abbrev pub first_reason : List ResourceSyncJobItem → Option String
first_reason [] = none
first_reason (i ∷ is) = elim i.error_message [
  | none ↦ none
  | some message ↦ if str_eq message "" then none else some message
]

unfoldable pub sync_notification : ResourceSyncJob → List ResourceSyncJobItem → SyncNotification
sync_notification job items =
    let failed_items = keep_if (λ i. same_status i.status failed) items in
    let is_failed = same_status job.status failed in
    record {
      user_id = job.user_id;
      type = if is_failed then "resource_sync_failed" else "resource_sync_succeeded";
      reference_id = job.id;
      discovered = total (λ i. i.resources_discovered) items;
      created = total (λ i. i.resources_created) items;
      updated = total (λ i. i.resources_updated) items;
      reason = if is_failed then first_reason failed_items else none;
      failed_count =
          if same_status job.status partial_success then some (length failed_items) else none;
    }

abbrev pub statuses_of : List ResourceSyncJobItem → List RunStatus
statuses_of items = map (λ i. i.status) items

abbrev pub end_as : RunStatus → ℕ → ResourceSyncJob → ResourceSyncJob
end_as status now j = record j { status = status; finished_at = some now }

-- After the last item.
unfoldable pub end_job : Clouds → Bool → Inventory → ResourceSyncJob → Inventory
end_job o true st job =
    set_job
      (record st { cancel_requested = keep_if (λ id. not (id == job.id)) st.cancel_requested })
      job.id (end_as cancelled o.now)
end_job o false st job =
    let items = job_items st job.id in
    let status = aggregate_status (statuses_of items) in
    set_job
      (record st {
        notices = sync_notification (record job { status = status }) items ∷ st.notices;
      })
      job.id (end_as status o.now)

-- The first commit of a run: from here on the job counts as running.
abbrev pub begin_job : Clouds → Inventory → ResourceSyncJob → Inventory
begin_job o st job = set_job st job.id (λ j. record j { status = running; started_at = some o.now })

unfoldable pub run_found :
    Clouds → (ℕ → Bool) → Inventory → Option ResourceSyncJob → Inventory × Bool
run_found o is_cancelled st none = (st, false)
run_found o is_cancelled st (some job) =
    let started = begin_job o st job in
    let items = job_items started job.id in
    go_on (λ after. (end_job o (is_cancelled (length items)) after job, false))
      (run_items o is_cancelled started 0 items)

-- `_run_sync_job_inner`; the database, as far as it was committed, and whether an exception is raised.
unfoldable pub run_sync_job : Clouds → (ℕ → Bool) → Inventory → ℕ → Inventory × Bool
run_sync_job o is_cancelled st id = run_found o is_cancelled st (find (λ j. j.id == id) st.jobs)
