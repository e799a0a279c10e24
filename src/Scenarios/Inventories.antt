-- ===== src/Scenarios/Inventories.antt =====
-- Instances for the synchronisation of resources and the list prices.
use multi_cloud_platform.Prelude.{
  ℕ, ◌≡◌, refl, ap, ◌≤◌, inl, inr, Bool, true, false, none, some, List, [], ◌∷◌, String, Option,
  any,
}
use multi_cloud_platform.Prelude.Int.{ℤ}
use multi_cloud_platform.Prelude.Sort.{sort_by}
use multi_cloud_platform.Prelude.Texts.{TextDict}
use multi_cloud_platform.Prelude.Rounding.{round_half_even}
use multi_cloud_platform.Models.{running, pending, cancelled, success, failed, is_active}
use multi_cloud_platform.Adapters.{is_demo_account}
use multi_cloud_platform.Pricing.{
  estimate_monthly_cost_usd, compute_hourly_usd, table_hourly, hourly_to_monthly,
}
use multi_cloud_platform.Pricing.Amounts.{estimate_monthly_cost_usd-bounds}
use multi_cloud_platform.Sync.{
  ServiceCatalog, Resource, ResourceSyncJob, ResourceSyncJobItem, Inventory, DiscoveredResource,
  value, Clouds, discover_resources, set_job, set_item,
}
use multi_cloud_platform.Sync.Upsert.{
  Upsert, upsert_discovered_resources, mark_stale_resources, flush, upsert_all, upsert_one,
  upsert_known, add_resource, new_resource, apply_list_price_estimate, with_estimate,
}
use multi_cloud_platform.Sync.Upsert.Marked.{
  IsMarked, found_keys, upsert_discovered_resources-IsMarked,
}
use multi_cloud_platform.Sync.Item.{
  process_sync_item, process_credential, process_account, discover_from_csp, list_and_store,
  store_found,
}
use multi_cloud_platform.Sync.Job.{
  run_sync_job, run_found, run_items, run_item, job_items, aggregate_status,
}
use multi_cloud_platform.Sync.Job.Aggregate.{is_outcome, aggregate_status-active}
use multi_cloud_platform.Sync.Job.Finished.{
  Finished, is_terminal, run_sync_job-Finished, run_sync_job-outcome,
}
use multi_cloud_platform.Sync.Request.{
  create_sync_job, create_requested, create_job_for, add_job, verified_accounts, refused, accepted,
  job_already_running,
}
use multi_cloud_platform.Sync.Request.OneActive.{OneActive}
use multi_cloud_platform.Sync.Request.Runs.{Server}
use multi_cloud_platform.Sync.Request.Interleaved.{
  Reach-OneActive, here, next, request, begun, ended,
}
use multi_cloud_platform.Sync.Request.Accepted.{created}
use multi_cloud_platform.Prelude.Sort.{In}
use multi_cloud_platform.Sync.Job.{begin_job, end_job}
use multi_cloud_platform.Sync.Request.Stuck.{run_sync_job-stuck, now}
use multi_cloud_platform.Scenarios.{account, key, db}

abbrev micro : TextDict String
micro = ("instance_type", "t3.micro") ∷ ("region", "us-east-1") ∷ []

micro_lem : estimate_monthly_cost_usd "aws" "ec2" micro ≡ some 7590000
unfolding estimate_monthly_cost_usd compute_hourly_usd table_hourly hourly_to_monthly
    round_half_even
micro_lem = refl

estimate_monthly_cost_usd-bounds_example : (4960000 ≤ 7590000) × (7590000 ≤ 163590000)
estimate_monthly_cost_usd-bounds_example =
    estimate_monthly_cost_usd-bounds "aws" "ec2" micro 7590000 micro_lem

abbrev ec2 : ServiceCatalog
ec2 = record { id = 1; provider = "aws"; service_code = "ec2" }

-- A row that the listing does not have.
abbrev gone : Resource
gone = record {
  cloud_account_id = 7;
  service_catalog_id = 1;
  first_collected_by_credential_id = some 3;
  last_collected_by_credential_id = some 3;
  provider_resource_key = "aws:ec2:i-1";
  external_resource_id = "i-1";
  original_resource_type = "ec2:instance";
  name = none;
  region = none;
  status = some "running";
  status_changed_at = none;
  estimated_monthly_cost = none;
  cost_currency = none;
  cost_as_of = none;
  cost_source = none;
  tags = [];
  raw_metadata = none;
  first_seen_at = 1;
  last_seen_at = 1;
  is_stale = false;
  deleted_at = none;
  last_synced_at = some 1;
}

-- A resource that is new.
abbrev fresh : DiscoveredResource
fresh = record {
  service_code = "ec2";
  external_resource_id = "i-2";
  original_resource_type = "ec2:instance";
  name = some "web";
  region = some "us-east-1";
  status = some "running";
  tags = [];
  spec = micro;
}

abbrev job : ResourceSyncJob
job = record {
  id = 5;
  user_id = 1;
  status = pending;
  requested_at = 90;
  started_at = none;
  finished_at = none;
}

abbrev item : ResourceSyncJobItem
item = record {
  id = 9;
  sync_job_id = 5;
  cloud_account_id = 7;
  credential_id = some 3;
  provider = "aws";
  status = pending;
  resources_discovered = 0;
  resources_created = 0;
  resources_updated = 0;
  resources_marked_stale = 0;
  error_code = none;
  error_message = none;
  started_at = none;
  finished_at = none;
}

abbrev idle : Inventory
idle = record {
  db = db;
  services = ec2 ∷ [];
  resources = gone ∷ [];
  jobs = [];
  items = [];
  notices = [];
  cancel_requested = [];
}

abbrev waiting : Inventory
waiting = record idle { jobs = job ∷ []; items = item ∷ [] }

-- A provider that lists these resources.
abbrev provider_with : List DiscoveredResource → Clouds
provider_with found = record {
  now = 100;
  decrypt = λ c. value "{}";
  resolve = λ p s c. value s;
  listing = λ p s a. value found;
}

abbrev never : ℕ → Bool
never k = false

abbrev nothing : Upsert
nothing = record { stored = []; added = []; created = 0; updated = 0; seen_keys = [] }

abbrev or_nothing : Option Upsert → Upsert
or_nothing none = nothing
or_nothing (some u) = u

abbrev fresh_stored : Upsert
fresh_stored =
    or_nothing (upsert_discovered_resources account key 100 (ec2 ∷ []) (gone ∷ []) (fresh ∷ []))

fresh_stored_lem :
    upsert_discovered_resources account key 100 (ec2 ∷ []) (gone ∷ []) (fresh ∷ [])
    ≡ some fresh_stored
unfolding upsert_discovered_resources upsert_all upsert_one upsert_known add_resource flush
fresh_stored_lem = refl

upsert_discovered_resources-IsMarked_example :
    IsMarked 7
      (found_keys account (ec2 ∷ []) (fresh ∷ []))
      (gone ∷ [])
      (mark_stale_resources 7 fresh_stored.stored fresh_stored.seen_keys).0
upsert_discovered_resources-IsMarked_example =
    upsert_discovered_resources-IsMarked account key 100 (ec2 ∷ []) (gone ∷ []) (fresh ∷ [])
      fresh_stored fresh_stored_lem

-- The job was cancelled before its run began.
abbrev called_off : Inventory
called_off = record waiting {
  jobs = record job { status = cancelled } ∷ [];
  items = record item { status = cancelled } ∷ [];
}

-- A provider that lists one resource twice, whose second row the UNIQUE constraint refuses.
abbrev twice : Clouds
twice = provider_with (fresh ∷ fresh ∷ [])

-- Which of the runs raise an exception.
runs_lem :
    ((run_sync_job (provider_with (fresh ∷ [])) never waiting 5).1 ≡ false)
    × ((run_sync_job (provider_with (fresh ∷ [])) never called_off 5).1 ≡ false)
    × ((run_sync_job twice never waiting 5).1 ≡ true)
unfolding run_sync_job run_found run_items run_item job_items process_sync_item process_credential
    process_account discover_from_csp list_and_store discover_resources store_found
    upsert_discovered_resources upsert_all upsert_one upsert_known add_resource flush set_job
    set_item is_demo_account sort_by apply_list_price_estimate new_resource with_estimate
    estimate_monthly_cost_usd compute_hourly_usd table_hourly
runs_lem = (refl, refl, refl)

run_sync_job-Finished_example :
    Finished is_terminal 5 waiting (run_sync_job (provider_with (fresh ∷ [])) never waiting 5).0
run_sync_job-Finished_example =
    run_sync_job-Finished (provider_with (fresh ∷ [])) never waiting 5 (job, inl refl, refl)
      runs_lem.0

run_sync_job-outcome_example :
    Finished is_outcome 5 called_off
      (run_sync_job (provider_with (fresh ∷ [])) never called_off 5).0
run_sync_job-outcome_example =
    run_sync_job-outcome (provider_with (fresh ∷ [])) never called_off 5 (λ k. refl)
      (record job { status = cancelled }, inl refl, refl) runs_lem.1

abbrev no_ids : String → Option ℤ
no_ids s = none

run_sync_job-stuck_example :
    create_sync_job no_ids (run_sync_job twice never waiting 5).0 1 200 none
    ≡ refused job_already_running
run_sync_job-stuck_example =
    run_sync_job-stuck no_ids twice never waiting job (inl refl) runs_lem.2
      (run_sync_job twice never waiting 5).0 now 200 none

begun_lem : create_sync_job no_ids idle 1 200 none ≡ accepted 1 (add_job idle 1 200 (account ∷ []))
unfolding create_sync_job create_requested create_job_for verified_accounts
begun_lem = refl

-- The job of the request, its run under way, and the end of the run, that is asked to be cancelled.
abbrev requested_job : ResourceSyncJob
requested_job = record {
  id = 1;
  user_id = 1;
  status = pending;
  requested_at = 200;
  started_at = none;
  finished_at = none;
}

abbrev provider : Clouds
provider = provider_with []

abbrev under_way : Server
under_way = record {
  tables = begin_job provider (add_job idle 1 200 (account ∷ [])) requested_job;
  runs = 1 ∷ [];
}

abbrev running_job : ResourceSyncJob
running_job = record requested_job { status = running; started_at = some provider.now }

requested_job-In : In requested_job (add_job idle 1 200 (account ∷ [])).jobs
unfolding add_job
requested_job-In = inl refl

only_requested :
    (j : ResourceSyncJob)
    → In j (add_job idle 1 200 (account ∷ [])).jobs
    → j.id ≡ requested_job.id
    → j.status ≡ pending
unfolding add_job
only_requested j (inl e) h = ap (λ z. z.status) e
only_requested j (inr i) h = absurd i

running_job-In : In running_job under_way.tables.jobs
unfolding add_job set_job
running_job-In = inl refl

Reach-OneActive_example : OneActive (end_job provider true under_way.tables running_job)
Reach-OneActive_example =
    Reach-OneActive no_ids idle
      (record { tables = end_job provider true under_way.tables running_job; runs = [] })
      (λ j k i. absurd i)
      (next under_way _
        (next (record { tables = add_job idle 1 200 (account ∷ []); runs = [] }) under_way
          (next (record { tables = idle; runs = [] }) _ here
            (request (add_job idle 1 200 (account ∷ []))
              (created 1 200 none 1 (add_job idle 1 200 (account ∷ [])) begun_lem)))
          (begun provider requested_job requested_job-In only_requested))
        (ended provider true running_job (inl refl) running_job-In))

aggregate_status-active_example :
    is_active (aggregate_status (success ∷ pending ∷ failed ∷ []))
    ≡ any is_active (success ∷ pending ∷ failed ∷ [])
aggregate_status-active_example = aggregate_status-active (success ∷ pending ∷ failed ∷ [])
