-- ===== src/Sync.antt =====
-- The tables of the resource synchronisation (backend/app/models.py), what the providers' listings
-- return (backend/app/resource_sync.py), and what lies outside (`Clouds`): decryption, the issue of
-- temporary secrets, the listings themselves, and the clock, which is read once for an item.
pub mod Upsert
pub mod Item
pub mod Job
pub mod Request
use multi_cloud_platform.Prelude.{
  ℕ, String, Bool, ◌||◌, Option, none, some, List, [], str_eq, if◌then◌else◌, map, ◌==◌,
}
use multi_cloud_platform.Prelude.Texts.{TextDict}
use multi_cloud_platform.Models.{CloudAccount, Credential, Db, RunStatus}

pub record ServiceCatalog : Type 0 where
  pub id : ℕ
  pub provider : String
  pub service_code : String

-- A value of `raw_metadata`: the basis of an estimate, or another one as text.
pub data Metadata : Type 0 where
  list_price_spec : TextDict String → Metadata
  other_value : String → Metadata

pub record Resource : Type 0 where
  pub cloud_account_id : ℕ
  pub service_catalog_id : ℕ
  pub first_collected_by_credential_id : Option ℕ
  pub last_collected_by_credential_id : Option ℕ
  pub provider_resource_key : String
  pub external_resource_id : String
  pub original_resource_type : String
  pub name : Option String
  pub region : Option String
  pub status : Option String
  pub status_changed_at : Option ℕ
  pub estimated_monthly_cost : Option ℕ
  pub cost_currency : Option String
  pub cost_as_of : Option ℕ
  pub cost_source : Option String
  pub tags : TextDict String
  pub raw_metadata : Option (TextDict Metadata)
  pub first_seen_at : ℕ
  pub last_seen_at : ℕ
  pub is_stale : Bool
  pub deleted_at : Option ℕ
  pub last_synced_at : Option ℕ

pub record ResourceSyncJob : Type 0 where
  pub id : ℕ
  pub user_id : ℕ
  pub status : RunStatus
  pub requested_at : ℕ
  pub started_at : Option ℕ
  pub finished_at : Option ℕ

pub record ResourceSyncJobItem : Type 0 where
  pub id : ℕ
  pub sync_job_id : ℕ
  pub cloud_account_id : ℕ
  pub credential_id : Option ℕ
  pub provider : String
  pub status : RunStatus
  pub resources_discovered : ℕ
  pub resources_created : ℕ
  pub resources_updated : ℕ
  pub resources_marked_stale : ℕ
  pub error_code : Option String
  pub error_message : Option String
  pub started_at : Option ℕ
  pub finished_at : Option ℕ

-- A row of the inbox about a job, with the parameters of its message.
pub record SyncNotification : Type 0 where
  pub user_id : ℕ
  pub type : String
  pub reference_id : ℕ
  pub discovered : ℕ
  pub created : ℕ
  pub updated : ℕ
  pub reason : Option String
  pub failed_count : Option ℕ

-- The tables, those of the costs among them, and the process's set of jobs to be cancelled.
pub record Inventory : Type 0 where
  pub db : Db
  pub services : List ServiceCatalog
  pub resources : List Resource
  pub jobs : List ResourceSyncJob
  pub items : List ResourceSyncJobItem
  pub notices : List SyncNotification
  pub cancel_requested : List ℕ

pub record DiscoveredResource : Type 0 where
  pub service_code : String
  pub external_resource_id : String
  pub original_resource_type : String
  pub name : Option String
  pub region : Option String
  pub status : Option String
  pub tags : TextDict String
  pub spec : TextDict String

-- What a call comes to: a value, an exception that the caller handles, with its code and message, or
-- another exception.
pub data Answer (A : Type 0) : Type 0 where
  value : A → Answer A
  handled : String → String → Answer A
  raised : Answer A

pub record Clouds : Type 0 where
  pub now : ℕ
  pub decrypt : Credential → Answer String
  pub resolve : String → String → ℕ → Answer String
  pub listing : String → String → CloudAccount → Answer (List DiscoveredResource)

-- `discover_resources`: an exception of a listing that is no `SyncError` becomes one.
unfoldable pub discover_resources :
    Clouds → String → String → CloudAccount → Answer (List DiscoveredResource)
discover_resources o provider secret account =
    if str_eq provider "aws" || str_eq provider "azure" || str_eq provider "gcp"
    then elim (o.listing provider secret account) [
      | value found ↦ value found
      | handled code message ↦ handled code message
      | raised ↦ handled "PROVIDER_API_ERROR" ""
    ]
    else value []

-- The UPDATEs of one row.
unfoldable pub set_job : Inventory → ℕ → (ResourceSyncJob → ResourceSyncJob) → Inventory
set_job st id f = record st { jobs = map (λ j. if j.id == id then f j else j) st.jobs }

unfoldable pub set_item : Inventory → ℕ → (ResourceSyncJobItem → ResourceSyncJobItem) → Inventory
set_item st id f = record st { items = map (λ i. if i.id == id then f i else i) st.items }
