-- ===== src/Sync/Upsert.antt =====
-- backend/app/routers/sync_jobs.py, what is stored of the resources that a listing found, and
-- backend/app/cost/pricing_sync.py, the estimate of their cost. The session does not flush before a
-- query, so that a query does not see the rows that the same item added.
pub mod Exact
pub mod Marked
use multi_cloud_platform.Prelude.{
  ℕ, ◌+◌, String, Bool, true, false, not, ◌&&◌, Option, none, some, List, [], ◌∷◌, ◌++◌, map, find,
  keep_if, length, ◌==◌, str_eq, if◌then◌else◌,
}
use Prim.Native.String.{◌++◌ as ◌+++◌}
use multi_cloud_platform.Prelude.Texts.{TextDict, or_empty, elem_text, has_twice, opt_eq}
use multi_cloud_platform.Models.{CloudAccount, Credential}
use multi_cloud_platform.Pricing.{estimate_monthly_cost_usd}
use multi_cloud_platform.Sync.{
  ServiceCatalog, Metadata, list_price_spec, Resource, DiscoveredResource,
}

-- `resource.cost_source in (None, "list_price_estimate")`
abbrev pub is_overwritable : Option String → Bool
is_overwritable none = true
is_overwritable (some source) = str_eq source "list_price_estimate"

-- `meta["list_price_spec"] = …`
abbrev pub put_spec : TextDict String → TextDict Metadata → TextDict Metadata
put_spec spec meta =
    ("list_price_spec", list_price_spec spec)
    ∷ keep_if (λ pair. not (str_eq pair.0 "list_price_spec")) meta

unfoldable pub with_estimate : Resource → DiscoveredResource → ℕ → Option ℕ → Resource
with_estimate r disc now none =
    if opt_eq r.cost_source (some "list_price_estimate")
    then record r {
      estimated_monthly_cost = none;
      cost_currency = none;
      cost_source = none;
      cost_as_of = none;
    }
    else r
with_estimate r disc now (some estimated) = record r {
  estimated_monthly_cost = some estimated;
  cost_currency = some "USD";
  cost_source = some "list_price_estimate";
  cost_as_of = some now;
  raw_metadata = some (put_spec disc.spec (or_empty r.raw_metadata));
}

unfoldable pub apply_list_price_estimate : Resource → String → DiscoveredResource → ℕ → Resource
apply_list_price_estimate r provider disc now =
    if is_overwritable r.cost_source
    then with_estimate r disc now (estimate_monthly_cost_usd provider disc.service_code disc.spec)
    else r

abbrev pub resource_key : CloudAccount → DiscoveredResource → String
resource_key account disc =
    account.provider +++ (":" +++ (disc.service_code +++ (":" +++ disc.external_resource_id)))

unfoldable pub new_resource :
    CloudAccount → Credential → ServiceCatalog → DiscoveredResource → ℕ → Resource
new_resource account credential service disc now = record {
  cloud_account_id = account.id;
  service_catalog_id = service.id;
  first_collected_by_credential_id = some credential.id;
  last_collected_by_credential_id = some credential.id;
  provider_resource_key = resource_key account disc;
  external_resource_id = disc.external_resource_id;
  original_resource_type = disc.original_resource_type;
  name = disc.name;
  region = disc.region;
  status = disc.status;
  status_changed_at = none;
  estimated_monthly_cost = none;
  cost_currency = none;
  cost_as_of = none;
  cost_source = none;
  tags = disc.tags;
  raw_metadata = none;
  first_seen_at = now;
  last_seen_at = now;
  is_stale = false;
  deleted_at = none;
  last_synced_at = some now;
}

unfoldable pub seen_again : Credential → DiscoveredResource → ℕ → Resource → Resource
seen_again credential disc now r = record r {
  status_changed_at = if opt_eq r.status disc.status then r.status_changed_at else some now;
  last_collected_by_credential_id = some credential.id;
  name = disc.name;
  region = disc.region;
  status = disc.status;
  tags = disc.tags;
  last_seen_at = now;
  last_synced_at = some now;
  is_stale = false;
}

-- The rows of the table, as changed so far, the rows added, and what is counted.
pub record Upsert : Type 0 where
  pub stored : List Resource
  pub added : List Resource
  pub created : ℕ
  pub updated : ℕ
  pub seen_keys : List String

abbrev pub is_at : ℕ → String → Resource → Bool
is_at a key r = r.cloud_account_id == a && str_eq r.provider_resource_key key

-- By the provider of the account and the code of the service.
abbrev pub find_service : CloudAccount → List ServiceCatalog → String → Option ServiceCatalog
find_service account services code =
    find (λ s. str_eq s.provider account.provider && str_eq s.service_code code) services

module _ (account : CloudAccount) (credential : Credential) (now : ℕ) where
  abbrev pub refreshed : DiscoveredResource → Resource → Resource
  refreshed disc r =
      apply_list_price_estimate (seen_again credential disc now r) account.provider disc now

  -- No row of the table has the key.
  unfoldable pub add_resource : Upsert → DiscoveredResource → ServiceCatalog → Upsert
  add_resource u disc service =
      let new : Resource = new_resource account credential service disc now in
      record u {
        added = u.added ++ (apply_list_price_estimate new account.provider disc now ∷ []);
        created = u.created + 1;
        seen_keys = resource_key account disc ∷ u.seen_keys;
      }

  -- The row of the table with the key is refreshed.
  unfoldable pub refresh_resource : Upsert → DiscoveredResource → Upsert
  refresh_resource u disc =
      let key = resource_key account disc in
      record u {
        stored = map (λ r. if is_at account.id key r then refreshed disc r else r) u.stored;
        updated = u.updated + 1;
        seen_keys = key ∷ u.seen_keys;
      }

  -- One resource of a service that the catalogue has.
  unfoldable pub upsert_known : Upsert → DiscoveredResource → ServiceCatalog → Upsert
  upsert_known u disc service =
      elim (find (is_at account.id (resource_key account disc)) u.stored) [
        | none ↦ add_resource u disc service
        | some existing ↦ refresh_resource u disc
      ]

  unfoldable pub upsert_one : List ServiceCatalog → Upsert → DiscoveredResource → Upsert
  upsert_one services u disc = elim (find_service account services disc.service_code) [
    | none ↦ u
    | some service ↦ upsert_known u disc service
  ]

  unfoldable pub upsert_all : List ServiceCatalog → Upsert → List DiscoveredResource → Upsert
  unfolding upsert_one
  upsert_all services u [] = u
  upsert_all services u (disc ∷ rest) = upsert_all services (upsert_one services u disc) rest

  -- `none` is the exception of the flush: two rows added have one key (UNIQUE).
  unfoldable pub flush : Upsert → Option Upsert
  flush u =
      if has_twice (map (λ r. r.provider_resource_key) u.added)
      then none
      else some (record u { stored = u.stored ++ u.added; added = [] })

  unfoldable pub upsert_discovered_resources :
      List ServiceCatalog → List Resource → List DiscoveredResource → Option Upsert
  unfolding upsert_all flush
  upsert_discovered_resources services table discovered =
      let start : Upsert = record {
        stored = table;
        added = [];
        created = 0;
        updated = 0;
        seen_keys = [];
      } in
      flush (upsert_all services start discovered)

abbrev pub is_null : Option ℕ → Bool
is_null none = true
is_null (some at) = false

-- A row of the account that is neither deleted nor stale, and was not seen.
abbrev pub is_missed : ℕ → List String → Resource → Bool
is_missed a seen r =
    r.cloud_account_id == a
    && is_null r.deleted_at
    && not r.is_stale
    && not (elem_text r.provider_resource_key seen)

-- The rows, and how many were marked.
unfoldable pub mark_stale_resources : ℕ → List Resource → List String → List Resource × ℕ
mark_stale_resources a table seen = (
  map (λ r. if is_missed a seen r then record r { is_stale = true } else r) table,
  length (keep_if (is_missed a seen) table),
)
