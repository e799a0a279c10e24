-- ===== src/Sync/Item.antt =====
-- backend/app/routers/sync_jobs.py, the work for one item of a job, which is one account. A raised
-- exception leaves what was committed before; the Boolean says whether one is raised.
pub mod Outcome
use multi_cloud_platform.Prelude.{
  ℕ, String, Bool, true, false, not, ◌&&◌, Option, none, some, List, [], ◌∷◌, find, keep_if, length,
  ◌==◌, str_eq, if◌then◌else◌,
}
use multi_cloud_platform.Models.{CloudAccount, Credential, running, success, failed}
use multi_cloud_platform.Adapters.{is_demo_account}
use multi_cloud_platform.Sync.{
  ServiceCatalog, Resource, ResourceSyncJobItem, Inventory, DiscoveredResource, value, handled,
  raised, Clouds, discover_resources, set_item,
}
use multi_cloud_platform.Sync.Upsert.{upsert_discovered_resources, mark_stale_resources, is_null}

-- A row of the join with the catalogue.
unfoldable pub demo_found : List ServiceCatalog → List Resource → List DiscoveredResource
demo_found services [] = []
demo_found services (r ∷ rest) =
    let others = demo_found services rest in
    elim (find (λ s. s.id == r.service_catalog_id) services) [
      | none ↦ others
      | some service ↦
          (record {
            service_code = service.service_code;
            external_resource_id = r.external_resource_id;
            original_resource_type = r.original_resource_type;
            name = r.name;
            region = r.region;
            status = r.status;
            tags = r.tags;
            spec = [];
          })
          ∷ others
    ]

unfoldable pub demo_discovered : Inventory → CloudAccount → List DiscoveredResource
unfolding demo_found
demo_discovered st account = demo_found st.services (
    keep_if (λ r. r.cloud_account_id == account.id && is_null r.deleted_at && not r.is_stale)
      st.resources)

-- The item is left with an error; the message is `item.error_message` as it becomes.
unfoldable pub fail_item :
    Clouds → Inventory → ℕ → String → (Option String → Option String) → Inventory
fail_item o st id code message = set_item st id (λ i. record i {
  status = failed;
  error_code = some code;
  error_message = message i.error_message;
  finished_at = some o.now;
})

-- `exc.message or None`
abbrev pub or_none : String → Option String
or_none message = if str_eq message "" then none else some message

-- What is found is stored, and the item has succeeded, in one transaction.
unfoldable pub store_found :
    Clouds
    → Inventory
    → ResourceSyncJobItem
    → CloudAccount
    → Credential
    → List DiscoveredResource
    → Inventory × Bool
store_found o st item account credential discovered =
    elim (upsert_discovered_resources account credential o.now st.services st.resources
      discovered) [
        | none ↦ (st, true)
        | some u ↦
            let (resources, marked) = mark_stale_resources account.id u.stored u.seen_keys in
            (
              set_item (record st { resources = resources }) item.id
                  (λ i. record i {
                    status = success;
                    resources_discovered = length discovered;
                    resources_created = u.created;
                    resources_updated = u.updated;
                    resources_marked_stale = marked;
                    finished_at = some o.now;
                  }),
              false,
            )
      ]

-- The listing, with the secret that it was given.
unfoldable pub list_and_store :
    Clouds → Inventory → ResourceSyncJobItem → CloudAccount → Credential → String → Inventory × Bool
list_and_store o st item account credential secret =
    elim (discover_resources o account.provider secret account) [
      | value discovered ↦ store_found o st item account credential discovered
      | handled code message ↦ (fail_item o st item.id code (λ m. or_none message), false)
      | raised ↦ (st, true)
    ]

-- `_discover_from_csp`, and the rest of the item after it.
unfoldable pub discover_from_csp :
    Clouds → Inventory → ResourceSyncJobItem → CloudAccount → Credential → Inventory × Bool
discover_from_csp o st item account credential = elim (o.decrypt credential) [
  | value payload ↦ elim (o.resolve account.provider payload credential.id) [
    | value secret ↦ list_and_store o st item account credential secret
    | handled code message ↦ (fail_item o st item.id code (λ m. some message), false)
    | raised ↦ (st, true)
  ]
  | handled code message ↦ (fail_item o st item.id "PROVIDER_API_ERROR" (λ m. m), false)
  | raised ↦ (st, true)
]

-- A verified credential is at hand. That an account is missing, which raises, the foreign key rules out.
unfoldable pub process_account :
    Clouds → Inventory → ResourceSyncJobItem → Credential → Option CloudAccount → Inventory × Bool
process_account o st item credential none = (st, true)
process_account o st item credential (some account) =
    if is_demo_account st.db account
    then store_found o st item account credential (demo_discovered st account)
    else discover_from_csp o st item account credential

abbrev pub credential_of : Inventory → Option ℕ → Option Credential
credential_of st none = none
credential_of st (some id) = find (λ c. c.id == id) st.db.credentials

unfoldable pub process_credential :
    Clouds
    → Inventory
    → ResourceSyncJobItem
    → Option CloudAccount
    → Option Credential
    → Inventory × Bool
process_credential o st item account none =
    (fail_item o st item.id "CLOUD_PERMISSION_DENIED" (λ m. some "검증된 자격 증명이 없습니다."), false)
process_credential o st item account (some credential) =
    if credential.verified
    then process_account o st item credential account
    else (fail_item o st item.id "CLOUD_PERMISSION_DENIED" (λ m. some "검증된 자격 증명이 없습니다."), false)

unfoldable pub process_sync_item :
    Clouds → Inventory → ResourceSyncJobItem → Option CloudAccount → Inventory × Bool
process_sync_item o st item account =
    let started =
      set_item st item.id (λ i. record i { status = running; started_at = some o.now }) in
    process_credential o started item account (credential_of started item.credential_id)
