-- ===== src/Sync/Item/Outcome.antt =====
-- What the work for an item can leave of the items and the jobs.
use multi_cloud_platform.Prelude.{
  ℕ, ◌≡◌, refl, sym, ◌∙◌, ◌⊎◌, inl, inr, Bool, true, false, Option, none, some, List, arith, String,
  ◌==◌, if-elim, option-elim,
}
use mathlib.Core.Path.{subst}
use multi_cloud_platform.Prelude.Sort.{In}
use multi_cloud_platform.Prelude.Members.{map_if-In}
use multi_cloud_platform.Models.{CloudAccount, Credential, RunStatus, success, failed, running}
use multi_cloud_platform.Adapters.{is_demo_account}
use multi_cloud_platform.Sync.{
  ResourceSyncJobItem, Inventory, DiscoveredResource, Answer, value, handled, raised, Clouds,
  discover_resources, set_item,
}
use multi_cloud_platform.Sync.Upsert.{upsert_discovered_resources, mark_stale_resources}
use multi_cloud_platform.Sync.Item.{
  fail_item, store_found, list_and_store, discover_from_csp, process_account, process_credential,
  process_sync_item, credential_of, demo_discovered, or_none,
}

-- The item of the id has a status of the test, and every other item is one of those from before.
abbrev pub Item : (RunStatus → Bool) → ℕ → ResourceSyncJobItem → ResourceSyncJobItem → Type 0
Item p id x y =
    (x.id ≡ y.id)
    × (x.sync_job_id ≡ y.sync_job_id)
    × (((x.id == id) ≡ true × p x.status ≡ true) ⊎ ((x.id == id) ≡ false × x ≡ y))

abbrev pub Touched : (RunStatus → Bool) → ℕ → Inventory → Inventory → Type 0
Touched p id before after =
    (x : ResourceSyncJobItem)
    → In x after.items
    → (y : ResourceSyncJobItem) × In y before.items × Item p id x y

-- Only its own item is touched; unless an exception is raised, that has a status of the test.
abbrev pub Outcome : (RunStatus → Bool) → ℕ → Inventory → Inventory × Bool → Type 0
Outcome p id before (after, crashed) =
    (after.jobs ≡ before.jobs) × ((crashed ≡ true) ⊎ Touched p id before after)

pub set_item_jobs :
    (st : Inventory) (n : ℕ) (f : ResourceSyncJobItem → ResourceSyncJobItem)
    → (set_item st n f).jobs ≡ st.jobs
unfolding set_item
set_item_jobs st n f = refl

abbrev pub any_status : RunStatus → Bool
any_status s = true

module _ (p : RunStatus → Bool) (id : ℕ) where
  pub set_item-Touched :
      (st : Inventory) (f : ResourceSyncJobItem → ResourceSyncJobItem)
      → ((i : ResourceSyncJobItem)
          → ((f i).id ≡ i.id) × ((f i).sync_job_id ≡ i.sync_job_id) × (p (f i).status ≡ true))
      → Touched p id st (set_item st id f)
  unfolding set_item
  set_item-Touched st f h x i =
      let (y, j, how) = map_if-In (λ z. z.id == id) f x st.items i in
      let (same_id, same_job, ok) = h y in
      elim how [
        | inl (same, e) ↦ (
          y,
          j,
          subst (λ z. Item p id z y) (sym e) (same_id, same_job, inl (rw same_id same, ok)),
        )
        | inr (other, e) ↦
            (y, j, subst (λ z. Item p id z y) (sym e) (refl, refl, inr (other, refl)))
      ]

  Item-after :
      (x y z : ResourceSyncJobItem) → Item any_status id y z → Item p id x y → Item p id x z
  Item-after x y z (e2, f2, how2) (e1, f1, inl done) = (e1 ∙ e2, f1 ∙ f2, inl done)
  Item-after x y z (e2, f2, inr (other2, same2)) (e1, f1, inr (other, same)) =
      (e1 ∙ e2, f1 ∙ f2, inr (other, same ∙ same2))
  Item-after x y z (e2, f2, inl (same2, _)) (e1, f1, inr (other, same)) = absurd (ground arith)

  Touched-after :
      (a b c : Inventory) → Touched any_status id a b → Touched p id b c → Touched p id a c
  Touched-after a b c first second x i =
      let (y, j, h) = second x i in let (z, k, g) = first y j in (z, k, Item-after x y z g h)

module _ (p : RunStatus → Bool) (id : ℕ) (fails : p failed ≡ true) (succeeds : p success ≡ true)
    (o : Clouds) where
  fail_item-Outcome :
      (st : Inventory) (code : String) (message : Option String → Option String)
      → Outcome p id st (fail_item o st id code message, false)
  unfolding fail_item set_item
  fail_item-Outcome st code message =
      (refl, inr (set_item-Touched p id st _ (λ i. (refl, refl, fails))))

  store_found-Outcome :
      (st : Inventory) (item : ResourceSyncJobItem) (account : CloudAccount)
      (credential : Credential) (ds : List DiscoveredResource)
      → item.id ≡ id
      → Outcome p id st (store_found o st item account credential ds)
  unfolding store_found set_item
  store_found-Outcome st item account credential ds e =
      option-elim (Outcome p id st)
        (upsert_discovered_resources account credential o.now st.services st.resources ds) _ _
        (refl, inl refl)
        (λ u found. (
          refl,
          inr (
              rw e (
                set_item-Touched p id
                  (record st {
                    resources = (mark_stale_resources account.id u.stored u.seen_keys).0;
                  })
                  _ (λ i. (refl, refl, succeeds)))),
        ))

  list_and_store-Outcome :
      (st : Inventory) (item : ResourceSyncJobItem) (account : CloudAccount)
      (credential : Credential) (secret : String)
      → item.id ≡ id
      → Outcome p id st (list_and_store o st item account credential secret)
  unfolding list_and_store
  list_and_store-Outcome st item account credential secret e =
      by (discover_resources o account.provider secret account)
    where
      by :
          (a : Answer (List DiscoveredResource))
          → Outcome p id st (elim a [
            | value discovered ↦ store_found o st item account credential discovered
            | handled code message ↦ (fail_item o st item.id code (λ m. or_none message), false)
            | raised ↦ (st, true)
          ])
      by (value ds) = store_found-Outcome st item account credential ds e
      by (handled code message) = rw e (fail_item-Outcome st code (λ m. or_none message))
      by raised = (refl, inl refl)

  discover_from_csp-Outcome :
      (st : Inventory) (item : ResourceSyncJobItem) (account : CloudAccount)
      (credential : Credential)
      → item.id ≡ id
      → Outcome p id st (discover_from_csp o st item account credential)
  unfolding discover_from_csp
  discover_from_csp-Outcome st item account credential e = by (o.decrypt credential)
    where
      resolved :
          (a : Answer String)
          → Outcome p id st (elim a [
            | value secret ↦ list_and_store o st item account credential secret
            | handled code message ↦ (fail_item o st item.id code (λ m. some message), false)
            | raised ↦ (st, true)
          ])
      resolved (value secret) = list_and_store-Outcome st item account credential secret e
      resolved (handled code message) = rw e (fail_item-Outcome st code (λ m. some message))
      resolved raised = (refl, inl refl)

      by :
          (a : Answer String)
          → Outcome p id st (elim a [
            | value payload ↦ elim (o.resolve account.provider payload credential.id) [
              | value secret ↦ list_and_store o st item account credential secret
              | handled code message ↦ (fail_item o st item.id code (λ m. some message), false)
              | raised ↦ (st, true)
            ]
            | handled code message ↦ (fail_item o st item.id "PROVIDER_API_ERROR" (λ m. m), false)
            | raised ↦ (st, true)
          ])
      by (value payload) = resolved (o.resolve account.provider payload credential.id)
      by (handled code message) = rw e (fail_item-Outcome st "PROVIDER_API_ERROR" (λ m. m))
      by raised = (refl, inl refl)

  process_account-Outcome :
      (st : Inventory) (item : ResourceSyncJobItem) (credential : Credential)
      (account : Option CloudAccount)
      → item.id ≡ id
      → Outcome p id st (process_account o st item credential account)
  unfolding process_account
  process_account-Outcome st item credential none e = (refl, inl refl)
  process_account-Outcome st item credential (some account) e =
      if-elim (Outcome p id st) (is_demo_account st.db account) _ _
        (store_found-Outcome st item account credential (demo_discovered st account) e)
        (discover_from_csp-Outcome st item account credential e)

  process_credential-Outcome :
      (st : Inventory) (item : ResourceSyncJobItem) (account : Option CloudAccount)
      (credential : Option Credential)
      → item.id ≡ id
      → Outcome p id st (process_credential o st item account credential)
  unfolding process_credential
  process_credential-Outcome st item account none e = rw e (fail_item-Outcome st _ _)
  process_credential-Outcome st item account (some credential) e =
      if-elim (Outcome p id st) credential.verified _ _
        (process_account-Outcome st item credential account e) (rw e (fail_item-Outcome st _ _))

  pub process_sync_item-Outcome :
      (st : Inventory) (item : ResourceSyncJobItem) (account : Option CloudAccount)
      → item.id ≡ id
      → Outcome p id st (process_sync_item o st item account)
  unfolding process_sync_item
  process_sync_item-Outcome st item account e =
      let mark : ResourceSyncJobItem → ResourceSyncJobItem =
        λ i. record i { status = running; started_at = some o.now } in
      let started = set_item st item.id mark in
      let touched : Touched any_status id st started =
        rw e (set_item-Touched any_status id st mark (λ i. (refl, refl, refl))) in
      let (jobs, how) =
        process_credential-Outcome started item account (credential_of started item.credential_id)
          e in
      (
        jobs ∙ set_item_jobs st item.id mark,
        elim how [
          | inl crashed ↦ inl crashed
          | inr rest ↦ inr (
              Touched-after p id st started
                (process_credential o started item account
                  (credential_of started item.credential_id)).0
                touched rest)
        ],
      )
