-- ===== src/Sync/Upsert/Marked.antt =====
-- After a listing is stored, the rows of its account are marked exactly as the listing has them.
use multi_cloud_platform.Prelude.{
  ℕ, ◌≡◌, ◌≢◌, ◌↔◌, refl, sym, ap, inl, inr, true, false, not, ◌||◌, Option, none, some, List, [],
  ◌∷◌, ◌++◌, arith, String, Bool-cases, ◌==◌, find, eq_iff, option-elim, if_none-some,
}
use mathlib.Core.Path.{subst}
use multi_cloud_platform.Prelude.Sort.{In}
use multi_cloud_platform.Prelude.Texts.{elem_text}
use multi_cloud_platform.Prelude.Members.{
  map_if-In, In-map_if_other, In-map_if_same, append-In, In-append_left, In-append_right,
}
use multi_cloud_platform.Models.{CloudAccount, Credential}
use multi_cloud_platform.Sync.{ServiceCatalog, Resource, DiscoveredResource}
use multi_cloud_platform.Sync.Upsert.{
  resource_key, Upsert, is_at, find_service, add_resource, refresh_resource, upsert_known,
  upsert_one, upsert_all, flush, upsert_discovered_resources, is_missed, mark_stale_resources,
  is_null,
}
use multi_cloud_platform.Sync.Upsert.Exact.{Row, Progress, added-Progress, refreshed-Progress}

-- The keys that a listing is stored under.
abbrev pub found_keys : CloudAccount → List ServiceCatalog → List DiscoveredResource → List String
found_keys account services [] = []
found_keys account services (disc ∷ rest) = elim (find_service account services disc.service_code) [
  | none ↦ found_keys account services rest
  | some service ↦ resource_key account disc ∷ found_keys account services rest
]

module _ (account : CloudAccount) (credential : Credential) (now : ℕ) where
  known_keys :
      (u : Upsert) (disc : DiscoveredResource) (service : ServiceCatalog)
      → (upsert_known account credential now u disc service).seen_keys
        ≡ resource_key account disc ∷ u.seen_keys
  unfolding upsert_known add_resource refresh_resource
  known_keys u disc service =
      option-elim {B = Upsert} (λ z. z.seen_keys ≡ resource_key account disc ∷ u.seen_keys)
        (find (is_at account.id (resource_key account disc)) u.stored) _ _ refl (λ x e. refl)

  all_keys :
      (services : List ServiceCatalog) (k : String) (ds : List DiscoveredResource) (u : Upsert)
      → elem_text k (upsert_all account credential now services u ds).seen_keys
        ≡ (elem_text k (found_keys account services ds) || elem_text k u.seen_keys)
  unfolding upsert_all upsert_one
  all_keys services k [] u = refl
  all_keys services k (disc ∷ rest) u =
      by (λ v. all_keys services k rest v) (find_service account services disc.service_code)
    where
      by :
          ((v : Upsert)
            → elem_text k (upsert_all account credential now services v rest).seen_keys
              ≡ (elem_text k (found_keys account services rest) || elem_text k v.seen_keys))
          → (e : Option ServiceCatalog)
          → elem_text k
              (upsert_all account credential now services
                (elim e [
                  | none ↦ u
                  | some service ↦ upsert_known account credential now u disc service
                ])
                rest).seen_keys
            ≡ (elem_text k (elim e [
              | none ↦ found_keys account services rest
              | some service ↦ resource_key account disc ∷ found_keys account services rest
            ])
                || elem_text k u.seen_keys)
      by ih none = ih u
      by ih (some service) =
          rw (ih (upsert_known account credential now u disc service))
            (rw (known_keys u disc service) (ground arith))

  module _ (table : List Resource) where
    known-Progress :
        (u : Upsert) (disc : DiscoveredResource) (service : ServiceCatalog)
        → Progress account.id table u
        → Progress account.id table (upsert_known account credential now u disc service)
    unfolding upsert_known
    known-Progress u disc service h =
        by (find (is_at account.id (resource_key account disc)) u.stored) refl
      where
        by :
            (e : Option Resource)
            → find (is_at account.id (resource_key account disc)) u.stored ≡ e
            → Progress account.id table (elim e [
              | none ↦ add_resource account credential now u disc service
              | some existing ↦ refresh_resource account credential now u disc
            ])
        by none eq = added-Progress account credential now table u disc service eq h
        by (some x) eq = refreshed-Progress account credential now table u disc x eq h

    all-Progress :
        (services : List ServiceCatalog) (ds : List DiscoveredResource) (u : Upsert)
        → Progress account.id table u
        → Progress account.id table (upsert_all account credential now services u ds)
    unfolding upsert_all upsert_one
    all-Progress services [] u h = h
    all-Progress services (disc ∷ rest) u h =
        all-Progress services rest _ (by (find_service account services disc.service_code))
      where
        by :
            (e : Option ServiceCatalog)
            → Progress account.id table (elim e [
              | none ↦ u
              | some service ↦ upsert_known account credential now u disc service
            ])
        by none = h
        by (some service) = known-Progress u disc service h

-- Every row of the account that is not deleted is stale exactly if its key is not one of the keys, every
-- one of the keys has a row of the account, and the rows of the other accounts are the ones there were.
abbrev pub IsMarked : ℕ → List String → List Resource → List Resource → Type 0
IsMarked a keys before after =
    ((r : Resource)
      → In r after
      → r.cloud_account_id ≡ a
      → r.deleted_at ≡ none
      → r.is_stale ≡ not (elem_text r.provider_resource_key keys))
    × ((k : String)
        → elem_text k keys ≡ true
        → (r : Resource) × In r after × (r.cloud_account_id ≡ a) × (r.provider_resource_key ≡ k))
    × ((r : Resource) → r.cloud_account_id ≢ a → In r before ↔ In r after)

IsMarked-keys :
    (a : ℕ) (ks ls : List String)
    → ((k : String) → elem_text k ks ≡ elem_text k ls)
    → (before after : List Resource) → IsMarked a ks before after
    → IsMarked a ls before after
IsMarked-keys a ks ls same before after (marked, reached, others) = (
  λ r i e d. subst (λ b. r.is_stale ≡ not b) (same r.provider_resource_key) (marked r i e d),
  λ k h. reached k (rw (same k) h),
  others,
)

module _ (a : ℕ) (table stored : List Resource) (seen : List String) where
  -- The rows as they are once the rows added are flushed.
  abbrev pub Stored : Type 0
  Stored =
      ((r : Resource) → In r stored → Row a table seen r)
      × ((r : Resource) → (r.cloud_account_id == a) ≡ false → In r table → In r stored)
      × ((k : String)
          → elem_text k seen ≡ true
          → (r : Resource) × In r stored × (is_at a k r ≡ true))

  abbrev Marked : Resource → Type 0
  Marked r = r.is_stale ≡ not (elem_text r.provider_resource_key seen)

  kept-Marked :
      (y : Resource)
      → is_missed a seen y ≡ false
      → y.cloud_account_id ≡ a
      → is_null y.deleted_at ≡ true
      → Row a table seen y
      → Marked y
  kept-Marked y n same null h = ground arith

  missed-Marked : (y : Resource) → is_missed a seen y ≡ true → Marked (record y { is_stale = true })
  missed-Marked y h = ground arith

  old_elsewhere : (y : Resource) → y.cloud_account_id ≢ a → Row a table seen y → In y table
  old_elsewhere y n (inl (i, e)) = i
  old_elsewhere y n (inr (h, e)) = absurd (ground arith)

  mark_stale_resources-IsMarked :
      Stored → IsMarked a seen table (mark_stale_resources a stored seen).0
  unfolding mark_stale_resources
  mark_stale_resources-IsMarked (rows, others, reached) =
      let f : Resource → Resource = λ r. record r { is_stale = true } in
      let p = is_missed a seen in
      (
        λ x i e d.
            let (y, j, how) = map_if-In p f x stored i in
            elim how [
              | inl (same, e2) ↦ subst Marked (sym e2) (missed-Marked y same)
              | inr (other, e2) ↦ subst Marked (sym e2) (
                  kept-Marked y other (subst (λ z. z.cloud_account_id ≡ a) e2 e)
                    (ap is_null (subst (λ z. z.deleted_at ≡ none) e2 d)) (rows y j))
            ],
        λ k i.
            let (r, j, at_r) = reached k i in
            elim (Bool-cases (p r)) [
              | inl same ↦ (f r, In-map_if_same p f r stored same j, ground arith, at_key k r at_r)
              | inr other ↦ (r, In-map_if_other p f r stored other j, ground arith, at_key k r at_r)
            ],
        λ r n. (
          λ i. In-map_if_other p f r stored (ground arith) (others r (ground arith) i),
          λ i.
              let (y, j, how) = map_if-In p f r stored i in
              elim how [
                | inl (same, e2) ↦
                    let e3 : r.cloud_account_id ≡ y.cloud_account_id =
                      ap (λ z. z.cloud_account_id) e2 in
                    absurd (ground arith)
                | inr (other, e2) ↦
                    subst (λ z. In z table) (sym e2)
                      (old_elsewhere y (subst (λ z. z.cloud_account_id ≢ a) e2 n) (rows y j))
              ],
        ),
      )
    where
      at_key : (k : String) (r : Resource) → is_at a k r ≡ true → r.provider_resource_key ≡ k
      at_key k r h = (eq_iff r.provider_resource_key k).0 (ground arith)

module _ (account : CloudAccount) (credential : Credential) (now : ℕ)
    (services : List ServiceCatalog) (table : List Resource) (ds : List DiscoveredResource) where
  flushed :
      (u : Upsert)
      → Progress account.id table u
      → Stored account.id table (u.stored ++ u.added) u.seen_keys
  flushed u (rows, others, fresh, reached) = (
    λ r i. elim (append-In r u.stored u.added i) [ inl j ↦ rows r j | inr j ↦ inr (fresh r j) ],
    λ r n i. In-append_left r u.stored u.added (others r n i),
    λ k h.
        let (r, j, at_r) = reached k h in
        (
          r,
          elim j [
            | inl x ↦ In-append_left r u.stored u.added x
            | inr x ↦ In-append_right r u.stored u.added x
          ],
          at_r,
        ),
  )

  -- A listing that is stored marks each row of its account as stale exactly if the listing does not have it,
  -- has a row for each of its resources, and leaves the rows of other accounts.
  pub upsert_discovered_resources-IsMarked :
      (v : Upsert)
      → upsert_discovered_resources account credential now services table ds ≡ some v
      → IsMarked account.id
          (found_keys account services ds)
          table
          (mark_stale_resources account.id v.stored v.seen_keys).0
  unfolding upsert_discovered_resources flush
  upsert_discovered_resources-IsMarked v h =
      let start : Upsert = record {
        stored = table;
        added = [];
        created = 0;
        updated = 0;
        seen_keys = [];
      } in
      let u = upsert_all account credential now services start ds in
      let p : Progress account.id table u =
        all-Progress account credential now table services ds start started in
      let keys : (k : String)
          → elem_text k u.seen_keys ≡ elem_text k (found_keys account services ds) =
        λ k. rw (all_keys account credential now services k ds start) (ground arith) in
      let same = if_none-some _ _ v h in
      subst
        (λ (z : Upsert).
          IsMarked account.id (found_keys account services ds) table
            (mark_stale_resources account.id z.stored z.seen_keys).0)
        same
        (IsMarked-keys account.id u.seen_keys (found_keys account services ds) keys table _ (
          mark_stale_resources-IsMarked account.id table (u.stored ++ u.added) u.seen_keys
            (flushed u p)))
    where
      started :
          Progress account.id table
            (record { stored = table; added = []; created = 0; updated = 0; seen_keys = [] })
      started =
          (λ r i. inl (i, ground arith), λ r n i. i, λ r i. absurd i, λ k h. absurd (ground arith))
