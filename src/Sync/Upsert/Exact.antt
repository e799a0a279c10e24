-- ===== src/Sync/Upsert/Exact.antt =====
-- What holds of the rows while the resources of a listing are stored, one after the other.
use multi_cloud_platform.Prelude.{
  ℕ, ◌≡◌, refl, sym, ◌⊎◌, inl, inr, Bool, true, false, ◌&&◌, Option, none, some, List, [], ◌∷◌,
  arith, String, Bool-cases, ◌==◌, str_eq, find, eq_iff, if-elim,
}
use mathlib.Core.Path.{subst}
use multi_cloud_platform.Prelude.Sort.{In}
use multi_cloud_platform.Prelude.Texts.{elem_text, str_eq_refl, opt_eq}
use multi_cloud_platform.Prelude.Members.{
  find-In, find-none, map_if-In, In-map_if_other, In-map_if_same, append-In, In-append_left,
  In-append_right,
}
use multi_cloud_platform.Models.{CloudAccount, Credential}
use multi_cloud_platform.Sync.{ServiceCatalog, Resource, DiscoveredResource}
use multi_cloud_platform.Pricing.{estimate_monthly_cost_usd}
use multi_cloud_platform.Sync.Upsert.{
  with_estimate, apply_list_price_estimate, resource_key, new_resource, seen_again, Upsert, is_at,
  is_overwritable, add_resource, refresh_resource, refreshed,
}

-- What an estimate leaves.
abbrev Kept : Resource → Resource → Type 0
Kept x y =
    (x.cloud_account_id ≡ y.cloud_account_id)
    × (x.provider_resource_key ≡ y.provider_resource_key)
    × (x.is_stale ≡ y.is_stale)
    × (x.deleted_at ≡ y.deleted_at)

apply_list_price_estimate-Kept :
    (r : Resource) (provider : String) (disc : DiscoveredResource) (now : ℕ)
    → Kept (apply_list_price_estimate r provider disc now) r
unfolding apply_list_price_estimate with_estimate
apply_list_price_estimate-Kept r provider disc now =
    if-elim (λ x. Kept x r) (is_overwritable r.cost_source) _ _
      (by (estimate_monthly_cost_usd provider disc.service_code disc.spec)) (refl, refl, refl, refl)
  where
    by : (e : Option ℕ) → Kept (with_estimate r disc now e) r
    by (some x) = (refl, refl, refl, refl)
    by none =
        if-elim (λ x. Kept x r) (opt_eq r.cost_source (some "list_price_estimate")) _ _
          (refl, refl, refl, refl) (refl, refl, refl, refl)

abbrev pub is_seen : ℕ → List String → Resource → Bool
is_seen a seen r = r.cloud_account_id == a && elem_text r.provider_resource_key seen

-- A row is as it was and not seen, or seen and not stale.
abbrev pub Row : ℕ → List Resource → List String → Resource → Type 0
Row a table seen r =
    (In r table × (is_seen a seen r ≡ false)) ⊎ ((is_seen a seen r ≡ true) × (r.is_stale ≡ false))

abbrev pub Fresh : ℕ → List String → Resource → Type 0
Fresh a seen r = (is_seen a seen r ≡ true) × (r.is_stale ≡ false)

-- What holds between two discovered resources.
abbrev pub Progress : ℕ → List Resource → Upsert → Type 0
Progress a table u =
    ((r : Resource) → In r u.stored → Row a table u.seen_keys r)
    × ((r : Resource) → (r.cloud_account_id == a) ≡ false → In r table → In r u.stored)
    × ((r : Resource) → In r u.added → Fresh a u.seen_keys r)
    × ((k : String)
        → elem_text k u.seen_keys ≡ true
        → (r : Resource) × (In r u.stored ⊎ In r u.added) × (is_at a k r ≡ true))

Row-unseen :
    (a : ℕ) (table : List Resource) (seen : List String) (key : String) (r : Resource)
    → is_at a key r ≡ false
    → Row a table seen r
    → Row a table (key ∷ seen) r
Row-unseen a table seen key r n h = ground arith

Fresh-more :
    (a : ℕ) (seen : List String) (key : String) (r : Resource)
    → Fresh a seen r
    → Fresh a (key ∷ seen) r
Fresh-more a seen key r h = ground arith

Fresh-now :
    (a : ℕ) (seen : List String) (key : String) (r x : Resource)
    → is_at a key r ≡ true
    → x.is_stale ≡ false
    → x.cloud_account_id ≡ r.cloud_account_id
    → x.provider_resource_key ≡ r.provider_resource_key
    → Fresh a (key ∷ seen) x
Fresh-now a seen key r x h s e f = rw (e, f) (ground arith)

is_at-same :
    (a : ℕ) (k : String) (r x : Resource)
    → is_at a k r ≡ true
    → x.cloud_account_id ≡ r.cloud_account_id
    → x.provider_resource_key ≡ r.provider_resource_key
    → is_at a k x ≡ true
is_at-same a k r x h e f = rw (e, f) h

module _ (account : CloudAccount) (credential : Credential) (now : ℕ) (table : List Resource)
    (u : Upsert) (disc : DiscoveredResource) where
  refreshed-Kept :
      (r : Resource)
      → Kept (refreshed account credential now disc r) (seen_again credential disc now r)
  refreshed-Kept r =
      apply_list_price_estimate-Kept (seen_again credential disc now r) account.provider disc now

  -- A key that was reached before still is, at the row that stands for it.
  pub added-Progress :
      (service : ServiceCatalog)
      → find (is_at account.id (resource_key account disc)) u.stored ≡ none
      → Progress account.id table u
      → Progress account.id table (add_resource account credential now u disc service)
  unfolding add_resource new_resource
  added-Progress service none_at (rows, others, fresh, reached) =
      let a = account.id in
      let key = resource_key account disc in
      let new : Resource = new_resource account credential service disc now in
      let x : Resource = apply_list_price_estimate new account.provider disc now in
      let (e, f, g, _) = apply_list_price_estimate-Kept new account.provider disc now in
      let at_new : is_at a key new ≡ true = ground (arith, str_eq_refl key) in
      let at_x : is_at a key x ≡ true = is_at-same a key new x at_new e f in
      (
        λ r i. Row-unseen a table u.seen_keys key r (find-none _ r u.stored none_at i) (rows r i),
        others,
        λ r i. elim (append-In r u.added (x ∷ []) i) [
          | inl old ↦ Fresh-more a u.seen_keys key r (fresh r old)
          | inr (inl e2) ↦
              subst (Fresh a (key ∷ u.seen_keys)) (sym e2)
                (Fresh-now a u.seen_keys key new x at_new g e f)
          | inr (inr i) ↦ absurd i
        ],
        λ k i. elim (Bool-cases (str_eq k key)) [
          | inl same ↦ (
            x,
            inr (In-append_right x u.added (x ∷ []) (inl refl)),
            rw ((eq_iff k key).0 same) at_x,
          )
          | inr other ↦
              let (r, where_r, at_r) = reached k (ground arith) in
              (
                r,
                elim where_r [ inl j ↦ inl j | inr j ↦ inr (In-append_left r u.added (x ∷ []) j) ],
                at_r,
              )
        ],
      )

  moved :
      (k : String) (r : Resource)
      → In r u.stored
      → is_at account.id k r ≡ true
      → (x : Resource) × (In x (refresh_resource account credential now u disc).stored
          ⊎ In x u.added)
        × (is_at account.id k x ≡ true)
  unfolding refresh_resource seen_again
  moved k r j at_r =
      let at = is_at account.id (resource_key account disc) in
      let f : Resource → Resource = refreshed account credential now disc in
      elim (Bool-cases (at r)) [
        | inl same ↦
            let (p, q, _, _) = refreshed-Kept r in
            (
              f r,
              inl (In-map_if_same at f r u.stored same j),
              is_at-same account.id k r (f r) at_r p q,
            )
        | inr other ↦ (r, inl (In-map_if_other at f r u.stored other j), at_r)
      ]

  pub refreshed-Progress :
      (existing : Resource)
      → find (is_at account.id (resource_key account disc)) u.stored ≡ some existing
      → Progress account.id table u
      → Progress account.id table (refresh_resource account credential now u disc)
  unfolding refresh_resource seen_again
  refreshed-Progress existing found (rows, others, fresh, reached) =
      let a = account.id in
      let key = resource_key account disc in
      let at = is_at a key in
      let f : Resource → Resource = refreshed account credential now disc in
      (
        λ x i.
            let (y, j, how) = map_if-In at f x u.stored i in
            elim how [
              | inl (same, e) ↦
                  let (p, q, s, _) = refreshed-Kept y in
                  inr (
                    subst (Fresh a (key ∷ u.seen_keys)) (sym e)
                      (Fresh-now a u.seen_keys key y (f y) same s p q))
              | inr (other, e) ↦
                  subst (Row a table (key ∷ u.seen_keys)) (sym e)
                    (Row-unseen a table u.seen_keys key y other (rows y j))
            ],
        λ r n i. In-map_if_other at f r u.stored (ground arith) (others r n i),
        λ r i. Fresh-more a u.seen_keys key r (fresh r i),
        λ k i. elim (Bool-cases (str_eq k key)) [
          | inl same ↦
              let (j, at_e) = find-In at existing u.stored found in
              let (p, q, _, _) = refreshed-Kept existing in
              (
                f existing,
                inl (In-map_if_same at f existing u.stored at_e j),
                subst (λ z. is_at a z (f existing) ≡ true) (sym ((eq_iff k key).0 same))
                    (is_at-same a key existing (f existing) at_e p q),
              )
          | inr other ↦
              let (r, where_r, at_r) = reached k (ground arith) in
              elim where_r [ inl j ↦ moved k r j at_r | inr j ↦ (r, inr j, at_r) ]
        ],
      )
