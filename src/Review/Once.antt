-- ===== src/Review/Once.antt =====
-- A jump is announced once.
use multi_cloud_platform.Prelude.{
  ℕ, suc, ◌+◌, ◌≡◌, refl, ap, inl, inr, Bool, true, false, Option, none, List, [], ◌∷◌, arith,
  String, Option-cases, find, length, if◌then◌else◌, All, option-elim,
}
use multi_cloud_platform.Prelude.Texts.{str_eq_refl}
use multi_cloud_platform.Calendar.{Date}
use multi_cloud_platform.Models.{CloudAccount, Db}
use multi_cloud_platform.Anomaly.SourceKey.{Format}
use multi_cloud_platform.Anomaly.Usage.{AnomalyItem}
use multi_cloud_platform.Anomaly.Evaluate.{evaluate_account_all_stored}
use multi_cloud_platform.Review.{
  Queue, anomaly_type, is_item, find_item, add_item, key_of, create_item_with_notification,
  notify_all, evaluate_and_notify_account,
}
use multi_cloud_platform.Review.Resolved.{is_some}

module _ (f : Format) (user : ℕ) where
  -- The queue has the jump.
  abbrev pub IsQueued : Queue → AnomalyItem → Type 0
  IsQueued q x = is_some (find_item q user anomaly_type (key_of f x)) ≡ true

  IsQueued-first :
      (q : Queue) (x : AnomalyItem) (memo : Option String)
      → IsQueued (add_item q user (key_of f x) x memo) x
  unfolding find_item add_item
  IsQueued-first q x memo = rw (str_eq_refl (key_of f x)) (ground arith)

  IsQueued-before :
      (q : Queue) (x y : AnomalyItem) (memo : Option String)
      → IsQueued q y
      → IsQueued (add_item q user (key_of f x) x memo) y
  unfolding find_item add_item
  IsQueued-before q x y memo h = ground (arith, h)

  -- What follows from one jump.
  abbrev pub Created : Queue → AnomalyItem → Queue × Bool → Type 0
  Created q x (after, is_new) =
      IsQueued after x
      × ((y : AnomalyItem) → IsQueued q y → IsQueued after y)
      × (length after.items ≡ (if is_new then suc (length q.items) else length q.items))
      × (length after.notices ≡ (if is_new then suc (length q.notices) else length q.notices))

  create-Created :
      (q : Queue) (x : AnomalyItem) (memo : Option String)
      → Created q x (create_item_with_notification f q user x memo)
  unfolding create_item_with_notification find_item add_item
  create-Created q x memo =
      option-elim (Created q x) (find (is_item user anomaly_type (key_of f x)) q.items) _ _
        (IsQueued-first q x memo, λ y h. IsQueued-before q x y memo h, refl, refl)
        (λ i e. (ap is_some e, λ y h. h, refl, refl))

  -- What follows from several.
  abbrev pub AllCreated : Queue → List AnomalyItem → Queue × ℕ → Type 0
  AllCreated q xs (after, created) =
      All (IsQueued after) xs
      × ((y : AnomalyItem) → IsQueued q y → IsQueued after y)
      × (length after.items ≡ created + length q.items)
      × (length after.notices ≡ created + length q.notices)

  notify_all-AllCreated :
      (q : Queue) (xs : List AnomalyItem) → AllCreated q xs (notify_all f q user xs)
  unfolding notify_all
  notify_all-AllCreated q [] = (tt, λ y h. h, omega arith, omega arith)
  notify_all-AllCreated q (x ∷ xs) =
      let (queued, grows, items, notices) = create-Created q x none in
      let after = (create_item_with_notification f q user x none).0 in
      let (all_queued, grow, more_items, more_notices) = notify_all-AllCreated after xs in
      ((grow x queued, all_queued), λ y h. grow y (grows y h), ground arith, ground arith)

  create-known :
      (q : Queue) (x : AnomalyItem)
      → IsQueued q x
      → create_item_with_notification f q user x none ≡ (q, false)
  unfolding create_item_with_notification
  create-known q x h = elim (Option-cases (find_item q user anomaly_type (key_of f x))) [
    | inl absent ↦ let gone = rw absent at h in absurd (ground arith)
    | inr (i, found) ↦ rw (found, create_item_with_notification) refl
  ]

  -- Jumps that the queue has are passed over.
  notify_all-known :
      (q : Queue) (xs : List AnomalyItem) → All (IsQueued q) xs → notify_all f q user xs ≡ (q, 0)
  unfolding notify_all
  notify_all-known q [] h = refl
  notify_all-known q (x ∷ xs) (h, hs) = rw (create-known q x h, notify_all-known q xs hs) refl

-- An evaluation of an account leaves a queue in which a second one on that day finds nothing new, and as many
-- notices are added as items.
pub evaluate_and_notify_account-once :
    (f : Format) (db : Db) (q : Queue) (account : CloudAccount) (today : Date)
    → let (after, created) = evaluate_and_notify_account f db q account today in
      (evaluate_and_notify_account f db after account today ≡ (after, 0))
      × (length after.items ≡ created + length q.items)
      × (length after.notices ≡ created + length q.notices)
unfolding evaluate_and_notify_account
evaluate_and_notify_account-once f db q account today =
    let xs = (evaluate_account_all_stored db account today).items in
    let (queued, _, items, notices) = notify_all-AllCreated f account.user_id q xs in
    (
      notify_all-known f account.user_id (notify_all f q account.user_id xs).0 xs queued,
      items,
      notices,
    )
