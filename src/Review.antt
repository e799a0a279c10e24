-- ===== src/Review.antt =====
-- backend/app/cost/review.py and routers/cost_review.py: the queue of jumps to be reviewed, in which a jump
-- that is new is announced. The queue's UNIQUE constraint is on the user, the type and the key.
pub mod Once
pub mod Resolved
use multi_cloud_platform.Prelude.{
  ℕ, suc, ◌+◌, max, String, Bool, true, false, not, ◌&&◌, ◌||◌, Option, none, some, List, [], ◌∷◌,
  map, any, find, keep_if, length, leb, ◌==◌, str_eq, if◌then◌else◌,
}
use multi_cloud_platform.Prelude.Int.{ℤ}
use multi_cloud_platform.Calendar.{Date}
use multi_cloud_platform.Models.{CloudAccount, Db}
use multi_cloud_platform.Adapters.{has_credential}
use multi_cloud_platform.Anomaly.SourceKey.{Format, source_key, parse_source_key}
use multi_cloud_platform.Anomaly.Days.{eligible_end}
use multi_cloud_platform.Anomaly.Usage.{AnomalyItem}
use multi_cloud_platform.Anomaly.Evaluate.{evaluate_account, evaluate_account_all_stored}

pub data ReviewStatus : Type 0 where
  open_ investigating resolved : ReviewStatus

pub data Resolution : Type 0 where
  too_small expected unexpected : Resolution

pub record CostReviewItem : Type 0 where
  pub id : ℕ
  pub user_id : ℕ
  pub source_type : String
  pub source_key : String
  pub status : ReviewStatus
  pub resolution : Option Resolution
  pub note : Option String
  pub resolved_at : Option ℕ

-- The row of the inbox about an item that is new, with the jump that it tells of.
pub record AnomalyNotice : Type 0 where
  pub user_id : ℕ
  pub reference_id : ℕ
  pub jump : AnomalyItem

pub record Queue : Type 0 where
  pub items : List CostReviewItem
  pub notices : List AnomalyNotice

abbrev pub anomaly_type : String
anomaly_type = "cost_anomaly"

abbrev pub is_item : ℕ → String → String → CostReviewItem → Bool
is_item user type key i = i.user_id == user && str_eq i.source_type type && str_eq i.source_key key

unfoldable pub find_item : Queue → ℕ → String → String → Option CostReviewItem
find_item q user type key = find (is_item user type key) q.items

abbrev pub next_review_id : List CostReviewItem → ℕ
next_review_id [] = 1
next_review_id (i ∷ is) = max (suc i.id) (next_review_id is)

-- The item and its notice.
unfoldable pub add_item : Queue → ℕ → String → AnomalyItem → Option String → Queue
add_item q user key anomaly note =
    let id = next_review_id q.items in
    record {
      items =
          (record {
            id = id;
            user_id = user;
            source_type = anomaly_type;
            source_key = key;
            status = open_;
            resolution = none;
            note = note;
            resolved_at = none;
          })
          ∷ q.items;
      notices = (record { user_id = user; reference_id = id; jump = anomaly }) ∷ q.notices;
    }

abbrev pub key_of : Format → AnomalyItem → String
key_of f x = source_key f x.cloud_account_id x.service x.date

-- With whether the item is new: the constraint refuses one that is there.
unfoldable pub create_item_with_notification :
    Format → Queue → ℕ → AnomalyItem → Option String → Queue × Bool
create_item_with_notification f q user anomaly note =
    elim (find_item q user anomaly_type (key_of f anomaly)) [
      | none ↦ (add_item q user (key_of f anomaly) anomaly note, true)
      | some existing ↦ (q, false)
    ]

-- With how many items are new.
unfoldable pub notify_all : Format → Queue → ℕ → List AnomalyItem → Queue × ℕ
notify_all f q user [] = (q, 0)
notify_all f q user (x ∷ xs) =
    let (after, is_new) = create_item_with_notification f q user x none in
    let (last, created) = notify_all f after user xs in
    (last, if is_new then suc created else created)

unfoldable pub evaluate_and_notify_account : Format → Db → Queue → CloudAccount → Date → Queue × ℕ
evaluate_and_notify_account f db q account today =
    notify_all f q account.user_id (evaluate_account_all_stored db account today).items

pub data ReviewError : Type 0 where
  invalid_key account_not_found not_yet_eligible not_current_anomaly : ReviewError
  item_not_found already_resolved resolution_required : ReviewError

pub data ReviewResult : Type 0 where
  refused : ReviewError → ReviewResult
  answered : Queue → ReviewResult

unfoldable pub create_for_account :
    Format
    → Db
    → Queue
    → ℕ
    → Date
    → Option String
    → String
    → Date
    → Option CloudAccount
    → ReviewResult
create_for_account f db q user today memo service day none = refused account_not_found
create_for_account f db q user today memo service day (some account) =
    if leb (eligible_end today) day
    then refused not_yet_eligible
    else elim (find (λ x. str_eq x.service service)
        (evaluate_account db account day (day + 1)).items) [
          | none ↦ refused not_current_anomaly
          | some x ↦ answered (create_item_with_notification f q user x memo).0
        ]

unfoldable pub create_parsed :
    Format → Db → Queue → ℕ → Date → Option String → Option (ℕ × String × Date) → ReviewResult
create_parsed f db q user today memo none = refused invalid_key
create_parsed f db q user today memo (some (account_id, service, day)) =
    create_for_account f db q user today memo service day
      (find (λ a. a.id == account_id && a.user_id == user && has_credential db a.id) db.accounts)

-- `POST /cost-review-items`
unfoldable pub create_review_item :
    Format → Db → Queue → ℕ → Date → String → String → Option String → ReviewResult
create_review_item f db q user today type key memo = elim (find_item q user type key) [
  | some existing ↦ answered q
  | none ↦ create_parsed f db q user today memo (parse_source_key f key)
]

pub record ReviewPatch : Type 0 where
  pub status : Option ReviewStatus
  pub resolution : Option Resolution
  pub note : Option String

abbrev pub is_resolved : ReviewStatus → Bool
is_resolved resolved = true
is_resolved _ = false

module _ {A : Type 0} where
  -- `x or y`
  abbrev pub or_old : Option A → A → A
  or_old none x = x
  or_old (some y) x = y

  abbrev pub or_option : Option A → Option A → Option A
  or_option none x = x
  or_option (some y) x = some y

pub data Patched : Type 0 where
  unpatched : ReviewError → Patched
  new_row : CostReviewItem → Patched

unfoldable pub resolve_item : ℕ → ReviewPatch → CostReviewItem → Option Resolution → Patched
resolve_item now p i none = unpatched resolution_required
resolve_item now p i (some r) = new_row (record i {
  status = resolved;
  resolution = some r;
  resolved_at = if is_resolved i.status then i.resolved_at else some now;
  note = or_option p.note i.note;
})

-- The row that the request makes of an item.
unfoldable pub patch_item : ℕ → ReviewPatch → CostReviewItem → Patched
patch_item now p i =
    let new_status = or_old p.status i.status in
    if is_resolved i.status && not (is_resolved new_status)
    then unpatched already_resolved
    else if is_resolved new_status
    then resolve_item now p i (or_option p.resolution i.resolution)
    else new_row (record i {
      status = new_status;
      resolution = or_option p.resolution i.resolution;
      resolved_at = none;
      note = or_option p.note i.note;
    })

unfoldable pub store_patched : Queue → ℕ → Patched → ReviewResult
store_patched q id (unpatched e) = refused e
store_patched q id (new_row new) =
    answered (record q { items = map (λ i. if i.id == id then new else i) q.items })

-- `PATCH /cost-review-items/{id}`
unfoldable pub patch_review_item : Queue → ℕ → ℕ → ℕ → ReviewPatch → ReviewResult
patch_review_item q user now id p = elim (find (λ i. i.id == id && i.user_id == user) q.items) [
  | none ↦ refused item_not_found
  | some i ↦ store_patched q id (patch_item now p i)
]
