-- ===== src/Ingest/Request/OneActive.antt =====
-- A request never gives an account a second run that is pending or running.
use multi_cloud_platform.Prelude.{
  ℕ, ◌≡◌, refl, sym, inl, inr, Bool, true, false, not, ◌&&◌, Option, none, some, List, [], ◌∷◌,
  arith, Bool-cases, ◌∙◌, ap, ◌==◌, if◌then◌else◌,
}
use multi_cloud_platform.Prelude.Sort.{In, max_by}
use multi_cloud_platform.Prelude.Members.{In-keep_if}
use multi_cloud_platform.Calendar.{Date}
use multi_cloud_platform.Models.{CloudAccount, CostIngestionRun, Db, is_active}
use multi_cloud_platform.Adapters.{is_cost_supported}
use multi_cloud_platform.Gating.{Settings, Denial}
use multi_cloud_platform.Ingest.{Outside}
use multi_cloud_platform.Ingest.Daily.{last_active_run}
use multi_cloud_platform.Ingest.Manual.{manual_denial}
use multi_cloud_platform.Ingest.Request.{
  Skip, job_already_running, unsupported, Accepted, denied_or, is_running_already, skip_reason,
  manual_run, take_account, take_accounts, limit_after, finished, last_manual_success,
}

-- The account has no run that is pending or running.
abbrev pub Idle : Db → ℕ → Type 0
Idle db a =
    (r : CostIngestionRun) → In r db.runs → r.cloud_account_id ≡ a → is_active r.status ≡ false

-- At most one run of an account is pending or running.
abbrev pub OneActive : Db → Type 0
OneActive db =
    (x y : CostIngestionRun)
    → In x db.runs
    → In y db.runs
    → is_active x.status ≡ true
    → is_active y.status ≡ true
    → x.cloud_account_id ≡ y.cloud_account_id
    → x ≡ y

max_by-none :
    {A : Type 0} (key : A → ℕ × ℕ) (x : A) (xs : List A) → max_by key xs ≡ none → In x xs → ⊥
unfolding max_by
max_by-none key x [] h i = i
max_by-none key x (y ∷ ys) h i = cc

-- What passes all guards is idle, supported and allowed.
pub skip_reason-none :
    (o : Outside) (settings : Settings) (db : Db) (account : CloudAccount)
    → skip_reason o settings db account ≡ none
    → (last_active_run db account.id ≡ none)
      × (is_cost_supported account.provider ≡ true)
      × (manual_denial settings db account ≡ none)
      × (limit_after o.now (finished (last_manual_success db account.id)) ≡ none)
unfolding skip_reason
skip_reason-none o settings db account h =
    go (last_active_run db account.id) (is_cost_supported account.provider)
      (manual_denial settings db account) _ h
  where
    go :
        (r : Option CostIngestionRun) (s : Bool) (d : Option Denial) (l : Option Skip)
        → (if is_running_already r
            then some job_already_running
            else if not s
            then some unsupported
            else denied_or d l)
          ≡ none
        → (r ≡ none) × (s ≡ true) × (d ≡ none) × (l ≡ none)
    go none true none l h = (refl, refl, refl, h)
    go none true (some d) l h = cc
    go none false d l h = cc
    go (some r) s d l h = cc

pub last_active_run-Idle : (db : Db) (a : ℕ) → last_active_run db a ≡ none → Idle db a
unfolding last_active_run
last_active_run-Idle db a h r i same = elim (Bool-cases (is_active r.status)) [
  | inr over ↦ over
  | inl active ↦ absurd (
      max_by-none (λ r. (r.requested_at, 0)) r _ h
        (In-keep_if (λ r. r.cloud_account_id == a && is_active r.status) r db.runs i
          (ground arith)))
]

busy : {b : Bool} {A : Type 0} → b ≡ false → b ≡ true → A
busy f t = cc

take_account-OneActive :
    (o : Outside) (settings : Settings) (start end : Date) (account : CloudAccount)
    (so_far : Accepted) (why : Option Skip)
    → skip_reason o settings so_far.db account ≡ why
    → OneActive so_far.db
    → OneActive (take_account o start end account why so_far).db
unfolding take_account manual_run
take_account-OneActive o settings start end account so_far (some why) e h = h
take_account-OneActive o settings start end account so_far none e h =
    added (
      last_active_run-Idle so_far.db account.id (skip_reason-none o settings so_far.db account e).0)
  where
    added :
        Idle so_far.db account.id
        → OneActive
            (record so_far.db { runs = manual_run o so_far.db account start end ∷ so_far.db.runs })
    added idle x y (inl p) (inl q) ax ay same = p ∙ sym q
    added idle x y (inr i) (inr j) ax ay same = h x y i j ax ay same
    added idle x y (inl p) (inr j) ax ay same =
        let mine : x.cloud_account_id ≡ account.id = ap (λ r. r.cloud_account_id) p in
        busy (idle y j (sym same ∙ mine)) ay
    added idle x y (inr i) (inl q) ax ay same =
        let mine : y.cloud_account_id ≡ account.id = ap (λ r. r.cloud_account_id) q in
        busy (idle x i (same ∙ mine)) ax

pub take_accounts-OneActive :
    (o : Outside) (settings : Settings) (start end : Date) (accounts : List CloudAccount)
    (so_far : Accepted)
    → OneActive so_far.db
    → OneActive (take_accounts o settings start end accounts so_far).db
unfolding take_accounts
take_accounts-OneActive o settings start end [] so_far h = h
take_accounts-OneActive o settings start end (account ∷ accounts) so_far h =
    take_accounts-OneActive o settings start end accounts _ (
      take_account-OneActive o settings start end account so_far
        (skip_reason o settings so_far.db account) refl h)
