-- ===== src/Ingest/Request/Granted.antt =====
-- What an accepted request leaves: at most one active run for an account, and a run only for an account
-- that may have one.
use multi_cloud_platform.Prelude.{
  if-elim, ◌≡◌, refl, Bool, true, false, not, Option, none, some, List, [], ◌∷◌, ◌++◌, arith, leb,
  if◌then◌else◌, is_nil, inl, inr, ltb, length, ap, ◌⊎◌, ℕ, ◌+◌, ◌==◌, ◌&&◌, keep_if, elem,
}
use mathlib.Core.Path.{subst}
use multi_cloud_platform.Prelude.Sort.{In}
use multi_cloud_platform.Prelude.Members.{keep_if-In}
use multi_cloud_platform.Calendar.{Date, date, year, month}
use multi_cloud_platform.Models.{CloudAccount, CostIngestionRun, Db, pending}
use multi_cloud_platform.Adapters.{is_cost_supported, is_demo_account, has_credential}
use multi_cloud_platform.Gating.{Settings}
use multi_cloud_platform.Ingest.{Outside}
use multi_cloud_platform.Ingest.Manual.{manual_denial}
use multi_cloud_platform.Ingest.Request.{
  or_default, max_account_ids, Skip, Accepted, Request, Response, accepted, rejected, only,
  is_rate_limited, is_already_running, skip_reason, manual_run, take_account, take_accounts,
  respond, run_request, with_accounts, requested_accounts, owned_accounts,
  create_cost_ingestion_runs,
}
use multi_cloud_platform.Ingest.Request.OneActive.{
  Idle, OneActive, take_accounts-OneActive, skip_reason-none, last_active_run-Idle,
}

-- A response that is accepted has the property.
abbrev pub WhenAccepted : (Accepted → Type 0) → Response → Type 0
WhenAccepted P (rejected e) = Unit
WhenAccepted P (accepted r) = P r

-- What the loop carries: only runs are added, and each was added for an account that may have it.
abbrev pub May : Settings → Db → CloudAccount → Type 0
May settings db a =
    Idle db a.id × (is_cost_supported a.provider ≡ true) × (manual_denial settings db a ≡ none)

abbrev pub IsGranted : Settings → Db → (CloudAccount → Type 0) → Db → CostIngestionRun → Type 0
IsGranted settings db Q after item =
    In item after.runs
    × (item.status ≡ pending)
    × ((a : CloudAccount) × Q a × (item.cloud_account_id ≡ a.id) × May settings db a)

In-snoc : {A : Type 0} (x y : A) (xs : List A) → In x (xs ++ y ∷ []) → In x xs ⊎ (x ≡ y)
In-snoc x y [] (inl e) = inr e
In-snoc x y [] (inr i) = absurd i
In-snoc x y (z ∷ zs) (inl e) = inl (inl e)
In-snoc x y (z ∷ zs) (inr i) = elim (In-snoc x y zs i) [ inl j ↦ inl (inr j) | inr e ↦ inr e ]

module _ (o : Outside) (settings : Settings) (db : Db) (Q : CloudAccount → Type 0)
    (start end : Date) where
  abbrev Carried : Accepted → Type 0
  Carried s =
      (s.db ≡ record db { runs = s.db.runs })
      × ((r : CostIngestionRun) → In r db.runs → In r s.db.runs)
      × ((r : CostIngestionRun) → In r s.items → IsGranted settings db Q s.db r)

  May-before :
      (runs : List CostIngestionRun) (a : CloudAccount)
      → ((r : CostIngestionRun) → In r db.runs → In r runs)
      → skip_reason o settings (record db { runs = runs }) a ≡ none
      → May settings db a
  unfolding manual_denial is_demo_account
  May-before runs a kept h =
      let (free, supported, allowed, late) =
        skip_reason-none o settings (record db { runs = runs }) a h in
      let idle = last_active_run-Idle (record db { runs = runs }) a.id free in
      (λ r i same. idle r (kept r i) same, supported, allowed)

  take_account-Carried :
      (a : CloudAccount) (why : Option Skip) (s : Accepted)
      → Q a
      → skip_reason o settings s.db a ≡ why
      → Carried s
      → Carried (take_account o start end a why s)
  unfolding take_account manual_run
  take_account-Carried a (some why) s q e h = h
  take_account-Carried a none s q e (same, kept, granted) = (
    ap {A = Db} {B = Db} (λ d. record d { runs = manual_run o s.db a start end ∷ s.db.runs }) same,
    λ r i. inr (kept r i),
    λ r i. elim (In-snoc r (manual_run o s.db a start end) s.items i) [
      | inl j ↦ let (k, fresh, who) = granted r j in (inr k, fresh, who)
      | inr new ↦ (
        inl new,
        ap (λ x. x.status) new,
        (
          a,
          q,
          ap (λ x. x.cloud_account_id) new,
          May-before s.db.runs a kept (subst (λ d. skip_reason o settings d a ≡ none) same e),
        ),
      )
    ],
  )

  take_accounts-Carried :
      (accounts : List CloudAccount) (s : Accepted)
      → ((a : CloudAccount) → In a accounts → Q a)
      → Carried s
      → Carried (take_accounts o settings start end accounts s)
  unfolding take_accounts
  take_accounts-Carried [] s q h = h
  take_accounts-Carried (a ∷ accounts) s q h =
      take_accounts-Carried accounts _ (λ x i. q x (inr i))
        (take_account-Carried a (skip_reason o settings s.db a) s (q a (inl refl)) refl h)

  -- What is shown of an accepted request.
  abbrev pub Fair : Accepted → Type 0
  Fair r =
      (OneActive db → OneActive r.db)
      × ((item : CostIngestionRun) → In item r.items → IsGranted settings db Q r.db item)

  respond-Fair : (r : Accepted) → Fair r → WhenAccepted Fair (respond r)
  unfolding respond
  respond-Fair r p = if-elim (WhenAccepted Fair) (not (is_nil r.items)) _ _ p (
      if-elim (WhenAccepted Fair) (only is_rate_limited r.skipped) _ _ tt
        (if-elim (WhenAccepted Fair) (only is_already_running r.skipped) _ _ tt p))

  run_request-Fair :
      (accounts : List CloudAccount)
      → ((a : CloudAccount) → In a accounts → Q a)
      → WhenAccepted Fair (run_request o settings db start end (some accounts))
  unfolding run_request
  run_request-Fair accounts q =
      let begin : Accepted = record { db = db; items = []; skipped = [] } in
      if-elim (WhenAccepted Fair) (is_nil accounts) _ _ tt (
        respond-Fair (take_accounts o settings start end accounts begin) (
          take_accounts-OneActive o settings start end accounts begin,
          (take_accounts-Carried accounts begin q (refl, (λ r i. i), λ r i. absurd i)).2,
        ))

-- The account is the user's and has a credential.
abbrev pub IsOwned : Db → ℕ → CloudAccount → Type 0
IsOwned db user_id a = In a db.accounts × (a.user_id ≡ user_id) × (has_credential db a.id ≡ true)

owned_accounts-IsOwned :
    (db : Db) (user_id : ℕ) (a : CloudAccount)
    → In a (owned_accounts db user_id)
    → IsOwned db user_id a
unfolding owned_accounts
owned_accounts-IsOwned db user_id a i =
    let (j, e) = keep_if-In (λ x. x.user_id == user_id && has_credential db x.id) a db.accounts i in
    (j, ground arith, ground arith)

-- A request that is accepted keeps every account at one active run at most, where that was so; and each
-- run that it adds is pending, for an account of the user with a credential that is supported, is
-- allowed to be collected by hand and had no active run.
pub create_cost_ingestion_runs-Fair :
    (o : Outside) (settings : Settings) (db : Db) (user_id : ℕ) (request : Request) (r : Accepted)
    → create_cost_ingestion_runs o settings db user_id request ≡ accepted r
    → (OneActive db → OneActive r.db)
      × ((item : CostIngestionRun)
          → In item r.items
          → IsGranted settings db (IsOwned db user_id) r.db item)
unfolding create_cost_ingestion_runs with_accounts requested_accounts run_request
create_cost_ingestion_runs-Fair o settings db user_id request r e =
    subst (WhenAccepted F) e
      (if-elim (WhenAccepted F) (leb end start) _ _ tt (ids request.cloud_account_ids))
  where
    start : Date
    start = or_default request.period_start (date (year o.today) (month o.today) 1)

    end : Date
    end = or_default request.period_end (o.today + 1)

    F : Accepted → Type 0
    F = Fair o settings db (IsOwned db user_id) start end

    listed :
        (ns : List ℕ) (b : Bool)
        → WhenAccepted F (
            run_request o settings db start end
              (if b then some (keep_if (λ a. elem a.id ns) (owned_accounts db user_id)) else none))
    listed ns true =
        run_request-Fair o settings db (IsOwned db user_id) start end _
          (λ a i. owned_accounts-IsOwned db user_id a (keep_if-In _ a _ i).0)
    listed ns false = tt

    ids :
        (given : Option (List ℕ))
        → WhenAccepted F (with_accounts o settings db user_id start end given)
    ids none =
        run_request-Fair o settings db (IsOwned db user_id) start end _
          (owned_accounts-IsOwned db user_id)
    ids (some ns) = if-elim (WhenAccepted F) (ltb max_account_ids (length ns)) _ _ tt (listed ns _)
