-- ===== src/Ingest/Daily/Unstuck.antt =====
-- The daily collection leaves no run of its own pending or running, whatever goes wrong.
use multi_cloud_platform.Prelude.{
  if-elim, ℕ, ◌<◌, ◌≡◌, refl, ap, inl, inr, Bool, true, false, ◌&&◌, ◌||◌, Option, none, some, List,
  [], ◌∷◌, arith, ◌==◌, if◌then◌else◌, keep_if,
}
use multi_cloud_platform.Prelude.Sort.{In, key_ltb, max_from, max_by}
use multi_cloud_platform.Prelude.Members.{keep_if-In}
use multi_cloud_platform.Calendar.{Date}
use multi_cloud_platform.Models.{CloudAccount, CostIngestionRun, Credential, Db, is_active}
use multi_cloud_platform.Adapters.{is_cost_supported, is_demo_account, has_credential}
use multi_cloud_platform.Gating.{Settings}
use multi_cloud_platform.Ingest.{Outside, collect, run_credential, finalize_interrupted_run}
use multi_cloud_platform.Ingest.Ends.{Ended, Collected, collect-Ended}
use multi_cloud_platform.Ingest.Interrupted.{finalize_interrupted_run-Ended}
use multi_cloud_platform.Ingest.Daily.{
  auto_period, last_active_run, next_id, auto_run, start_run, run_single_account, finalize_stuck,
  run_account, is_due, run_accounts, run_daily_ingestion,
}
use multi_cloud_platform.Notify.Once.{Unique}

-- Every run that is still active was requested before the time.
abbrev pub RequestedBefore : ℕ → Db → Type 0
RequestedBefore now db =
    (r : CostIngestionRun) → In r db.runs → is_active r.status ≡ true → r.requested_at < now

-- The runs from before are all there still, and no other run is active.
abbrev pub Unstuck : Db → Db → Type 0
Unstuck before after =
    ((r : CostIngestionRun) → In r after.runs → is_active r.status ≡ true → In r before.runs)
    × ((r : CostIngestionRun) → In r before.runs → In r after.runs)

next_id-gt : (r : CostIngestionRun) (rs : List CostIngestionRun) → In r rs → r.id < next_id rs
next_id-gt r [] i = absurd i
next_id-gt r (x ∷ xs) (inl e) = rw e (ground arith)
next_id-gt r (x ∷ xs) (inr i) = ground (arith, next_id-gt r xs i)

max_from-first :
    {A : Type 0} (key : A → ℕ × ℕ) (best : A) (xs : List A)
    → ((y : A) → In y xs → key_ltb (key best) (key y) ≡ false)
    → max_from key best xs ≡ best
unfolding max_from
max_from-first key best [] h = refl
max_from-first key best (x ∷ xs) h =
    rw (h x (inl refl)) (max_from-first key best xs (λ y i. h y (inr i)))

same_number : (n : ℕ) → (n == n) ≡ true
same_number n = ground arith

both : (a b : Bool) → (a && b) ≡ true → b ≡ true
both a b h = ground arith

module _ (o : Outside) (db : Db) (account : CloudAccount) (start end : Date) where
  abbrev fresh : CostIngestionRun
  fresh = auto_run o db account start end

  abbrev begun : Db
  begun = record db { runs = fresh ∷ db.runs }

  -- What ends the run that was added leaves nothing stuck.
  added-Unstuck : (after : Db) → Ended fresh.id begun after → Unstuck db after × Unique after.sent
  unfolding auto_run
  added-Unstuck after ((ended, kept), u, costs) = (
    (
      λ r i active. elim (ended r i) [
        | inl (same, over) ↦ ground (arith, active, over)
        | inr (other, inl e) ↦ absurd (other (ap (λ x. x.id) e))
        | inr (other, inr j) ↦ j
      ],
      λ r i. kept r (let h = next_id-gt r db.runs i in ground arith) (inr i),
    ),
    u,
  )

  -- An exception ends the run that was added: it is the active run requested last.
  last_active_run-fresh : RequestedBefore o.now db → last_active_run begun account.id ≡ some fresh
  unfolding last_active_run auto_run max_by
  last_active_run-fresh before = rw (same_number account.id) (
      ap some (
        max_from-first (λ r. (r.requested_at, 0)) fresh
          (keep_if (λ r. r.cloud_account_id == account.id && is_active r.status) db.runs)
          (λ y i.
            let (j, e) =
              keep_if-In (λ r. r.cloud_account_id == account.id && is_active r.status) y db.runs
                i in
            let h = before y j (both (y.cloud_account_id == account.id) (is_active y.status) e) in
            ground arith)))

  fresh-active :
      (r : CostIngestionRun) → In r begun.runs → r.id ≡ fresh.id → is_active r.status ≡ true
  unfolding auto_run
  fresh-active r (inl e) same = rw e refl
  fresh-active r (inr i) same = let h = next_id-gt r db.runs i in ground arith

  -- The handler of the loop, after a collection.
  abbrev handled : Db × Bool → Db
  handled (after, raised) =
      if raised then finalize_stuck o after (last_active_run after account.id) else after

  handled-Unstuck :
      (c : Db × Bool)
      → Unique db.sent
      → RequestedBefore o.now db
      → Collected fresh.id begun c
      → Unstuck db (handled c) × Unique (handled c).sent
  unfolding finalize_stuck
  handled-Unstuck (after, raised) u before (inr (e, ended)) = rw e (added-Unstuck after ended)
  handled-Unstuck (after, raised) u before (inl (e, same)) =
      rw (e, same, last_active_run-fresh before)
        (added-Unstuck (finalize_interrupted_run o begun fresh.id).0
          (finalize_interrupted_run-Ended o begun fresh.id u fresh-active))

  start_run-Unstuck :
      (c : Option Credential)
      → Unique db.sent
      → RequestedBefore o.now db
      → Unstuck db (handled (start_run o db account start end c))
        × Unique (handled (start_run o db account start end c)).sent
  unfolding start_run
  start_run-Unstuck none u before = (((λ r i a. i), λ r i. i), u)
  start_run-Unstuck (some c) u before =
      handled-Unstuck (collect o begun account fresh c) u before
        (collect-Ended o begun account fresh c u (fresh, inl refl, refl))

  run_account-Unstuck :
      Unique db.sent
      → RequestedBefore o.now db
      → Unstuck db (run_account o start end db account)
        × Unique (run_account o start end db account).sent
  unfolding run_account run_single_account
  run_account-Unstuck u before =
      if-elim (λ c. Unstuck db (handled c) × Unique (handled c).sent)
        (is_demo_account db account || is_cost_supported account.provider) _ _
        (start_run-Unstuck (run_credential db account.id) u before) (((λ r i a. i), λ r i. i), u)

Unstuck-trans : (x y z : Db) → Unstuck x y → Unstuck y z → Unstuck x z
Unstuck-trans x y z (from, kept) (from2, kept2) =
    (λ r i a. from r (from2 r i a) a, λ r i. kept2 r (kept r i))

RequestedBefore-Unstuck :
    (now : ℕ) (x y : Db) → RequestedBefore now x → Unstuck x y → RequestedBefore now y
RequestedBefore-Unstuck now x y h (from, kept) r i a = h r (from r i a) a

run_accounts-Unstuck :
    (o : Outside) (settings : Settings) (start end : Date) (accounts : List CloudAccount) (db : Db)
    → Unique db.sent
    → RequestedBefore o.now db
    → Unstuck db (run_accounts o settings start end accounts db)
      × Unique (run_accounts o settings start end accounts db).sent
unfolding run_accounts
run_accounts-Unstuck o settings start end [] db u before = (((λ r i a. i), λ r i. i), u)
run_accounts-Unstuck o settings start end (account ∷ accounts) db u before =
    let next : Db = if is_due settings db account then run_account o start end db account else db in
    let (one, u1) =
      if-elim (λ d. Unstuck db d × Unique d.sent) (is_due settings db account) _ db
        (run_account-Unstuck o db account start end u before) (((λ r i a. i), λ r i. i), u) in
    let (rest, u2) =
      run_accounts-Unstuck o settings start end accounts next u1
        (RequestedBefore-Unstuck o.now db next before one) in
    (Unstuck-trans db next (run_accounts o settings start end accounts next) one rest, u2)

-- Where all active runs were requested before now, the daily collection keeps every run that there was,
-- and each run that is active after it is one of those: none that it began is left pending or running,
-- whatever the secrets, the adapters and the locks do. The notifications stay unique.
pub run_daily_ingestion-Unstuck :
    (o : Outside) (settings : Settings) (db : Db)
    → Unique db.sent
    → RequestedBefore o.now db
    → Unstuck db (run_daily_ingestion o settings db)
      × Unique (run_daily_ingestion o settings db).sent
unfolding run_daily_ingestion
run_daily_ingestion-Unstuck o settings db u before =
    run_accounts-Unstuck o settings (auto_period o.today).0 (auto_period o.today).1
      (keep_if (λ a. is_cost_supported a.provider && has_credential db a.id) db.accounts) db u
      before
