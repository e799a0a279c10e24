-- ===== src/Ingest/Manual/Closed.antt =====
-- A collection by hand ends its run on every path, the exceptions included.
use multi_cloud_platform.Prelude.{
  if-elim, ℕ, ◌≡◌, refl, ◌⊎◌, inl, inr, Bool, true, Option, none, some, arith, Option-cases, ◌==◌,
  ◌||◌, find,
}
use mathlib.Core.Path.{subst, sym}
use multi_cloud_platform.Prelude.Sort.{In}
use multi_cloud_platform.Prelude.Members.{find-In, find-none}
use multi_cloud_platform.Models.{
  running, CloudAccount, CostIngestionRun, Credential, Db, is_active, is_success,
}
use multi_cloud_platform.Adapters.{is_cost_supported, is_demo_account}
use multi_cloud_platform.Gating.{Settings, Denial, denial_text}
use multi_cloud_platform.Ingest.{Outside, set_run, run_credential}
use multi_cloud_platform.Ingest.Ends.{
  Settled, Ended, Collected, HasRun, fail_run-Ended, collect-Ended, map-In, In-map, In-map_same,
}
use multi_cloud_platform.Ingest.Interrupted.{finalize_interrupted_run-Ended}
use multi_cloud_platform.Ingest.Manual.{
  or_finalize, run_with, mark_running, run_unless, manual_denial, run_for, run_cost_ingestion_run,
}
use multi_cloud_platform.Notify.Once.{Unique}

module _ (o : Outside) where
  or_finalize-Ended :
      (db : Db) (id : ℕ) (c : Db × Bool)
      → Unique db.sent
      → ((r : CostIngestionRun) → In r db.runs → r.id ≡ id → is_active r.status ≡ true)
      → Collected id db c
      → Ended id db (or_finalize o id c)
  unfolding or_finalize
  or_finalize-Ended db id (after, raised) u active (inl (e, same)) =
      rw (e, same) (finalize_interrupted_run-Ended o db id u active)
  or_finalize-Ended db id (after, raised) u active (inr (e, ended)) = rw e ended

  run_with-Ended :
      (db : Db) (account : CloudAccount) (run : CostIngestionRun) (c : Option Credential)
      → Unique db.sent
      → HasRun run.id db
      → ((r : CostIngestionRun) → In r db.runs → r.id ≡ run.id → is_active r.status ≡ true)
      → Ended run.id db (run_with o db account run c)
  unfolding run_with
  run_with-Ended db account run none u has active =
      fail_run-Ended o db run.id "CLOUD_PERMISSION_DENIED" u
  run_with-Ended db account run (some c) u has active =
      or_finalize-Ended db run.id _ u active (collect-Ended o db account run c u has)

  -- Marking the run first makes no difference to what is ended.
  mark_running-Ended :
      (db after : Db) (id : ℕ) → Ended id (mark_running db id) after → Ended id db after
  unfolding mark_running set_run
  mark_running-Ended db after id ((ended, kept), u, costs) = (
    (
      λ r i. elim (ended r i) [
        | inl e ↦ inl e
        | inr (n, j) ↦
            let (y, k, how) = map-In id (λ x. record x { status = running }) r db.runs j in
            elim how [
              | inl (same, e) ↦ ground (arith, n, same, e)
              | inr (other, e) ↦ inr (n, subst (λ z. In z db.runs) (sym e) k)
            ]
      ],
      λ r n i. kept r n (In-map id (λ x. record x { status = running }) r db.runs n i),
    ),
    u,
    costs,
  )

  mark_running-Unique : (db : Db) (id : ℕ) → Unique db.sent → Unique (mark_running db id).sent
  unfolding mark_running set_run
  mark_running-Unique db id u = u

  mark_running-HasRun : (db : Db) (id : ℕ) → HasRun id db → HasRun id (mark_running db id)
  unfolding mark_running set_run
  mark_running-HasRun db id (y, i, e) =
      (_, In-map_same id (λ x. record x { status = running }) y db.runs e i, e)

  mark_running-active :
      (db : Db) (id : ℕ) (r : CostIngestionRun)
      → In r (mark_running db id).runs
      → r.id ≡ id
      → is_active r.status ≡ true
  unfolding mark_running set_run
  mark_running-active db id r i e =
      let (y, k, how) = map-In id (λ x. record x { status = running }) r db.runs i in
      elim how [
        | inl (same, same_row) ↦ rw same_row refl
        | inr (other, same_row) ↦ ground (arith, other, same_row, e)
      ]

  run_unless-Ended :
      (db : Db) (account : CloudAccount) (run : CostIngestionRun) (d : Option Denial)
      → Unique db.sent
      → HasRun run.id db
      → Ended run.id db (run_unless o db account run d)
  unfolding run_unless
  run_unless-Ended db account run (some d) u has = fail_run-Ended o db run.id (denial_text d) u
  run_unless-Ended db account run none u has =
      mark_running-Ended db
        (run_with o (mark_running db run.id) account run (run_credential db account.id)) run.id
        (run_with-Ended (mark_running db run.id) account run (run_credential db account.id)
          (mark_running-Unique db run.id u) (mark_running-HasRun db run.id has)
          (mark_running-active db run.id))

  run_for-Ended :
      (settings : Settings) (db : Db) (run : CostIngestionRun) (account : Option CloudAccount)
      → Unique db.sent
      → HasRun run.id db
      → Ended run.id db (run_for o settings db run account)
  unfolding run_for
  run_for-Ended settings db run none u has = fail_run-Ended o db run.id "UNSUPPORTED" u
  run_for-Ended settings db run (some account) u has =
      if-elim (Ended run.id db) (is_demo_account db account || is_cost_supported account.provider) _
        _ (run_unless-Ended db account run (manual_denial settings db account) u has)
        (fail_run-Ended o db run.id "UNSUPPORTED" u)

-- A collection by hand whose run exists leaves that run ended and every other run as it is, whatever its
-- credential, its adapter and the lock do; the UNIQUE constraint of the notifications stays met, and the
-- costs differ from before only if the run has succeeded.
pub run_cost_ingestion_run-Ended :
    (o : Outside) (settings : Settings) (db : Db) (run : CostIngestionRun)
    → Unique db.sent
    → In run db.runs
    → let after = run_cost_ingestion_run o settings db run.id in
      Settled run.id db after
      × Unique after.sent
      × ((after.costs ≡ db.costs)
          ⊎ ((x : CostIngestionRun) × In x after.runs
              × (x.id ≡ run.id)
              × (is_success x.status ≡ true)))
unfolding run_cost_ingestion_run
run_cost_ingestion_run-Ended o settings db run u i =
    elim (Option-cases (find (λ r. r.id == run.id) db.runs)) [
      | inl absent ↦ let e = find-none (λ r. r.id == run.id) run db.runs absent i in ground arith
      | inr (found, e) ↦
          let (j, same) = find-In (λ r. r.id == run.id) found db.runs e in
          let id_same : found.id ≡ run.id = ground arith in
          rw (e, run_cost_ingestion_run)
            (subst
              (λ n. Ended n db (
                run_for o settings db found
                  (find (λ a. a.id == found.cloud_account_id) db.accounts)))
              id_same
              (run_for-Ended o settings db found
                (find (λ a. a.id == found.cloud_account_id) db.accounts) u (found, j, refl)))
    ]
