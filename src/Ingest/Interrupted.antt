-- ===== src/Ingest/Interrupted.antt =====
-- The handler of an exception during a collection.
use multi_cloud_platform.Prelude.{
  ℕ, ◌≡◌, ◌≢◌, refl, inl, inr, true, Option, none, some, arith, ◌==◌, find,
}
use multi_cloud_platform.Prelude.Sort.{In}
use multi_cloud_platform.Prelude.Members.{find-In, find-none}
use multi_cloud_platform.Models.{CostIngestionRun, Db, is_active}
use multi_cloud_platform.Ingest.{Outside, finalize_found, finalize_interrupted_run}
use multi_cloud_platform.Ingest.Ends.{Ended, fail_run-Ended}
use multi_cloud_platform.Notify.Once.{Unique}

-- Where every run with the id is active, the handler of an exception ends it.
pub finalize_interrupted_run-Ended :
    (o : Outside) (db : Db) (id : ℕ)
    → Unique db.sent
    → ((r : CostIngestionRun) → In r db.runs → r.id ≡ id → is_active r.status ≡ true)
    → Ended id db (finalize_interrupted_run o db id).0
unfolding finalize_interrupted_run finalize_found
finalize_interrupted_run-Ended o db id u active =
    by_find (find (λ r. r.id == id) db.runs) (λ h. absent h)
      (λ r h. let (i, e) = find-In _ r db.runs h in active r i (ground arith))
  where
    unchanged : ((r : CostIngestionRun) → In r db.runs → r.id ≢ id) → Ended id db db
    unchanged other = ((λ r i. inr (other r i, i), λ r n i. i), u, inl refl)

    absent : find (λ r. r.id == id) db.runs ≡ none → Ended id db db
    absent h = unchanged (λ r i. let e = find-none _ r db.runs h i in ground arith)

    by_find :
        (found : Option CostIngestionRun)
        → (found ≡ none → Ended id db db)
        → ((r : CostIngestionRun) → found ≡ some r → is_active r.status ≡ true)
        → Ended id db (finalize_found o db id found).0
    by_find none gone live = gone refl
    by_find (some run) gone live = rw (live run refl) (fail_run-Ended o db id "INTERNAL_ERROR" u)
