-- ===== src/Sync/Request/Interleaved.antt =====
-- Requests, and the commits of several runs, in any order.
use multi_cloud_platform.Prelude.{
  ◌≡◌, sym, ap, ◌∙◌, Bool, true, false, not, Option, [], ◌∷◌, String, keep_if, ◌==◌,
}
use multi_cloud_platform.Prelude.Int.{ℤ}
use multi_cloud_platform.Prelude.Sort.{In}
use multi_cloud_platform.Models.{pending}
use multi_cloud_platform.Sync.{ResourceSyncJob, ResourceSyncJobItem, Inventory, Clouds}
use multi_cloud_platform.Sync.Job.{begin_job, run_item, end_job}
use multi_cloud_platform.Sync.Request.Accepted.{Requested}
use multi_cloud_platform.Sync.Request.Stuck.{Requested-IsRunning}
use multi_cloud_platform.Sync.Request.OneActive.{OneActive, Requested-OneActive}
use multi_cloud_platform.Sync.Request.Runs.{
  Server, IsSound, same_jobs, fewer, item-jobs, begun-OneActive, begun-AllRunning, ended-OneActive,
  ended-AllRunning,
}

-- A request that is served, or what a run does up to its next commit: it begins, it works on an item, it
-- dies of an exception, or it ends. A run begins only if its job is pending still, a condition that the
-- code does not test.
pub data Step (parse_int : String → Option ℤ) (s : Server) : Server → Type 0 where
  request :
      (after : Inventory)
      → Requested parse_int s.tables after
      → Step parse_int s (record s { tables = after })
  begun :
      (o : Clouds) (job : ResourceSyncJob)
      → In job s.tables.jobs
      → ((j : ResourceSyncJob) → In j s.tables.jobs → j.id ≡ job.id → j.status ≡ pending)
      → Step parse_int s (record { tables = begin_job o s.tables job; runs = job.id ∷ s.runs })
  worked :
      (o : Clouds) (asked : Bool) (item : ResourceSyncJobItem) (after : Inventory)
      → In item.sync_job_id s.runs
      → run_item o asked s.tables item ≡ (after, false)
      → Step parse_int s (record s { tables = after })
  died :
      (o : Clouds) (asked : Bool) (item : ResourceSyncJobItem) (after : Inventory)
      → In item.sync_job_id s.runs
      → run_item o asked s.tables item ≡ (after, true)
      → Step parse_int s
          (record { tables = after; runs = keep_if (λ n. not (n == item.sync_job_id)) s.runs })
  ended :
      (o : Clouds) (asked : Bool) (job : ResourceSyncJob)
      → In job.id s.runs
      → In job s.tables.jobs
      → Step parse_int s (record {
        tables = end_job o asked s.tables job;
        runs = keep_if (λ n. not (n == job.id)) s.runs;
      })

pub data Reach (parse_int : String → Option ℤ) (s : Server) : Server → Type 0 where
  here : Reach parse_int s s
  next :
      (mid after : Server)
      → Reach parse_int s mid
      → Step parse_int mid after
      → Reach parse_int s after

module _ (parse_int : String → Option ℤ) where
  Step-IsSound : (s after : Server) → Step parse_int s after → IsSound s → IsSound after
  Step-IsSound s after (request tables r) (one, all) = (
    Requested-OneActive s.tables tables r one,
    λ n i.
        let (user, h) = all n i in (user, Requested-IsRunning parse_int n user s.tables tables r h),
  )
  Step-IsSound s after (begun o job i waits) (one, all) =
      (begun-OneActive o s.tables job waits one, begun-AllRunning o s job i all)
  Step-IsSound s after (worked o asked item tables i e) sound =
      same_jobs s tables (sym (ap (λ z. z.0.jobs) e) ∙ item-jobs o asked item s.tables) sound
  Step-IsSound s after (died o asked item tables i e) sound =
      fewer (record s { tables = tables }) item.sync_job_id
        (same_jobs s tables (sym (ap (λ z. z.0.jobs) e) ∙ item-jobs o asked item s.tables) sound)
  Step-IsSound s after (ended o asked job i j) (one, all) =
      (ended-OneActive o asked s job i (one, all), ended-AllRunning o asked s job all)

  Reach-IsSound : (s after : Server) → IsSound s → Reach parse_int s after → IsSound after
  Reach-IsSound s after sound here = sound
  Reach-IsSound s after sound (next mid after2 r step) =
      Step-IsSound mid after step (Reach-IsSound s mid sound r)

  -- Whatever requests, cancellations of pending and of running jobs, and commits of several runs are
  -- interleaved, a user has one active job at most, if it was so at the start with no run under way:
  -- where each request is served as a whole, and no run begins whose job is not pending any more.
  pub Reach-OneActive :
      (st : Inventory) (after : Server)
      → OneActive st
      → Reach parse_int (record { tables = st; runs = [] }) after
      → OneActive after.tables
  Reach-OneActive st after one r =
      (Reach-IsSound (record { tables = st; runs = [] }) after (one, λ n i. absurd i) r).0
