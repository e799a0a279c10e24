-- ===== src/Sync/Request/Runs.antt =====
-- Runs under way: what the commits of a run leave of a user's jobs.
use multi_cloud_platform.Prelude.{
  ℕ, ◌≡◌, ◌≢◌, refl, sym, ap, ◌∙◌, ◌⊎◌, inl, inr, Bool, true, false, not, some, List, ◌∷◌, arith,
  Bool-cases, map, keep_if, ◌==◌, if◌then◌else◌,
}
use mathlib.Core.Path.{subst}
use multi_cloud_platform.Prelude.Sort.{In}
use multi_cloud_platform.Prelude.Members.{map_if-In, In-map_if_same, keep_if-In}
use multi_cloud_platform.Models.{RunStatus, pending, running, cancelled, is_active}
use multi_cloud_platform.Sync.{ResourceSyncJob, ResourceSyncJobItem, Inventory, Clouds, set_job}
use multi_cloud_platform.Sync.Job.{begin_job, run_item, end_job, end_as}
use multi_cloud_platform.Sync.Job.Ended.{run_item-Outcome}
use multi_cloud_platform.Sync.Request.Stuck.{
  IsRunning, Same, Same-IsRunning, map-Same, end_job-Same,
}
use multi_cloud_platform.Sync.Request.OneActive.{OneActive}

-- The tables, and the ids of the jobs whose runs are under way.
pub record Server : Type 0 where
  pub tables : Inventory
  pub runs : List ℕ

-- Each run under way has its job, and that counts as running.
abbrev pub AllRunning : Server → Type 0
AllRunning s = (n : ℕ) → In n s.runs → (user : ℕ) × IsRunning n user s.tables

abbrev pub IsSound : Server → Type 0
IsSound s = OneActive s.tables × AllRunning s

pub same_jobs :
    (s : Server) (after : Inventory)
    → after.jobs ≡ s.tables.jobs
    → IsSound s
    → IsSound (record s { tables = after })
same_jobs s after e (one, all) = (
  λ j k i l. one j k (subst (λ z. In j z) e i) (subst (λ z. In k z) e l),
  λ n i.
      let (user, h) = all n i in
      (
        user,
        Same-IsRunning n user s.tables after
            (subst (Same n s.tables.jobs) (sym e) (λ x f. (λ y. y, λ y. y))) h,
      ),
)

-- Fewer runs are under way.
pub fewer :
    (s : Server) (n : ℕ)
    → IsSound s
    → IsSound (record s { runs = keep_if (λ m. not (m == n)) s.runs })
fewer s n (one, all) = (one, λ m i. all m (keep_if-In (λ m. not (m == n)) m s.runs i).0)

pub item-jobs :
    (o : Clouds) (asked : Bool) (item : ResourceSyncJobItem) (st : Inventory)
    → (run_item o asked st item).0.jobs ≡ st.jobs
item-jobs o asked item st =
    (run_item-Outcome (λ s. true) refl refl o (λ k. asked) (λ k h. refl) st 0 item).0

-- Whatever holds of the jobs with any status given to the job holds of the jobs after its end.
end_job-status :
    (o : Clouds) (b : Bool) (st : Inventory) (job : ResourceSyncJob)
    (P : List ResourceSyncJob → Type 0)
    → ((t : RunStatus) → P (map (λ j. if j.id == job.id then end_as t o.now j else j) st.jobs))
    → P (end_job o b st job).jobs
unfolding end_job set_job
end_job-status o true st job P h = h cancelled
end_job-status o false st job P h = h _

mark_running : Clouds → ResourceSyncJob → ResourceSyncJob
mark_running o j = record j { status = running; started_at = some o.now }

-- A run that begins makes no job active that was not.
pub begun-OneActive :
    (o : Clouds) (st : Inventory) (job : ResourceSyncJob)
    → ((j : ResourceSyncJob) → In j st.jobs → j.id ≡ job.id → j.status ≡ pending)
    → OneActive st
    → OneActive (begin_job o st job)
unfolding set_job mark_running
begun-OneActive o st job waits one j k i l a b e =
    let (y, m, how) = map_if-In (λ z. z.id == job.id) (mark_running o) j st.jobs i in
    let (z, n, how2) = map_if-In (λ z. z.id == job.id) (mark_running o) k st.jobs l in
    let (ey, uy, ay) = before j y m a how in
    let (ez, uz, az) = before k z n b how2 in ey ∙ one y z m n ay az (sym uy ∙ e ∙ uz) ∙ sym ez
  where
    before :
        (x y : ResourceSyncJob)
        → In y st.jobs
        → is_active x.status ≡ true
        → (((y.id == job.id) ≡ true) × (x ≡ mark_running o y))
          ⊎ (((y.id == job.id) ≡ false) × (x ≡ y))
        → (x.id ≡ y.id) × (x.user_id ≡ y.user_id) × (is_active y.status ≡ true)
    before x y m a (inl (same, e)) =
        let waiting = waits y m (ground arith) in
        (ap (λ z. z.id) e, ap (λ z. z.user_id) e, ap is_active waiting)
    before x y m a (inr (off, e)) =
        (ap (λ z. z.id) e, ap (λ z. z.user_id) e, subst (λ z. is_active z.status ≡ true) e a)

pub begun-AllRunning :
    (o : Clouds) (s : Server) (job : ResourceSyncJob)
    → In job s.tables.jobs
    → AllRunning s
    → AllRunning (record { tables = begin_job o s.tables job; runs = job.id ∷ s.runs })
unfolding set_job mark_running
begun-AllRunning o s job i all n at = elim (Bool-cases (n == job.id)) [
  | inl same ↦ (
    job.user_id,
    (
      (
        mark_running o job,
        In-map_if_same (λ z. z.id == job.id) (mark_running o) job s.tables.jobs (ground arith) i,
        ground arith,
        refl,
      ),
      λ x k f.
          let (y, l, how) = map_if-In (λ z. z.id == job.id) (mark_running o) x s.tables.jobs k in
          elim how [
            | inl (same, e) ↦ ap (λ z. z.status) e
            | inr (off, e) ↦ let e2 : x.id ≡ y.id = ap (λ z. z.id) e in absurd (ground arith)
          ],
    ),
  )
  | inr off ↦
      let other : n ≢ job.id = λ e. ground arith in
      let (user, h) = all n (elim at [ inl e ↦ absurd (other e) | inr old ↦ old ]) in
      (
        user,
        Same-IsRunning n user s.tables (begin_job o s.tables job)
            (map-Same n job.id (mark_running o) s.tables.jobs (λ j. refl) other) h,
      )
]

-- The job that ends was running, so no job is active that was not.
pub ended-OneActive :
    (o : Clouds) (asked : Bool) (s : Server) (job : ResourceSyncJob)
    → In job.id s.runs
    → IsSound s
    → OneActive (end_job o asked s.tables job)
ended-OneActive o asked s job i (one, all) j k l m a b e =
    let (y, n, ey, uy, ay) = before j l a in
    let (z, p, ez, uz, az) = before k m b in ey ∙ one y z n p ay az (sym uy ∙ e ∙ uz) ∙ sym ez
  where
    was_running :
        (y : ResourceSyncJob) → In y s.tables.jobs → y.id ≡ job.id → is_active y.status ≡ true
    was_running y n e = let (_, (_, running_all)) = all job.id i in ap is_active (running_all y n e)

    Origin : ResourceSyncJob → Type 0
    Origin x =
        (y : ResourceSyncJob) × In y s.tables.jobs
        × (x.id ≡ y.id)
        × (x.user_id ≡ y.user_id)
        × (is_active y.status ≡ true)

    by_status :
        (t : RunStatus) (x : ResourceSyncJob)
        → In x (map (λ j. if j.id == job.id then end_as t o.now j else j) s.tables.jobs)
        → is_active x.status ≡ true
        → Origin x
    by_status t x l a =
        let (y, n, how) = map_if-In (λ z. z.id == job.id) (end_as t o.now) x s.tables.jobs l in
        elim how [
          | inl (same, e) ↦
              (y, n, ap (λ z. z.id) e, ap (λ z. z.user_id) e, was_running y n (ground arith))
          | inr (off, e) ↦ (
            y,
            n,
            ap (λ z. z.id) e,
            ap (λ z. z.user_id) e,
            subst (λ z. is_active z.status ≡ true) e a,
          )
        ]

    before :
        (x : ResourceSyncJob)
        → In x (end_job o asked s.tables job).jobs
        → is_active x.status ≡ true
        → Origin x
    before x =
        (end_job-status o asked s.tables job
          (λ jobs. In x jobs → is_active x.status ≡ true → Origin x) (λ t. by_status t x))

pub ended-AllRunning :
    (o : Clouds) (asked : Bool) (s : Server) (job : ResourceSyncJob)
    → AllRunning s
    → AllRunning (record {
      tables = end_job o asked s.tables job;
      runs = keep_if (λ n. not (n == job.id)) s.runs;
    })
ended-AllRunning o asked s job all n i =
    let (j, off) = keep_if-In (λ n. not (n == job.id)) n s.runs i in
    let (user, h) = all n j in
    (
      user,
      Same-IsRunning n user s.tables (end_job o asked s.tables job)
          (end_job-Same n o asked s.tables job (λ e. ground arith)) h,
    )
