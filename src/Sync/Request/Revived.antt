-- ===== src/Sync/Request/Revived.antt =====
-- How a user comes to two active jobs: a job that was cancelled before its run began, which begins all
-- the same, since `_run_sync_job_inner` does not look at the status; and two requests at once, since
-- `create_sync_job` looks for an active job and inserts its own without a lock.
use multi_cloud_platform.Prelude.{
  ℕ, ◌<◌, ◌≡◌, refl, inl, inr, Option, none, some, List, ◌∷◌, arith, String, ◌==◌,
}
use mathlib.Core.Path.{subst}
use multi_cloud_platform.Prelude.Int.{ℤ}
use multi_cloud_platform.Prelude.Sort.{In}
use multi_cloud_platform.Prelude.Members.{In-map_if_same, In-map_if_other}
use multi_cloud_platform.Models.{CloudAccount, pending, running}
use multi_cloud_platform.Sync.{ResourceSyncJob, Inventory, Clouds, set_job}
use multi_cloud_platform.Sync.Job.{begin_job}
use multi_cloud_platform.Sync.Request.{
  accepted, add_job, create_requested, create_sync_job, next_job_id,
}
use multi_cloud_platform.Sync.Request.Accepted.{
  Accepts, create_requested-Accepts, create_sync_job-Accepts,
}
use multi_cloud_platform.Sync.Request.Stuck.{next_job_id-fresh}
use multi_cloud_platform.Sync.Request.OneActive.{OneActive}

beside-new :
    (o : Clouds) (st : Inventory) (user now : ℕ) (job : ResourceSyncJob)
    (accounts : List CloudAccount)
    → In job st.jobs
    → job.user_id ≡ user
    → OneActive (begin_job o (add_job st user now accounts) job)
    → ⊥
unfolding add_job set_job
beside-new o st user now job accounts i mine one =
    let mark : ResourceSyncJob → ResourceSyncJob =
      λ j. record j { status = running; started_at = some o.now } in
    let new : ResourceSyncJob = record {
      id = next_job_id st.jobs;
      user_id = user;
      status = pending;
      requested_at = now;
      started_at = none;
      finished_at = none;
    } in
    let older : job.id < next_job_id st.jobs = next_job_id-fresh job st.jobs i in
    let same =
      one (mark job) new
        (In-map_if_same (λ z. z.id == job.id) mark job (new ∷ st.jobs) (ground arith) (inr i))
        (In-map_if_other (λ z. z.id == job.id) mark new (new ∷ st.jobs) (ground arith) (inl refl))
        refl refl mine in
    absurd (omega arith)

-- A run that begins once its user has begun another job, the first one being active no more, leaves the
-- user with two active jobs.
revived_beside_new :
    (parse_int : String → Option ℤ) (o : Clouds) (st : Inventory) (user now : ℕ)
    (requested : Option (List String)) (job : ResourceSyncJob) (id : ℕ) (after : Inventory)
    → In job st.jobs
    → job.user_id ≡ user
    → create_sync_job parse_int st user now requested ≡ accepted id after
    → OneActive (begin_job o after job)
    → ⊥
revived_beside_new parse_int o st user now requested job id after i mine e =
    subst (Accepts (λ z. OneActive (begin_job o z job) → ⊥)) e (
      create_sync_job-Accepts (λ z. OneActive (begin_job o z job) → ⊥) parse_int st user now
        requested (λ idle accounts. beside-new o st user now job accounts i mine))

both_new :
    (st : Inventory) (user t1 t2 : ℕ) (first second : List CloudAccount)
    → OneActive (add_job (add_job st user t1 first) user t2 second)
    → ⊥
unfolding add_job
both_new st user t1 t2 first second one =
    let fresh : ℕ → ℕ → ResourceSyncJob = λ id t. record {
      id = id;
      user_id = user;
      status = pending;
      requested_at = t;
      started_at = none;
      finished_at = none;
    } in
    let older = fresh (next_job_id st.jobs) t1 in
    let jobs = older ∷ st.jobs in
    let newer = fresh (next_job_id jobs) t2 in
    let less : older.id < next_job_id jobs = next_job_id-fresh older jobs (inl refl) in
    let same = one older newer (inr (inl refl)) (inl refl) refl refl refl in absurd (omega arith)

-- Two requests that both go on past their check leave the user with two active jobs.
overlapping_requests :
    (parse_int : String → Option ℤ) (st mid after : Inventory) (user t1 t2 id1 id2 : ℕ)
    (first second : Option (List String))
    → create_requested parse_int st user t1 first ≡ accepted id1 mid
    → create_requested parse_int mid user t2 second ≡ accepted id2 after
    → OneActive after
    → ⊥
overlapping_requests parse_int st mid after user t1 t2 id1 id2 first second e f =
    subst (Accepts P) f (
      create_requested-Accepts P parse_int mid user t2 second (
        subst (Accepts (λ m. (accounts : List CloudAccount) → P (add_job m user t2 accounts))) e (
          create_requested-Accepts
            (λ m. (accounts : List CloudAccount) → P (add_job m user t2 accounts)) parse_int st user
            t1 first (both_new st user t1 t2))))
  where
    P : Inventory → Type 0
    P z = OneActive z → ⊥
