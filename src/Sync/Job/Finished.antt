-- ===== src/Sync/Job/Finished.antt =====
-- What a run that raises nothing leaves of its job and the items.
use multi_cloud_platform.Prelude.{
  ℕ, ◌≡◌, ◌≢◌, refl, sym, ap, ◌∙◌, ◌⊎◌, inl, inr, Bool, true, false, not, Option, none, some, List,
  [], ◌∷◌, arith, ◌==◌, map, find, keep_if, elem, length, any, all, if◌then◌else◌,
}
use mathlib.Core.Path.{subst}
use multi_cloud_platform.Prelude.Sort.{In}
use multi_cloud_platform.Prelude.Members.{
  map_if-In, In-keep_if, keep_if-In, In-sort_by, sort_by-In, find-In, find-none,
}
use multi_cloud_platform.Models.{RunStatus, success, failed, cancelled, running, is_active}
use multi_cloud_platform.Sync.{ResourceSyncJob, ResourceSyncJobItem, Inventory, Clouds, set_job}
use multi_cloud_platform.Sync.Job.{
  aggregate_status, run_items, job_items, statuses_of, end_as, end_job, run_found, run_sync_job,
  go_on,
}
use multi_cloud_platform.Sync.Job.Aggregate.{
  is_outcome, aggregate_status-active, aggregate_status-outcome,
}
use multi_cloud_platform.Sync.Job.Ended.{ids, Worked, Ran, run_items-Ran}

abbrev pub HasJob : ℕ → Inventory → Type 0
HasJob id st = (j : ResourceSyncJob) × In j st.jobs × (j.id ≡ id)

-- The job and its items have a status of the test, and the other jobs are those from before.
abbrev pub Finished : (RunStatus → Bool) → ℕ → Inventory → Inventory → Type 0
Finished p id before after =
    ((j : ResourceSyncJob)
      → In j after.jobs
      → (j.id ≡ id × p j.status ≡ true) ⊎ (j.id ≢ id × In j before.jobs))
    × ((i : ResourceSyncJobItem) → In i after.items → i.sync_job_id ≡ id → p i.status ≡ true)

ids-In :
    (x : ResourceSyncJobItem) (items : List ResourceSyncJobItem)
    → In x items
    → elem x.id (ids items) ≡ true
ids-In x [] i = absurd i
ids-In x (y ∷ ys) (inl e) = rw e (ground arith)
ids-In x (y ∷ ys) (inr i) = ground (arith, ids-In x ys i)

all-statuses :
    (p : RunStatus → Bool) (items : List ResourceSyncJobItem)
    → ((i : ResourceSyncJobItem) → In i items → p i.status ≡ true)
    → all p (statuses_of items) ≡ true
all-statuses p [] h = refl
all-statuses p (i ∷ is) h =
    let first = h i (inl refl) in let rest = all-statuses p is (λ x j. h x (inr j)) in ground arith

end_job_items :
    (o : Clouds) (b : Bool) (st : Inventory) (job : ResourceSyncJob)
    → (end_job o b st job).items ≡ st.items
unfolding end_job set_job
end_job_items o true st job = refl
end_job_items o false st job = refl

-- The jobs after the end, with the status that it gives.
end_job_jobs :
    (q : RunStatus → Bool) (o : Clouds) (b : Bool) (st : Inventory) (job x : ResourceSyncJob)
    → (b ≡ true → q cancelled ≡ true)
    → q (aggregate_status (statuses_of (job_items st job.id))) ≡ true
    → In x (end_job o b st job).jobs
    → (x.id ≡ job.id × q x.status ≡ true) ⊎ (x.id ≢ job.id × In x st.jobs)
unfolding end_job set_job
end_job_jobs q o b st job x cancels gives i = by b cancels i
  where
    ended :
        (t : RunStatus)
        → q t ≡ true
        → In x (map (λ j. if j.id == job.id then end_as t o.now j else j) st.jobs)
        → (x.id ≡ job.id × q x.status ≡ true) ⊎ (x.id ≢ job.id × In x st.jobs)
    ended t ok i =
        let (y, j, how) = map_if-In (λ z. z.id == job.id) (end_as t o.now) x st.jobs i in
        elim how [
          | inl (same, e) ↦
              inl (subst (λ z. z.id ≡ job.id × q z.status ≡ true) (sym e) (ground arith, ok))
          | inr (other, e) ↦
              inr (subst (λ z. z.id ≢ job.id × In z st.jobs) (sym e) (ground arith, j))
        ]

    by :
        (b : Bool)
        → (b ≡ true → q cancelled ≡ true)
        → In x (end_job o b st job).jobs
        → (x.id ≡ job.id × q x.status ≡ true) ⊎ (x.id ≢ job.id × In x st.jobs)
    by true h i = ended cancelled (h refl) i
    by false h i = ended _ gives i

module _ (p : RunStatus → Bool) (fails : p failed ≡ true) (succeeds : p success ≡ true) (o : Clouds)
    (c : ℕ → Bool) (cancels : (k : ℕ) → c k ≡ true → p cancelled ≡ true)
    (gives : (ss : List RunStatus) → all p ss ≡ true → p (aggregate_status ss) ≡ true) where
  -- The items of the job were all worked on.
  items-Finished :
      (id : ℕ) (st after : Inventory)
      → Worked p (ids (job_items st id)) st after
      → (i : ResourceSyncJobItem) → In i after.items
      → i.sync_job_id ≡ id
      → p i.status ≡ true
  unfolding job_items
  items-Finished id st after worked i k e =
      let (y, j, e1, f1, how) = worked i k in
      let here : In y (job_items st id) =
        In-sort_by (λ z. (z.id, 0)) y (keep_if (λ z. z.sync_job_id == id) st.items)
          (In-keep_if (λ z. z.sync_job_id == id) y st.items j (ground arith)) in
      let at : elem y.id (ids (job_items st id)) ≡ true = ids-In y (job_items st id) here in
      elim how [ inl (_, ok) ↦ ok | inr (off, same) ↦ absurd (ground arith) ]

  end_job-Finished :
      (st : Inventory) (job : ResourceSyncJob) (b : Bool)
      → (b ≡ true → p cancelled ≡ true)
      → ((i : ResourceSyncJobItem) → In i st.items → i.sync_job_id ≡ job.id → p i.status ≡ true)
      → Finished p job.id st (end_job o b st job)
  unfolding job_items
  end_job-Finished st job b asked items = (
    λ x i.
        end_job_jobs p o b st job x asked
          (gives _ (
            all-statuses p (job_items st job.id) (λ i j.
              let (k, same) =
                keep_if-In (λ z. z.sync_job_id == job.id) i st.items
                  (sort_by-In (λ z. (z.id, 0)) i _ j) in
              items i k (ground arith))))
          i,
    λ i k e. items i (subst (λ z. In i z) (end_job_items o b st job) k) e,
  )

  -- The start of the run changes no other job.
  started-Finished :
      (st b after : Inventory) (job : ResourceSyncJob) (f : ResourceSyncJob → ResourceSyncJob)
      → ((j : ResourceSyncJob) → (f j).id ≡ j.id)
      → b.jobs ≡ (set_job st job.id f).jobs
      → Finished p job.id b after
      → Finished p job.id st after
  unfolding set_job
  started-Finished st b after job f keeps same (jobs, items) = (
    λ x i. elim (jobs x i) [
      | inl done ↦ inl done
      | inr (n, j) ↦
          let (y, k, how) =
            map_if-In (λ z. z.id == job.id) f x st.jobs (subst (λ zs. In x zs) same j) in
          elim how [
            | inl (at, e) ↦
                let e2 : x.id ≡ y.id = ap (λ z. z.id) e ∙ keeps y in absurd (ground arith)
            | inr (off, e) ↦ inr (n, subst (λ z. In z st.jobs) (sym e) k)
          ]
    ],
    items,
  )

  run_found-Finished :
      (st : Inventory) (job : ResourceSyncJob)
      → (run_found o c st (some job)).1 ≡ false
      → Finished p job.id st (run_found o c st (some job)).0
  unfolding run_found
  run_found-Finished st job h =
      by (run_items o c started 0 (job_items started job.id))
        (run_items-Ran p fails succeeds o c cancels started 0 (job_items started job.id)) h
    where
      mark : ResourceSyncJob → ResourceSyncJob
      mark j = record j { status = running; started_at = some o.now }

      started : Inventory
      started = set_job st job.id mark

      n : ℕ
      n = length (job_items started job.id)

      by :
          (r : Inventory × Bool)
          → Ran p (ids (job_items started job.id)) started r
          → (go_on (λ after. (end_job o (c n) after job, false)) r).1 ≡ false
          → Finished p job.id st (go_on (λ after. (end_job o (c n) after job, false)) r).0
      by (b, true) ran h = absurd (ground arith)
      by (b, false) (same, inl bad) h = absurd (ground arith)
      by (b, false) (same, inr worked) h =
          started-Finished st b (end_job o (c n) b job) job mark (λ j. refl) same
            (end_job-Finished b job (c n) (cancels n) (items-Finished job.id started b worked))

  pub run-Finished :
      (st : Inventory) (id : ℕ)
      → HasJob id st
      → (run_sync_job o c st id).1 ≡ false
      → Finished p id st (run_sync_job o c st id).0
  unfolding run_sync_job
  run-Finished st id (j, i, e) h = by (find (λ j. j.id == id) st.jobs) refl h
    where
      by :
          (f : Option ResourceSyncJob)
          → find (λ j. j.id == id) st.jobs ≡ f
          → (run_found o c st f).1 ≡ false
          → Finished p id st (run_found o c st f).0
      by none eq h = absurd (ground (arith, find-none (λ j. j.id == id) j st.jobs eq i))
      by (some job) eq h =
          let (k, at) = find-In (λ j. j.id == id) job st.jobs eq in
          let same : job.id ≡ id = ground arith in
          subst (λ n. Finished p n st (run_found o c st (some job)).0) same
            (run_found-Finished st job h)

abbrev pub is_terminal : RunStatus → Bool
is_terminal s = not (is_active s)

ended_all : (ss : List RunStatus) → all is_terminal ss ≡ true → any is_active ss ≡ false
ended_all [] h = refl
ended_all (s ∷ ss) h = ground (arith, ended_all ss)

-- A run of a job that raises nothing ends the job and all its items, and leaves the other jobs.
pub run_sync_job-Finished :
    (o : Clouds) (c : ℕ → Bool) (st : Inventory) (id : ℕ)
    → HasJob id st
    → (run_sync_job o c st id).1 ≡ false
    → Finished is_terminal id st (run_sync_job o c st id).0
run_sync_job-Finished o c st id =
    run-Finished is_terminal refl refl o c (λ k h. refl)
      (λ ss h. rw (aggregate_status-active ss) (rw (ended_all ss h) refl)) st id

-- A run that raises nothing and is never asked to be cancelled leaves the job and its items with an outcome other
-- than `cancelled`, whatever their statuses were before.
pub run_sync_job-outcome :
    (o : Clouds) (c : ℕ → Bool) (st : Inventory) (id : ℕ)
    → ((k : ℕ) → c k ≡ false)
    → HasJob id st
    → (run_sync_job o c st id).1 ≡ false
    → Finished is_outcome id st (run_sync_job o c st id).0
run_sync_job-outcome o c st id never =
    run-Finished is_outcome refl refl o c (λ k h. absurd (ground (arith, never k)))
      aggregate_status-outcome st id
