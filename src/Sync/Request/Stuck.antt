-- ===== src/Sync/Request/Stuck.antt =====
-- A job whose run raises an exception.
use multi_cloud_platform.Prelude.{
  ℕ, ◌<◌, ◌≡◌, ◌≢◌, refl, sym, ap, ◌∙◌, inl, inr, Bool, true, false, Option, none, some, List, [],
  ◌∷◌, arith, String, Bool-cases, map, find, ◌==◌, ◌&&◌, length, if◌then◌else◌,
}
use mathlib.Core.Path.{subst}
use multi_cloud_platform.Prelude.Int.{ℤ}
use multi_cloud_platform.Prelude.Sort.{In}
use multi_cloud_platform.Prelude.Members.{
  map_if-In, In-map_if_same, In-map_if_other, any-false, find-In,
}
use multi_cloud_platform.Models.{CloudAccount, RunStatus, pending, running, cancelled, is_active}
use multi_cloud_platform.Sync.{ResourceSyncJob, Inventory, Clouds, set_job}
use multi_cloud_platform.Sync.Job.{
  run_sync_job, run_found, run_items, job_items, end_job, end_as, go_on,
}
use multi_cloud_platform.Sync.Job.Ended.{ids, Ran, run_items-Ran}
use multi_cloud_platform.Sync.Request.{
  refused, job_already_running, add_job, create_sync_job, cancel_pending, has_active_job,
  next_job_id,
}
use multi_cloud_platform.Sync.Request.Accepted.{
  Accepts, create_sync_job-Accepts, cancel_sync_job-Accepts, Requested, created, cancel_asked,
}

abbrev is_waiting : RunStatus → Bool
is_waiting pending = true
is_waiting _ = false

-- The user's job of the id is running.
abbrev pub IsRunning : ℕ → ℕ → Inventory → Type 0
IsRunning id user st =
    ((j : ResourceSyncJob) × In j st.jobs × (j.id ≡ id) × (j.user_id ≡ user))
    × ((j : ResourceSyncJob) → In j st.jobs → j.id ≡ id → j.status ≡ running)

-- The jobs of the id are the same.
abbrev pub Same : ℕ → List ResourceSyncJob → List ResourceSyncJob → Type 0
Same id before after =
    (j : ResourceSyncJob) → j.id ≡ id → (In j before → In j after) × (In j after → In j before)

pub Same-IsRunning :
    (id user : ℕ) (before after : Inventory)
    → Same id before.jobs after.jobs
    → IsRunning id user before
    → IsRunning id user after
Same-IsRunning id user before after same ((j, i, e, f), all) =
    ((j, (same j e).0 i, e, f), λ k l g. all k ((same k g).1 l) g)

pub map-Same :
    (id n : ℕ) (f : ResourceSyncJob → ResourceSyncJob) (js : List ResourceSyncJob)
    → ((j : ResourceSyncJob) → (f j).id ≡ j.id)
    → id ≢ n
    → Same id js (map (λ j. if j.id == n then f j else j) js)
map-Same id n f js keeps other x e = (
  λ i. In-map_if_other (λ z. z.id == n) f x js (ground arith) i,
  λ i.
      let (y, j, how) = map_if-In (λ z. z.id == n) f x js i in
      elim how [
        | inl (same, e2) ↦
            let e3 : x.id ≡ y.id = ap (λ z. z.id) e2 ∙ keeps y in absurd (ground arith)
        | inr (off, e2) ↦ subst (λ z. In z js) (sym e2) j
      ],
)

Same-trans : (id : ℕ) (a b c : List ResourceSyncJob) → Same id a b → Same id b c → Same id a c
Same-trans id a b c h g j e = (λ i. (g j e).0 ((h j e).0 i), λ i. (h j e).1 ((g j e).1 i))

pub end_job-Same :
    (id : ℕ) (o : Clouds) (b : Bool) (st : Inventory) (job : ResourceSyncJob)
    → id ≢ job.id
    → Same id st.jobs (end_job o b st job).jobs
unfolding end_job set_job
end_job-Same id o true st job n = map-Same id job.id (end_as cancelled o.now) st.jobs (λ j. refl) n
end_job-Same id o false st job n = map-Same id job.id (end_as _ o.now) st.jobs (λ j. refl) n

module _ (o : Clouds) (c : ℕ → Bool) (st : Inventory) where
  mark : ResourceSyncJob → ResourceSyncJob
  mark j = record j { status = running; started_at = some o.now }

  run_sync_job-Same : (id n : ℕ) → id ≢ n → Same id st.jobs (run_sync_job o c st n).0.jobs
  unfolding run_sync_job run_found set_job mark
  run_sync_job-Same id n other = by (find (λ j. j.id == n) st.jobs) refl
    where
      by_items :
          (job : ResourceSyncJob)
          → id ≢ job.id
          → (start : Inventory) → Same id st.jobs start.jobs
          → (k : ℕ) (r : Inventory × Bool) (ns : List ℕ) → Ran (λ s. true) ns start r
          → Same id st.jobs (go_on (λ after. (end_job o (c k) after job, false)) r).0.jobs
      by_items job off start same k (b, true) ns (jobs, _) = subst (Same id st.jobs) (sym jobs) same
      by_items job off start same k (b, false) ns (jobs, _) =
          Same-trans id st.jobs b.jobs _ (subst (Same id st.jobs) (sym jobs) same)
            (end_job-Same id o (c k) b job off)

      by :
          (f : Option ResourceSyncJob)
          → find (λ j. j.id == n) st.jobs ≡ f
          → Same id st.jobs (run_found o c st f).0.jobs
      by none e = λ j f. (λ i. i, λ i. i)
      by (some job) e =
          let (_, at) = find-In (λ j. j.id == n) job st.jobs e in
          let off : id ≢ job.id = ground arith in
          let start = set_job st job.id mark in
          by_items job off start (map-Same id job.id mark st.jobs (λ j. refl) off) _
            (run_items o c start 0 (job_items start job.id)) _
            (run_items-Ran (λ s. true) refl refl o c (λ k h. refl) start 0 (job_items start job.id))

  raised_found :
      (job j : ResourceSyncJob)
      → In j st.jobs
      → j.id ≡ job.id
      → (run_found o c st (some job)).1 ≡ true
      → IsRunning job.id j.user_id (run_found o c st (some job)).0
  unfolding run_found set_job mark
  raised_found job j i e h =
      by_items (length (job_items started id)) (run_items o c started 0 (job_items started id))
        (ids (job_items started id))
        (run_items-Ran (λ s. true) refl refl o c (λ k g. refl) started 0 (job_items started id)) h
    where
      id : ℕ
      id = job.id

      started : Inventory
      started = set_job st id mark

      all_running : IsRunning id j.user_id started
      all_running = (
        (mark j, In-map_if_same (λ z. z.id == id) mark j st.jobs (ground arith) i, e, refl),
        λ x k f.
            let (y, l, how) = map_if-In (λ z. z.id == id) mark x st.jobs k in
            elim how [
              | inl (same, e2) ↦ ap (λ z. z.status) e2
              | inr (off, e2) ↦ let e3 : x.id ≡ y.id = ap (λ z. z.id) e2 in absurd (ground arith)
            ],
      )

      by_items :
          (k : ℕ) (r : Inventory × Bool) (ns : List ℕ)
          → Ran (λ s. true) ns started r
          → (go_on (λ after. (end_job o (c k) after job, false)) r).1 ≡ true
          → IsRunning id j.user_id (go_on (λ after. (end_job o (c k) after job, false)) r).0
      by_items k (b, true) ns (jobs, _) h =
          Same-IsRunning id j.user_id started b
            (subst (Same id started.jobs) (sym jobs) (λ x f. (λ i. i, λ i. i))) all_running
      by_items k (b, false) ns (jobs, _) h = absurd (ground arith)

  -- What a run that raises leaves.
  raised-IsRunning :
      (id : ℕ) (j : ResourceSyncJob)
      → In j st.jobs
      → j.id ≡ id
      → (run_sync_job o c st id).1 ≡ true
      → IsRunning id j.user_id (run_sync_job o c st id).0
  unfolding run_sync_job run_found
  raised-IsRunning id j i e h = by (find (λ z. z.id == id) st.jobs) refl h
    where
      by :
          (f : Option ResourceSyncJob)
          → find (λ z. z.id == id) st.jobs ≡ f
          → (run_found o c st f).1 ≡ true
          → IsRunning id j.user_id (run_found o c st f).0
      by none f h = absurd (ground arith)
      by (some job) f h =
          let same : job.id ≡ id = ground (arith, (find-In (λ z. z.id == id) job st.jobs f).1) in
          subst (λ n. IsRunning n j.user_id (run_found o c st (some job)).0) same
            (raised_found job j i (ground arith) h)

pub next_job_id-fresh :
    (j : ResourceSyncJob) (js : List ResourceSyncJob) → In j js → j.id < next_job_id js
next_job_id-fresh j [] i = absurd i
next_job_id-fresh j (k ∷ ks) (inl e) = let same : j.id ≡ k.id = ap (λ z. z.id) e in ground arith
next_job_id-fresh j (k ∷ ks) (inr i) = ground (arith, next_job_id-fresh j ks i)

add_job-IsRunning :
    (id user : ℕ) (st : Inventory) (by now : ℕ) (accounts : List CloudAccount)
    → IsRunning id user st
    → IsRunning id user (add_job st by now accounts)
unfolding add_job
add_job-IsRunning id user st by now accounts ((j, i, e, f), all) = (
  (j, inr i, e, f),
  λ x k g. elim k [
    | inl new ↦
        let same : x.id ≡ next_job_id st.jobs = ap (λ z. z.id) new in
        absurd (ground (arith, next_job_id-fresh j st.jobs i))
    | inr old ↦ all x old g
  ],
)

cancel_pending-IsRunning :
    (id user : ℕ) (st : Inventory) (job : ResourceSyncJob) (now : ℕ)
    → In job st.jobs
    → job.status ≡ pending
    → IsRunning id user st
    → IsRunning id user (cancel_pending st job.id now)
unfolding cancel_pending set_job
cancel_pending-IsRunning id user st job now i waits (has, all) =
    Same-IsRunning id user st (cancel_pending st job.id now)
      (map-Same id job.id (λ j. record j { status = cancelled; finished_at = some now }) st.jobs
        (λ j. refl) other)
      (has, all)
  where
    other : id ≢ job.id
    other e =
        let s = all job i (sym e) in
        let t : is_waiting pending ≡ is_waiting running = ap is_waiting (sym waits ∙ s) in
        absurd (ground arith)

-- What can follow: a request of anyone, and a run of another job, whether it raises or not.
pub data Later (parse_int : String → Option ℤ) (id : ℕ) (st : Inventory) : Inventory → Type 0 where
  now : Later parse_int id st st
  request :
      (mid after : Inventory)
      → Later parse_int id st mid
      → Requested parse_int mid after
      → Later parse_int id st after
  ran_other :
      (mid : Inventory) (o : Clouds) (c : ℕ → Bool) (n : ℕ) (after : Inventory)
      → Later parse_int id st mid
      → id ≢ n
      → (run_sync_job o c mid n).0 ≡ after
      → Later parse_int id st after

module _ (parse_int : String → Option ℤ) (id user : ℕ) where
  pub Requested-IsRunning :
      (st after : Inventory)
      → Requested parse_int st after
      → IsRunning id user st
      → IsRunning id user after
  Requested-IsRunning st after (created u at requested n after2 e) h =
      subst (Accepts (IsRunning id user)) e (
        create_sync_job-Accepts (IsRunning id user) parse_int st u at requested
          (λ idle accounts. add_job-IsRunning id user st u at accounts h))
  Requested-IsRunning st after (cancel_asked u at job n after2 e) h =
      subst (Accepts (IsRunning id user)) e (
        cancel_sync_job-Accepts (IsRunning id user) st u at job
          (λ j i p. cancel_pending-IsRunning id user st j at i p h) (λ m. h))

  Later-IsRunning :
      (st after : Inventory)
      → IsRunning id user st
      → Later parse_int id st after
      → IsRunning id user after
  Later-IsRunning st after h now = h
  Later-IsRunning st after h (request mid after2 l r) =
      Requested-IsRunning mid after r (Later-IsRunning st mid h l)
  Later-IsRunning st after h (ran_other mid o c n after2 l other e) = subst (IsRunning id user) e (
      Same-IsRunning id user mid (run_sync_job o c mid n).0 (run_sync_job-Same o c mid id n other)
        (Later-IsRunning st mid h l))

IsRunning-refused :
    (parse_int : String → Option ℤ) (st : Inventory) (id user at : ℕ)
    (requested : Option (List String))
    → IsRunning id user st
    → create_sync_job parse_int st user at requested ≡ refused job_already_running
unfolding create_sync_job
IsRunning-refused parse_int st id user at requested ((j, i, e, f), all) =
    elim (Bool-cases (has_active_job st user)) [
      | inl busy ↦ rw busy refl
      | inr idle ↦
          let quiet = any-false (λ z. z.user_id == user && is_active z.status) j st.jobs idle i in
          let s : is_active j.status ≡ true = ap is_active (all j i e) in absurd (ground arith)
    ]

-- After a run that raises, every later request of the job's user to begin a job is refused, whatever requests,
-- cancellations and runs of other jobs come before.
pub run_sync_job-stuck :
    (parse_int : String → Option ℤ) (o : Clouds) (c : ℕ → Bool) (st : Inventory)
    (j : ResourceSyncJob)
    → In j st.jobs
    → (run_sync_job o c st j.id).1 ≡ true
    → (after : Inventory) → Later parse_int j.id (run_sync_job o c st j.id).0 after
    → (at : ℕ) (requested : Option (List String))
    → create_sync_job parse_int after j.user_id at requested ≡ refused job_already_running
run_sync_job-stuck parse_int o c st j i h after later at requested =
    IsRunning-refused parse_int after j.id j.user_id at requested (
      Later-IsRunning parse_int j.id j.user_id (run_sync_job o c st j.id).0 after
        (raised-IsRunning o c st j.id j i refl h) later)
