-- ===== src/Sync/Request/Accepted.antt =====
-- What holds after each request that is accepted.
use multi_cloud_platform.Prelude.{
  ℕ, ◌≡◌, refl, inl, inr, Bool, true, false, not, Option, none, some, List, [], ◌∷◌, arith, String,
  Bool-cases, find, ◌==◌, ◌&&◌, length, if◌then◌else◌,
}
use multi_cloud_platform.Prelude.Int.{ℤ}
use multi_cloud_platform.Prelude.Sort.{In}
use multi_cloud_platform.Prelude.Members.{find-In}
use multi_cloud_platform.Models.{CloudAccount, RunStatus, pending, is_active}
use multi_cloud_platform.Sync.{ResourceSyncJob, Inventory}
use multi_cloud_platform.Sync.Job.{same_status}
use multi_cloud_platform.Sync.Request.{
  SyncResult, refused, accepted, cloud_account_not_found, sync_job_not_found, job_not_cancellable,
  add_job, create_job_for, create_named, create_requested, create_sync_job, cancel_pending,
  cancel_owned, get_owned_job, cancel_sync_job, has_active_job, verified_accounts, named_accounts,
  parse_int_list, count_distinct,
}

-- What a request that is accepted leaves.
abbrev pub Accepts : (Inventory → Type 0) → SyncResult → Type 0
Accepts P (refused e) = Unit
Accepts P (accepted id after) = P after

-- A request to begin or to cancel a job that is accepted.
pub data Requested (parse_int : String → Option ℤ) (st : Inventory) : Inventory → Type 0 where
  created :
      (user now : ℕ) (requested : Option (List String)) (id : ℕ) (after : Inventory)
      → create_sync_job parse_int st user now requested ≡ accepted id after
      → Requested parse_int st after
  cancel_asked :
      (user now job id : ℕ) (after : Inventory)
      → cancel_sync_job st user now job ≡ accepted id after
      → Requested parse_int st after

-- The jobs after a request that begins one, past its check and with it.
module _ (P : Inventory → Type 0) (parse_int : String → Option ℤ) (st : Inventory)
    (user now : ℕ) where
  pub create_requested-Accepts :
      (requested : Option (List String))
      → ((accounts : List CloudAccount) → P (add_job st user now accounts))
      → Accepts P (create_requested parse_int st user now requested)
  unfolding create_requested create_named create_job_for
  create_requested-Accepts requested g = by_request requested
    where
      by_accounts : (accounts : List CloudAccount) → Accepts P (create_job_for st user now accounts)
      by_accounts [] = tt
      by_accounts (a ∷ rest) = g (a ∷ rest)

      by_count :
          (ids : List ℤ) (b : Bool)
          → Accepts P (
              if b
              then create_job_for st user now (named_accounts st.db user ids)
              else refused cloud_account_not_found)
      by_count ids true = by_accounts (named_accounts st.db user ids)
      by_count ids false = tt

      by_ids : (ids : Option (List ℤ)) → Accepts P (create_named st user now ids)
      by_ids none = tt
      by_ids (some ids) =
          by_count ids (length (named_accounts st.db user ids) == count_distinct ids)

      by_request : (r : Option (List String)) → Accepts P (create_requested parse_int st user now r)
      by_request none = by_accounts (verified_accounts st.db user)
      by_request (some values) = by_ids (parse_int_list parse_int values)

  pub create_sync_job-Accepts :
      (requested : Option (List String))
      → (has_active_job st user ≡ false
          → (accounts : List CloudAccount) → P (add_job st user now accounts))
      → Accepts P (create_sync_job parse_int st user now requested)
  unfolding create_sync_job
  create_sync_job-Accepts requested h = elim (Bool-cases (has_active_job st user)) [
    | inl busy ↦ rw busy tt
    | inr idle ↦ rw idle (create_requested-Accepts requested (h idle))
  ]

pub cancel_sync_job-Accepts :
    (P : Inventory → Type 0) (st : Inventory) (user now id : ℕ)
    → ((job : ResourceSyncJob)
        → In job st.jobs
        → job.status ≡ pending
        → P (cancel_pending st job.id now))
    → ((n : ℕ) → P (record st { cancel_requested = n ∷ st.cancel_requested }))
    → Accepts P (cancel_sync_job st user now id)
unfolding cancel_sync_job cancel_owned get_owned_job
cancel_sync_job-Accepts P st user now id h g =
    by (find (λ j. j.id == id && j.user_id == user) st.jobs) refl
  where
    by_status :
        (job : ResourceSyncJob)
        → In job st.jobs
        → (b c : Bool) → (c ≡ true → job.status ≡ pending)
        → Accepts P (
            if b
            then refused job_not_cancellable
            else if c
            then accepted job.id (cancel_pending st job.id now)
            else accepted job.id (record st { cancel_requested = job.id ∷ st.cancel_requested }))
    by_status job i true c e = tt
    by_status job i false true e = h job i (e refl)
    by_status job i false false e = g job.id

    same : (s : RunStatus) → same_status s pending ≡ true → s ≡ pending
    same pending e = refl
    same _ e = absurd (ground arith)

    by :
        (f : Option ResourceSyncJob)
        → find (λ j. j.id == id && j.user_id == user) st.jobs ≡ f
        → Accepts P
            (elim f [ none ↦ refused sync_job_not_found | some job ↦ cancel_owned st now job ])
    by none e = tt
    by (some job) e =
        by_status job (find-In _ job st.jobs e).0 (not (is_active job.status))
          (same_status job.status pending) (same job.status)
