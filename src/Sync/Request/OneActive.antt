-- ===== src/Sync/Request/OneActive.antt =====
-- A user's jobs over the requests that begin and cancel them.
use multi_cloud_platform.Prelude.{
  ℕ, ◌≡◌, ◌≢◌, refl, sym, ap, inl, inr, true, false, Option, none, some, List, ◌∷◌, arith, String,
  ◌==◌, ◌&&◌,
}
use mathlib.Core.Path.{subst}
use multi_cloud_platform.Prelude.Int.{ℤ}
use multi_cloud_platform.Prelude.Sort.{In}
use multi_cloud_platform.Prelude.Members.{map_if-In, any-false}
use multi_cloud_platform.Models.{CloudAccount, pending, cancelled, is_active}
use multi_cloud_platform.Sync.{ResourceSyncJob, Inventory, set_job}
use multi_cloud_platform.Sync.Request.Accepted.{
  Accepts, create_sync_job-Accepts, cancel_sync_job-Accepts, Requested, created, cancel_asked,
}
use multi_cloud_platform.Sync.Request.{add_job, cancel_pending, has_active_job, next_job_id}

abbrev pub OneActive : Inventory → Type 0
OneActive st =
    (j k : ResourceSyncJob)
    → In j st.jobs
    → In k st.jobs
    → is_active j.status ≡ true
    → is_active k.status ≡ true
    → j.user_id ≡ k.user_id
    → j.id ≡ k.id

-- Every job that is active was there before.
abbrev Shrinks : Inventory → Inventory → Type 0
Shrinks before after =
    (j : ResourceSyncJob) → In j after.jobs → is_active j.status ≡ true → In j before.jobs

Shrinks-OneActive :
    (before after : Inventory) → Shrinks before after → OneActive before → OneActive after
Shrinks-OneActive before after h one j k i l a b e = one j k (h j i a) (h k l b) a b e

add_job-OneActive :
    (st : Inventory) (user now : ℕ) (accounts : List CloudAccount)
    → OneActive st
    → has_active_job st user ≡ false
    → OneActive (add_job st user now accounts)
unfolding add_job
add_job-OneActive st user now accounts one idle j k i l a b e = by i l
  where
    quiet : (x : ResourceSyncJob) → In x st.jobs → is_active x.status ≡ true → x.user_id ≢ user
    quiet x i a e =
        let h = any-false (λ z. z.user_id == user && is_active z.status) x st.jobs idle i in
        ground arith

    new : ResourceSyncJob
    new = record {
      id = next_job_id st.jobs;
      user_id = user;
      status = pending;
      requested_at = now;
      started_at = none;
      finished_at = none;
    }

    by : In j (new ∷ st.jobs) → In k (new ∷ st.jobs) → j.id ≡ k.id
    by (inl x) (inl y) = rw (x, y) refl
    by (inr x) (inr y) = one j k x y a b e
    by (inl x) (inr y) =
        let f : j.user_id ≡ user = ap (λ z. z.user_id) x in absurd (quiet k y b (ground arith))
    by (inr x) (inl y) =
        let f : k.user_id ≡ user = ap (λ z. z.user_id) y in absurd (quiet j x a (ground arith))

cancel_pending-Shrinks : (st : Inventory) (id now : ℕ) → Shrinks st (cancel_pending st id now)
unfolding cancel_pending set_job
cancel_pending-Shrinks st id now x i a =
    let f : ResourceSyncJob → ResourceSyncJob =
      λ j. record j { status = cancelled; finished_at = some now } in
    let (y, j, how) = map_if-In (λ z. z.id == id) f x st.jobs i in
    elim how [
      | inl (same, e) ↦
          let quiet : is_active x.status ≡ false = ap (λ z. is_active z.status) e in
          absurd (ground arith)
      | inr (other, e) ↦ subst (λ z. In z st.jobs) (sym e) j
    ]

module _ {parse_int : String → Option ℤ} where
  pub Requested-OneActive :
      (st after : Inventory) → Requested parse_int st after → OneActive st → OneActive after
  Requested-OneActive st after (created user now requested id after2 e) one =
      subst (Accepts OneActive) e (
        create_sync_job-Accepts OneActive parse_int st user now requested
          (λ idle accounts. add_job-OneActive st user now accounts one idle))
  Requested-OneActive st after (cancel_asked user now job id after2 e) one =
      subst (Accepts OneActive) e (
        cancel_sync_job-Accepts OneActive st user now job
          (λ j i p.
            Shrinks-OneActive st (cancel_pending st j.id now) (cancel_pending-Shrinks st j.id now)
              one)
          (λ n. one))
