-- ===== src/Notify/Due.antt =====
-- What an evaluation does to the table of notifications, and when.
use multi_cloud_platform.Prelude.{
  ◌*◌, ◌≡◌, refl, true, false, Option, none, some, List, Bool-cases, Option-cases, All, find, ◌==◌,
  inl, inr, [],
}
use mathlib.Core.Path.{subst}
use mathlib.Core.Option.{some-injective}
use multi_cloud_platform.Prelude.Int.{ℤ, pos, ltb_ℤ}
use multi_cloud_platform.Calendar.{Date}
use multi_cloud_platform.Models.{Team, TeamBudget, CloudAccount, Db}
use multi_cloud_platform.Budget.{is_in_progress}
use multi_cloud_platform.Budget.Status.{
  BudgetInfo, BudgetStatus, threshold_percents, compute_budget_status,
}
use multi_cloud_platform.Notify.{
  Notification, is_sent, notify_thresholds, notify_row, notify_budget, notify_status,
  evaluate_budget_thresholds, evaluate_for_team, evaluate_for_account,
}
use multi_cloud_platform.Notify.Once.{Unique, Grows, IsNew, After, notify_thresholds-After}

-- Only the table of notifications changes, and it keeps its constraint.
abbrev pub Evaluated : Db → Db × List Notification → Type 0
Evaluated db (db2, made) = (db2 ≡ record db { sent = db2.sent }) × After db.sent db2.sent made

module _ (db : Db) where
  unchanged-Evaluated : Unique db.sent → Evaluated db (db, [])
  unchanged-Evaluated u = (refl, (u, (λ b p t h. h), tt))

  notify_row-Evaluated :
      (team : Team) (ratio : Option ℤ) (info : BudgetInfo) (row : Option TeamBudget)
      (r : Db × List Notification)
      → Unique db.sent
      → notify_row db team ratio info row ≡ some r
      → Evaluated db r
  unfolding notify_row
  notify_row-Evaluated team ratio info none r u e =
      subst (Evaluated db) (some-injective _ _ e) (unchanged-Evaluated u)
  notify_row-Evaluated team none info (some budget) r u e = cc
  notify_row-Evaluated team (some ratio) info (some budget) r u e =
      subst (Evaluated db) (some-injective _ _ e) (
        refl,
        (notify_thresholds-After team budget.id info.period_start ratio threshold_percents db.sent
            u).0,
      )

  notify_budget-Evaluated :
      (team : Team) (ratio : Option ℤ) (info : Option BudgetInfo) (r : Db × List Notification)
      → Unique db.sent
      → notify_budget db team ratio info ≡ some r
      → Evaluated db r
  unfolding notify_budget
  notify_budget-Evaluated team ratio none r u e =
      subst (Evaluated db) (some-injective _ _ e) (unchanged-Evaluated u)
  notify_budget-Evaluated team ratio (some info) r u e =
      elim (Bool-cases (is_in_progress info.period_state)) [
        | inl now ↦ notify_row-Evaluated team ratio info _ r u (rw now at e)
        | inr not_now ↦
            subst (Evaluated db) (some-injective (db, []) r (rw not_now at e))
              (unchanged-Evaluated u)
      ]

  notify_status-Evaluated :
      (team : Team) (s : Option BudgetStatus) (r : Db × List Notification)
      → Unique db.sent
      → notify_status db team s ≡ some r
      → Evaluated db r
  unfolding notify_status
  notify_status-Evaluated team none r u e = cc
  notify_status-Evaluated team (some s) r u e = elim (Bool-cases s.computable) [
    | inl on ↦ notify_budget-Evaluated team s.ratio_pct s.budget r u (rw on at e)
    | inr off ↦
        subst (Evaluated db) (some-injective (db, []) r (rw off at e)) (unchanged-Evaluated u)
  ]

  pub evaluate_budget_thresholds-Evaluated :
      (team : Team) (today : Date) (r : Db × List Notification)
      → Unique db.sent
      → evaluate_budget_thresholds db team today ≡ some r
      → Evaluated db r
  unfolding evaluate_budget_thresholds
  evaluate_budget_thresholds-Evaluated team today r u e = notify_status-Evaluated team _ r u e

  evaluate_for_team-Evaluated :
      (today : Date) (team : Option Team)
      → Unique db.sent
      → Evaluated db (evaluate_for_team db today team)
  unfolding evaluate_for_team
  evaluate_for_team-Evaluated today none u = unchanged-Evaluated u
  evaluate_for_team-Evaluated today (some team) u =
      elim (Option-cases (evaluate_budget_thresholds db team today)) [
        | inl e ↦ rw (e, evaluate_for_team) (unchanged-Evaluated u)
        | inr (r, e) ↦
            rw (e, evaluate_for_team) (evaluate_budget_thresholds-Evaluated team today r u e)
      ]

-- An evaluation changes only the table of notifications, whose UNIQUE constraint stays met and whose
-- rows stay; each notification made had no row for its budget, period and threshold, and has one now.
pub evaluate_for_account-Evaluated :
    (db : Db) (today : Date) (account : CloudAccount)
    → Unique db.sent
    → let (after, made) = evaluate_for_account db today account in
      (after ≡ record db { sent = after.sent })
      × (Unique after.sent × Grows db.sent after.sent × All (IsNew db.sent after.sent) made)
unfolding evaluate_for_account
evaluate_for_account-Evaluated db today account u = elim (Option-cases account.team_id) [
  | inl e ↦ rw e (unchanged-Evaluated db u)
  | inr (t, e) ↦
      rw e (evaluate_for_team-Evaluated db today (find (λ team. team.id == t) db.teams) u)
]

-- If a team's status is computable and its budget, which has a row, is in progress, then the evaluation
-- succeeds, and every threshold that the ratio has reached is recorded for the budget's period after it.
pub evaluate_budget_thresholds_complete :
    (db : Db) (team : Team) (today : Date) (s : BudgetStatus) (info : BudgetInfo) (b : TeamBudget)
    (ratio : ℤ)
    → Unique db.sent
    → compute_budget_status db team today none ≡ some s
    → s.computable ≡ true
    → s.budget ≡ some info
    → is_in_progress info.period_state ≡ true
    → find (λ x. x.id == info.id) db.budgets ≡ some b
    → s.ratio_pct ≡ some ratio
    → (r : Db × List Notification) × (evaluate_budget_thresholds db team today ≡ some r)
      × All
          (λ t.
            ltb_ℤ ratio (pos (t * 10)) ≡ false → is_sent r.0.sent b.id info.period_start t ≡ true)
          threshold_percents
unfolding evaluate_budget_thresholds notify_status notify_budget notify_row
evaluate_budget_thresholds_complete db team today s info b ratio u e ok shown now row r = (
  (
    record db {
      sent = (notify_thresholds team b.id info.period_start ratio threshold_percents db.sent).0;
    },
    (notify_thresholds team b.id info.period_start ratio threshold_percents db.sent).1,
  ),
  rw (e, ok, shown, now, row, r) refl,
  (notify_thresholds-After team b.id info.period_start ratio threshold_percents db.sent u).1,
)
