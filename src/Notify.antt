-- ===== src/Notify.antt =====
-- backend/app/cost/notify.py: the notifications that a budget's thresholds were crossed. A notification
-- that was made is returned, with the columns that identify it; `none` is an exception.
pub mod Once
pub mod Due
use multi_cloud_platform.Prelude.{
  ℕ, ◌*◌, Bool, true, false, ◌&&◌, Option, none, some, List, [], ◌∷◌, ◌++◌, ◌==◌, if◌then◌else◌,
  any, find,
}
use multi_cloud_platform.Prelude.Int.{ℤ, pos, ltb_ℤ}
use multi_cloud_platform.Calendar.{Date}
use multi_cloud_platform.Models.{Team, TeamBudget, TeamBudgetNotification, CloudAccount, Db}
use multi_cloud_platform.Budget.{is_in_progress}
use multi_cloud_platform.Budget.Status.{
  BudgetInfo, BudgetStatus, threshold_percents, compute_budget_status,
}

pub record Notification : Type 0 where
  pub user_id : ℕ
  pub reference_id : ℕ
  pub period_start : Date
  pub percent : ℕ

-- Whether the table has a row with the three key columns.
unfoldable pub is_sent : List TeamBudgetNotification → ℕ → Date → ℕ → Bool
is_sent sent b p t =
    any (λ n. n.team_budget_id == b && n.period_start == p && n.threshold == t) sent

-- The INSERT, which the UNIQUE constraint can refuse.
unfoldable pub insert_sent :
    TeamBudgetNotification → List TeamBudgetNotification → Option (List TeamBudgetNotification)
insert_sent n sent =
    if is_sent sent n.team_budget_id n.period_start n.threshold then none else some (n ∷ sent)

-- What the loop carries: the table, and the notifications made so far.
abbrev pub Made : Type 0
Made = List TeamBudgetNotification × List Notification

-- The body of the loop, from the INSERT on.
abbrev pub announce : Team → ℕ → Date → ℕ → List TeamBudgetNotification → Made
announce team budget_id period_start t sent =
    elim (insert_sent
      (record { team_budget_id = budget_id; period_start = period_start; threshold = t }) sent) [
        | none ↦ (sent, [])
        | some grown ↦ (
          grown,
          record {
            user_id = team.user_id;
            reference_id = budget_id;
            period_start = period_start;
            percent = t;
          }
              ∷ [],
        )
      ]

-- The body of the loop.
unfoldable pub notify_threshold : Team → ℕ → Date → ℤ → ℕ → List TeamBudgetNotification → Made
notify_threshold team budget_id period_start ratio t sent =
    if ltb_ℤ ratio (pos (t * 10)) then (sent, []) else announce team budget_id period_start t sent

-- The loop over the thresholds.
unfoldable pub notify_thresholds : Team → ℕ → Date → ℤ → List ℕ → List TeamBudgetNotification → Made
notify_thresholds team budget_id period_start ratio [] sent = (sent, [])
notify_thresholds team budget_id period_start ratio (t ∷ ts) sent =
    let (grown, first) = notify_threshold team budget_id period_start ratio t sent in
    let (full, rest) = notify_thresholds team budget_id period_start ratio ts grown in
    (full, first ++ rest)

-- The evaluation, once the budget shown is known: its row may be gone, and a ratio is needed.
unfoldable pub notify_row :
    Db → Team → Option ℤ → BudgetInfo → Option TeamBudget → Option (Db × List Notification)
notify_row db team ratio info none = some (db, [])
notify_row db team none info (some budget) = none
notify_row db team (some ratio) info (some budget) =
    let (sent, made) =
      notify_thresholds team budget.id info.period_start ratio threshold_percents db.sent in
    some (record db { sent = sent }, made)

unfoldable pub notify_budget :
    Db → Team → Option ℤ → Option BudgetInfo → Option (Db × List Notification)
notify_budget db team ratio none = some (db, [])
notify_budget db team ratio (some info) =
    if is_in_progress info.period_state
    then notify_row db team ratio info (find (λ b. b.id == info.id) db.budgets)
    else some (db, [])

unfoldable pub notify_status : Db → Team → Option BudgetStatus → Option (Db × List Notification)
notify_status db team none = none
notify_status db team (some s) =
    if s.computable then notify_budget db team s.ratio_pct s.budget else some (db, [])

unfoldable pub evaluate_budget_thresholds : Db → Team → Date → Option (Db × List Notification)
evaluate_budget_thresholds db team today =
    notify_status db team (compute_budget_status db team today none)

-- An exception is logged, and its changes are rolled back.
unfoldable pub evaluate_for_team : Db → Date → Option Team → Db × List Notification
evaluate_for_team db today none = (db, [])
evaluate_for_team db today (some team) = elim (evaluate_budget_thresholds db team today) [
  | some r ↦ r
  | none ↦ (db, [])
]

unfoldable pub evaluate_for_account : Db → Date → CloudAccount → Db × List Notification
evaluate_for_account db today account = elim account.team_id [
  | none ↦ (db, [])
  | some t ↦ evaluate_for_team db today (find (λ team. team.id == t) db.teams)
]
