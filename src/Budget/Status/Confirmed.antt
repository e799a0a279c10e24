-- ===== src/Budget/Status/Confirmed.antt =====
-- What a computable status rests on.
use multi_cloud_platform.Prelude.{
  ◌-◌, ◌≤◌, ◌<◌, ◌≡◌, refl, Bool, true, false, not, Option, none, some, List, arith, any, length,
}
use multi_cloud_platform.Prelude.Int.{ℤ}
use multi_cloud_platform.Prelude.Sort.{In}
use multi_cloud_platform.Prelude.Members.{any-false}
use multi_cloud_platform.Prelude.Dict.{lookup}
use multi_cloud_platform.Calendar.{Date}
use multi_cloud_platform.Models.{Team, TeamBudget, CloudAccount, Db}
use multi_cloud_platform.Adapters.{team_accounts}
use multi_cloud_platform.Coverage
use multi_cloud_platform.Coverage.{complete_range, day_basis_map}
use multi_cloud_platform.Coverage.Ready.{every_day_ready}
use multi_cloud_platform.Budget.{State, is_upcoming}
use multi_cloud_platform.Budget.Status.{
  Reason, Excluded, BudgetInfo, Usage, Threshold, BudgetStatus, conclude,
  analysis_ready_for_account, unconfirmed, included_of, check_end_of, judge, or_today,
  compute_budget_status,
}
use multi_cloud_platform.Budget.Status.Reasons.{status_induction}

-- Every day of the period up to the check's end has a full ground at each account that counts.
abbrev pub IsConfirmed : Db → Team → Date → BudgetInfo → Type 0
IsConfirmed db team today info =
    let check_end = check_end_of info.period_end info.basis_date today in
    (info.period_start < check_end)
    × ((a : CloudAccount) (d : Date)
        → In a (included_of db team (team_accounts db team.id))
        → info.period_start ≤ d
        → d < check_end
        → lookup d (day_basis_map db a.id info.period_start check_end) ≡ some complete_range)

unconfirmed-none :
    (db : Db) (included : List CloudAccount) (state : State) (s e : Date)
    → unconfirmed db included state s e ≡ none
    → is_upcoming state ≡ false
    → (s < e) × (any (λ a. not (analysis_ready_for_account db a s e)) included ≡ false)
unfolding unconfirmed
unconfirmed-none db included state s e h now = ground arith

ready-length :
    (db : Db) (a : CloudAccount) (s e : Date)
    → s < e
    → not (analysis_ready_for_account db a s e) ≡ false
    → length (Coverage.analysis_ready_days db a.id s e) ≡ e - s
unfolding analysis_ready_for_account
ready-length db a s e h ready = ground arith

confirmed :
    (db : Db) (included : List CloudAccount) (state : State) (s e : Date)
    → unconfirmed db included state s e ≡ none
    → is_upcoming state ≡ false
    → (s < e)
      × ((a : CloudAccount) (d : Date)
          → In a included
          → s ≤ d
          → d < e
          → lookup d (day_basis_map db a.id s e) ≡ some complete_range)
confirmed db included state s e h now =
    let (long, all_ready) = unconfirmed-none db included state s e h now in
    (
      long,
      λ a d i p q.
          let r =
            any-false (λ x. not (analysis_ready_for_account db x s e)) a included all_ready i in
          every_day_ready db a.id s e d (ready-length db a s e long r) p q,
    )

-- A computable conclusion met no refusal and shows the budget.
conclude-computable :
    (info : BudgetInfo) (ex : List Excluded) (u : Usage) (a b c : Bool) (why : Option Reason)
    (r : ℤ) (ts : List Threshold)
    → (conclude info ex u a b c why r ts).computable ≡ true
    → ((conclude info ex u a b c why r ts).budget ≡ some info) × (why ≡ none)
unfolding conclude
conclude-computable info ex u true b c why r ts h = cc
conclude-computable info ex u false true c why r ts h = cc
conclude-computable info ex u false false true why r ts h = cc
conclude-computable info ex u false false false none r ts h = (refl, refl)
conclude-computable info ex u false false false (some reason) r ts h = cc

abbrev Rests : Db → Team → Date → BudgetStatus → Type 0
Rests db team today s =
    s.computable ≡ true
    → (info : BudgetInfo) × (s.budget ≡ some info)
      × (is_upcoming info.period_state ≡ false → IsConfirmed db team today info)

judge-Rests :
    (db : Db) (team : Team) (today reference_date : Date) (b : TeamBudget) (state : State)
    (from to : Date)
    → Rests db team today (judge db team today reference_date b state (from, to))
unfolding judge
judge-Rests db team today reference_date b state from to h =
    let (shown, agreed) = conclude-computable _ _ _ _ _ _ _ _ _ h in
    (_, shown, confirmed db _ state from _ agreed)

-- A computable status shows a budget, and unless that is still to come, its period has a completed
-- day, and every day of the period up to the check's end has the ground `complete_range` at each
-- account that counts.
pub computable-IsConfirmed :
    (db : Db) (team : Team) (today : Date) (reference : Option Date) (s : BudgetStatus)
    → compute_budget_status db team today reference ≡ some s
    → s.computable ≡ true
    → (info : BudgetInfo) × (s.budget ≡ some info)
      × (is_upcoming info.period_state ≡ false → IsConfirmed db team today info)
computable-IsConfirmed db team today reference s e =
    status_induction db team today (Rests db team today) reference s (λ h. cc)
      (judge-Rests db team today (or_today reference today)) e
