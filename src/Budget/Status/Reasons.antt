-- ===== src/Budget/Status/Reasons.antt =====
-- When a team's budget status is computable, and what is then known of its accounts.
use multi_cloud_platform.Prelude.{
  ◌≡◌, ◌≢◌, refl, ◌≤◌, ◌<◌, not, arith, Bool, true, false, Option, none, some, List, inl, inr,
  Bool-cases, ◌==◌, if◌then◌else◌, All,
}
use mathlib.Core.Path.{subst}
use mathlib.Core.Option.{some-injective}
use multi_cloud_platform.Prelude.Int.{ℤ}
use multi_cloud_platform.Calendar.{Date, last_year}
use multi_cloud_platform.Prelude.Sort.{In, key_ltb}
use multi_cloud_platform.Budget.Period.{calendar_period_holds}
use multi_cloud_platform.Models.{
  PeriodType, monthly, quarterly, annual, custom, is_custom, Team, TeamBudget, Db,
}
use multi_cloud_platform.Budget.{
  budget_key, calendar_period, reference_day, cut, effective_end, next_in_chain, start_of, State,
  upcoming, in_progress, ended, team_budgets, recurring_chain, budget_state, budget_period,
}
use multi_cloud_platform.Budget.Select.{select_status_budget-least}
use multi_cloud_platform.Prelude.Members.{All-In, keep_if-In, sort_by-In, find-In}
use multi_cloud_platform.Budget.Counted.{IsBudget}
use multi_cloud_platform.Budget.Status.{
  Reason, no_accounts, no_budget, Excluded, BudgetInfo, Usage, Threshold, BudgetStatus, blank,
  conclude, judge, judge_in, answer_for, or_today, compute_budget_status,
}

-- A status has a ratio and no reason if it is computable, and else a reason and no ratio.
abbrev pub IsDecided : BudgetStatus → Type 0
IsDecided s =
    if s.computable
    then (s.reason_code ≡ none) × ((r : ℤ) × (s.ratio_pct ≡ some r))
    else (s.ratio_pct ≡ none) × ((why : Reason) × (s.reason_code ≡ some why))

conclude-IsDecided :
    (info : BudgetInfo) (ex : List Excluded) (u : Usage) (a b c : Bool) (why : Option Reason)
    (r : ℤ) (ts : List Threshold)
    → IsDecided (conclude info ex u a b c why r ts)
unfolding conclude
conclude-IsDecided info ex u true b c why r ts = (refl, (no_accounts, refl))
conclude-IsDecided info ex u false true c why r ts = (refl, (Reason.unsupported, refl))
conclude-IsDecided info ex u false false true why r ts = (refl, (Reason.currency_mismatch, refl))
conclude-IsDecided info ex u false false false none r ts = (refl, (r, refl))
conclude-IsDecided info ex u false false false (some reason) r ts = (refl, (reason, refl))

-- What holds of the answer without a budget and of each judgement holds of every answer.
module _ (db : Db) (team : Team) (today : Date) (P : BudgetStatus → Type 0) where
  judge_in-induction :
      (reference_date : Date) (b : TeamBudget) (state : State) (period : Option (Date × Date))
      (s : BudgetStatus)
      → ((from to : Date) → P (judge db team today reference_date b state (from, to)))
      → judge_in db team today reference_date b state period ≡ some s
      → P s
  unfolding judge_in
  judge_in-induction reference_date b state none s h e = cc
  judge_in-induction reference_date b state (some (from, to)) s h e =
      subst P (some-injective _ _ e) (h from to)

  answer_for-induction :
      (reference_date : Date) (o : Option TeamBudget) (s : BudgetStatus)
      → P (record blank { reason_code = some no_budget })
      → ((b : TeamBudget) (state : State) (from to : Date)
          → P (judge db team today reference_date b state (from, to)))
      → answer_for db team today reference_date o ≡ some s
      → P s
  unfolding answer_for
  answer_for-induction reference_date none s h k e = subst P (some-injective _ _ e) h
  answer_for-induction reference_date (some b) s h k e =
      judge_in-induction reference_date b _ _ s (k b _) e

  pub status_induction :
      (reference : Option Date) (s : BudgetStatus)
      → P (record blank { reason_code = some no_budget })
      → ((b : TeamBudget) (state : State) (from to : Date)
          → P (judge db team today (or_today reference today) b state (from, to)))
      → compute_budget_status db team today reference ≡ some s
      → P s
  unfolding compute_budget_status
  status_induction reference s h k e = answer_for-induction (or_today reference today) _ s h k e

judge-IsDecided :
    (db : Db) (team : Team) (today reference_date : Date) (b : TeamBudget) (state : State)
    (from to : Date)
    → IsDecided (judge db team today reference_date b state (from, to))
unfolding judge
judge-IsDecided db team today reference_date b state from to = conclude-IsDecided _ _ _ _ _ _ _ _ _

-- A status that is computable has a ratio and no reason; one that is not has a reason and no ratio.
pub compute_budget_status-IsDecided :
    (db : Db) (team : Team) (today : Date) (reference : Option Date) (s : BudgetStatus)
    → compute_budget_status db team today reference ≡ some s
    → IsDecided s
compute_budget_status-IsDecided db team today reference s e =
    status_induction db team today IsDecided reference s (refl, (no_budget, refl))
      (judge-IsDecided db team today (or_today reference today)) e

-- After the first day of the calendar, and before its last year.
abbrev pub InRange : Date → Type 0
InRange d = (1 < d) × (d < last_year)

-- A row that meets the constraints and begins in range.
abbrev pub IsUsable : TeamBudget → Type 0
IsUsable b = IsBudget b × InRange b.start_date

not_custom : (p : PeriodType) → is_custom p ≡ false → p ≢ custom
not_custom monthly e q = cc
not_custom quarterly e q = cc
not_custom annual e q = cc
not_custom custom e q = cc

calendar_period-some :
    (p : PeriodType) (on : Date)
    → is_custom p ≡ false
    → 1 ≤ on
    → on < last_year
    → calendar_period p on ≢ none
calendar_period-some p on recurs h k e =
    let (_, _, found, _, _) = calendar_period_holds p on (not_custom p recurs) h k in cc

cut-some :
    (b : TeamBudget) (end : Option Date) (p : Option (Date × Date)) → p ≢ none → cut b end p ≢ none
cut-some b end none h e = h refl
cut-some b none (some (s, t)) h e = cc
cut-some b (some x) (some (s, t)) h e = cc

-- The effect of a recurring budget ends where another one begins.
effective_end-InRange :
    (b : TeamBudget) (chain : List TeamBudget) (x : Date)
    → is_custom b.period_type ≡ false
    → ((c : TeamBudget) → In c chain → IsUsable c)
    → effective_end b chain ≡ some x
    → InRange x
unfolding effective_end
effective_end-InRange b chain x recurs usable e = by (next_in_chain b chain) refl (rw recurs at e)
  where
    by : (n : Option TeamBudget) → next_in_chain b chain ≡ n → start_of n ≡ some x → InRange x
    by none found h = cc
    by (some c) found h =
        let (i, _) = find-In (λ z. key_ltb (budget_key b) (budget_key z)) c chain found in
        let (_, range) = usable c i in subst InRange (some-injective _ _ h) range

reference_day-InRange :
    (state : State) (b : TeamBudget) (end : Option Date) (today : Date)
    → InRange b.start_date
    → InRange today
    → ((x : Date) → end ≡ some x → InRange x)
    → let d = reference_day state b end today in (1 ≤ d) × (d < last_year)
reference_day-InRange upcoming b end today h k l = omega arith
reference_day-InRange in_progress b end today h k l = omega arith
reference_day-InRange ended b none today h k l = omega arith
reference_day-InRange ended b (some x) today h k l = let range = l x refl in omega arith

budget_period-some :
    (b : TeamBudget) (chain : List TeamBudget) (today : Date)
    → IsUsable b
    → ((c : TeamBudget) → In c chain → IsUsable c)
    → InRange today
    → budget_period b chain today ≢ none
unfolding budget_period
budget_period-some b chain today (valid, begins) usable now e =
    elim (Bool-cases (is_custom b.period_type)) [
      | inl own ↦ let (x, ends, _) = valid.custom_end own in cc (rw (own, budget_period) at e, ends)
      | inr recurs ↦
          let end = effective_end b chain in
          let ref = reference_day (budget_state b chain today) b end today in
          let (low, high) =
            reference_day-InRange (budget_state b chain today) b end today begins now
              (λ x. effective_end-InRange b chain x recurs usable) in
          cut-some b end (calendar_period b.period_type ref)
            (calendar_period-some b.period_type ref recurs low high)
            (rw (recurs, budget_period) at e)
    ]

judge_in-some :
    (db : Db) (team : Team) (today reference_date : Date) (b : TeamBudget) (state : State)
    (p : Option (Date × Date))
    → p ≢ none
    → judge_in db team today reference_date b state p ≢ none
unfolding judge_in
judge_in-some db team today reference_date b state none h e = h refl
judge_in-some db team today reference_date b state (some p) h e = cc

answer_for-some :
    (db : Db) (team : Team) (today reference_date : Date) (o : Option TeamBudget)
    → InRange reference_date
    → ((b : TeamBudget) → o ≡ some b → IsUsable b)
    → ((c : TeamBudget) → In c (recurring_chain (team_budgets db team.id)) → IsUsable c)
    → answer_for db team today reference_date o ≢ none
unfolding answer_for
answer_for-some db team today reference_date none now valid chained e = cc
answer_for-some db team today reference_date (some b) now valid chained e =
    let chain = recurring_chain (team_budgets db team.id) in
    judge_in-some db team today reference_date b _ (budget_period b chain reference_date)
      (budget_period-some b chain reference_date (valid b refl) chained now) e

-- Where every budget row meets the table's constraints, and its start and the day of reference lie
-- after 1 January of year 1 and before year 9999, a status is given and nothing is raised.
pub compute_budget_status-ne-none :
    (db : Db) (team : Team) (today : Date) (reference : Option Date)
    → All IsUsable db.budgets
    → InRange (or_today reference today)
    → compute_budget_status db team today reference ≢ none
unfolding compute_budget_status team_budgets recurring_chain
compute_budget_status-ne-none db team today reference valid now =
    let reference_date = or_today reference today in
    let mine = λ (b : TeamBudget). b.team_id == team.id in
    let usable : (b : TeamBudget) → In b (team_budgets db team.id) → IsUsable b = λ b i.
      let (among, _) = keep_if-In mine b db.budgets (sort_by-In budget_key b _ i) in
      All-In IsUsable b db.budgets valid among in
    answer_for-some db team today reference_date _ now
      (λ b e.
        let (i, _) = select_status_budget-least (team_budgets db team.id) reference_date b e in
        usable b i)
      (λ c i.
        let (among, _) =
          keep_if-In (λ b. not (is_custom b.period_type)) c (team_budgets db team.id)
            (sort_by-In budget_key c _ i) in
        usable c among)
