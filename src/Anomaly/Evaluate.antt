-- ===== src/Anomaly/Evaluate.antt =====
-- backend/app/cost/anomaly.py: the search through the days of an account.
use multi_cloud_platform.Prelude.{
  ℕ, zero, suc, ◌+◌, ◌-◌, Bool, true, false, ◌&&◌, Option, none, some, List, [], ◌∷◌, ◌++◌,
  if◌then◌else◌, ◌==◌, ltb, leb, any, is_nil,
}
use multi_cloud_platform.Prelude.Int.{ℤ}
use multi_cloud_platform.Models.{CloudAccount, CloudAccountCost, Db}
use multi_cloud_platform.Adapters.{account_currency}
use Prim.Native.Char.{code}
use Prim.Native.String.{String}
use multi_cloud_platform.Calendar.{Date}
use multi_cloud_platform.Anomaly.Days.{
  baseline_days, min_history_days, min_delta_by_currency, eligible_end, HeldReason, passed_over,
  held, judged, day_verdict, days_through, least, analysis_ready_days_since_first,
  covered_days_since_first,
}
use multi_cloud_platform.Anomaly.Usage.{AnomalyItem, usage_rows, services_of, judge_service}

pub record AccountEvaluation : Type 0 where
  pub currency : Option String
  pub items : List AnomalyItem
  pub insufficient_history : Option ℕ
  pub held_days : List (Date × HeldReason)
  pub unsupported_currency : Bool
  pub is_sample_data : Bool

-- The services of one day, one after the other.
unfoldable pub judge_all :
    CloudAccount → String → ℤ → List CloudAccountCost → Date → List String → List AnomalyItem
judge_all account currency min_delta rows d [] = []
judge_all account currency min_delta rows d (svc ∷ svcs) =
    judge_service account currency min_delta rows d svc
    ++ judge_all account currency min_delta rows d svcs

-- What the days from `d` on find, with the number of days left.
unfoldable pub judge_days :
    CloudAccount
    → String
    → ℤ
    → List CloudAccountCost
    → List String
    → List Date
    → List Date
    → ℕ
    → Date
    → List AnomalyItem
unfolding judge_all
judge_days account currency min_delta rows svcs covered observed zero d = []
judge_days account currency min_delta rows svcs covered observed (suc n) d =
    let rest = judge_days account currency min_delta rows svcs covered observed n (d + 1) in
    elim (day_verdict covered observed d) [
      | passed_over ↦ rest
      | held reason ↦ rest
      | judged ↦ judge_all account currency min_delta rows d svcs ++ rest
    ]

unfoldable pub hold_days : List Date → List Date → ℕ → Date → List (Date × HeldReason)
hold_days covered observed zero d = []
hold_days covered observed (suc n) d =
    let rest = hold_days covered observed n (d + 1) in
    elim (day_verdict covered observed d) [
      | passed_over ↦ rest
      | held reason ↦ (d, reason) ∷ rest
      | judged ↦ rest
    ]

abbrev pub starts_with : String → String → Bool
starts_with String.[] s = true
starts_with (String.◌∷◌ c p) String.[] = false
starts_with (String.◌∷◌ c p) (String.◌∷◌ d s) = code c == code d && starts_with p s

abbrev pub no_evaluation : Option String → AccountEvaluation
no_evaluation currency = record {
  currency = currency;
  items = [];
  insufficient_history = none;
  held_days = [];
  unsupported_currency = false;
  is_sample_data = false;
}

-- The least of the history that the last day had, if nothing was found or held.
abbrev pub missing_history : List AnomalyItem → List (Date × HeldReason) → ℕ → Option ℕ
missing_history items held_days days_available =
    if is_nil items && is_nil held_days && ltb days_available min_history_days
    then some days_available
    else none

unfoldable pub evaluate_currency : Db → CloudAccount → Date → Date → String → ℤ → AccountEvaluation
evaluate_currency db account eval_start eval_end currency min_delta =
    let covered = analysis_ready_days_since_first db account.id eval_end in
    let observed = covered_days_since_first db account.id eval_end in
    let rows = usage_rows db account.id currency (eval_start - baseline_days) eval_end in
    let svcs = services_of rows in
    let n = eval_end - eval_start in
    let items = judge_days account currency min_delta rows svcs covered observed n eval_start in
    let held_days = hold_days covered observed n eval_start in
    record {
      currency = some currency;
      items = items;
      insufficient_history = missing_history items held_days (days_through covered (eval_end - 1));
      held_days = held_days;
      unsupported_currency = false;
      is_sample_data = any (λ r. starts_with "seed" r.source) rows;
    }

unfoldable pub evaluate_in : Db → CloudAccount → Date → Date → Option String → AccountEvaluation
evaluate_in db account eval_start eval_end none = record (no_evaluation none) {
  insufficient_history = some 0;
}
evaluate_in db account eval_start eval_end (some currency) = elim (min_delta_by_currency currency) [
  | none ↦ record (no_evaluation (some currency)) { unsupported_currency = true }
  | some min_delta ↦ evaluate_currency db account eval_start eval_end currency min_delta
]

-- The account on the days of [eval_start, eval_end), in the currency of its latest row.
unfoldable pub evaluate_account : Db → CloudAccount → Date → Date → AccountEvaluation
evaluate_account db account eval_start eval_end =
    let currency = account_currency db account.id in
    if leb eval_end eval_start
    then no_evaluation currency
    else evaluate_in db account eval_start eval_end currency

abbrev pub or_else_days : List Date → List Date → List Date
or_else_days [] observed = observed
or_else_days (d ∷ ds) observed = d ∷ ds

-- From the first day that can be judged, or else the first that was observed.
unfoldable pub evaluate_account_all_stored : Db → CloudAccount → Date → AccountEvaluation
evaluate_account_all_stored db account today =
    let end = eligible_end today in
    elim (least (
      or_else_days (analysis_ready_days_since_first db account.id end)
        (covered_days_since_first db account.id end))) [
          | none ↦ no_evaluation none
          | some start ↦ evaluate_account db account start end
        ]
