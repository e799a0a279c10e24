-- ===== src/Anomaly/Days.antt =====
-- backend/app/cost/anomaly.py: which days can be judged, and cost/coverage.py, the days since the first.
use multi_cloud_platform.Prelude.{
  ℕ, ◌-◌, min, Bool, not, ◌&&◌, Option, none, some, List, [], ◌∷◌, map, if◌then◌else◌, ◌==◌, str_eq,
  ltb, leb, elem, keep_if, length, all,
}
use multi_cloud_platform.Prelude.Int.{ℤ, pos}
use multi_cloud_platform.Prelude.Sort.{min_by}
use multi_cloud_platform.Models.{CloudAccountCost, CostIngestionRun, Db, is_success}
use multi_cloud_platform.Coverage.{day_basis_map, analysis_ready_days}
use Prim.Native.String.{String}
use multi_cloud_platform.Calendar.{Date}

abbrev pub baseline_days : ℕ
baseline_days = 7

abbrev pub min_history_days : ℕ
min_history_days = 12

-- Five dollars; no other currency has a least difference.
abbrev pub min_delta_by_currency : String → Option ℤ
min_delta_by_currency currency = if str_eq currency "USD" then some (pos 5_000_000) else none

unfoldable pub eligible_end : Date → Date
eligible_end today = today - 3

-- `_first_day`: the first day of a row or of a successful run of the account.
abbrev pub start_of_row : Option CloudAccountCost → List Date
start_of_row none = []
start_of_row (some r) = r.period_start ∷ []

abbrev pub start_of_run : Option CostIngestionRun → List Date
start_of_run none = []
start_of_run (some r) = r.period_start ∷ []

abbrev pub least : List Date → Option Date
least [] = none
least (d ∷ ds) = elim (least ds) [ none ↦ some d | some e ↦ some (min d e) ]

abbrev pub joined : List Date → List Date → List Date
joined [] ds = ds
joined (d ∷ ds) es = d ∷ joined ds es

unfoldable pub first_day : Db → ℕ → Option Date
first_day db a = least (
    joined
      (start_of_row
        (min_by (λ r. (r.period_start, 0)) (keep_if (λ r. r.cloud_account_id == a) db.costs)))
      (start_of_run (
        min_by (λ r. (r.period_start, 0))
          (keep_if (λ r. r.cloud_account_id == a && is_success r.status) db.runs))))

-- The days observed since the first, and those with the ground complete_range.
unfoldable pub covered_days_since_first : Db → ℕ → Date → List Date
covered_days_since_first db a end = elim (first_day db a) [
  | none ↦ []
  | some first ↦ map (λ e. e.0) (day_basis_map db a first end)
]

unfoldable pub analysis_ready_days_since_first : Db → ℕ → Date → List Date
analysis_ready_days_since_first db a end = elim (first_day db a) [
  | none ↦ []
  | some first ↦ analysis_ready_days db a first end
]

-- How many of the days are not after the day: `bisect_right` of the sorted days.
abbrev pub days_through : List Date → Date → ℕ
days_through days d = length (keep_if (λ x. leb x d) days)

pub data HeldReason : Type 0 where
  baseline_incomplete day_not_collected coverage_unverified : HeldReason

-- Whether a day is judged, held back for a reason, or passed over for want of a history.
pub data DayVerdict : Type 0 where
  passed_over : DayVerdict
  held : HeldReason → DayVerdict
  judged : DayVerdict

-- The seven days before a day, the earliest first.
unfoldable pub window : Date → List Date
window d = (d - 7) ∷ (d - 6) ∷ (d - 5) ∷ (d - 4) ∷ (d - 3) ∷ (d - 2) ∷ (d - 1) ∷ []

abbrev pub all_in : List Date → List Date → Bool
all_in days known = all (λ w. elem w known) days

unfoldable pub day_verdict : List Date → List Date → Date → DayVerdict
day_verdict covered observed d =
    if ltb (days_through covered d) min_history_days
    then if ltb (days_through observed d) min_history_days
      then passed_over
      else held coverage_unverified
    else if not (elem d covered)
    then held (if elem d observed then coverage_unverified else day_not_collected)
    else if not (all_in (window d) covered)
    then held (if all_in (window d) observed then coverage_unverified else baseline_incomplete)
    else judged
