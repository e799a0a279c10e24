-- ===== src/Scenarios/Jumps.antt =====
-- Instances for the jumps of cost and their review.
use multi_cloud_platform.Prelude.{
  ℕ, zero, suc, ◌+◌, ◌≡◌, refl, ap, inl, false, Option, none, some, [], ◌∷◌, length,
}
use Prim.Native.String.{String}
use multi_cloud_platform.Prelude.Int.{pos, ◌+ℤ◌, ◌-ℤ◌}
use multi_cloud_platform.Prelude.Sort.{max_by, min_by, sort_by}
use multi_cloud_platform.Models.{Db}
use multi_cloud_platform.Adapters.{account_currency}
use multi_cloud_platform.Anomaly.SourceKey.{
  Format, has_colon, is_empty, source_key, parse_source_key,
}
use multi_cloud_platform.Anomaly.Key.{Writes, unless_empty, parse_source_key-source_key}
use multi_cloud_platform.Anomaly.Usage.{
  AnomalyItem, judge_service, increase_pct, services_of, usage_at, usage_rows,
}
use multi_cloud_platform.Anomaly.Days.{
  day_verdict, window, first_day, analysis_ready_days_since_first, covered_days_since_first,
}
use multi_cloud_platform.Coverage.{
  analysis_ready_days, day_basis_map, set_defaults, row_days, apply_runs, saved_runs, cover_days,
  provider_of, resolve_basis,
}
use multi_cloud_platform.Prelude.Rounding.{round_ℤ, round_half_even}
use multi_cloud_platform.Anomaly.Evaluate.{
  evaluate_account, evaluate_in, evaluate_currency, judge_days, judge_all,
}
use multi_cloud_platform.Anomaly.Grounds.{IsGrounded, evaluate_account-IsGrounded}
use multi_cloud_platform.Review.{
  CostReviewItem, resolved, expected, Queue, ReviewPatch, patch_review_item,
  evaluate_and_notify_account, open_,
}
use multi_cloud_platform.Review.Once.{evaluate_and_notify_account-once}
use multi_cloud_platform.Review.Resolved.{Reviewed, patch_review_item-Reviewed}
use multi_cloud_platform.Scenarios.{sep_20, account, cost, db}

-- Numbers and dates as strokes.
abbrev tally : ℕ → String
tally zero = "I"
tally (suc n) = String.◌∷◌ "I" (tally n)

abbrev strokes : String → ℕ
strokes String.[] = 0
strokes (String.◌∷◌ c s) = suc (strokes s)

abbrev read_tally : String → Option ℕ
read_tally String.[] = none
read_tally (String.◌∷◌ c s) = some (strokes s)

abbrev tallies : Format
tallies = record { str = tally; int = read_tally; isoformat = tally; fromisoformat = read_tally }

no_colon : (n : ℕ) → has_colon (tally n) ≡ false
no_colon zero = refl
no_colon (suc n) = no_colon n

not_empty : (n : ℕ) → is_empty (tally n) ≡ false
not_empty zero = refl
not_empty (suc n) = refl

strokes-tally : (n : ℕ) → strokes (tally n) ≡ suc n
strokes-tally zero = refl
strokes-tally (suc n) = ap suc (strokes-tally n)

read_back : (n : ℕ) → read_tally (tally n) ≡ some n
read_back zero = refl
read_back (suc n) = ap some (strokes-tally n)

tallies-Writes : Writes tallies
tallies-Writes =
    (λ n. (no_colon n, not_empty n, read_back n), λ d. (no_colon d, not_empty d, read_back d))

parse_source_key-source_key_example :
    parse_source_key tallies (source_key tallies 7 "AWS::EC2" 5) ≡ unless_empty 7 "AWS::EC2" 5
parse_source_key-source_key_example =
    parse_source_key-source_key tallies tallies-Writes 7 "AWS::EC2" 5

-- 79.95 dollars on 20 September, after days without a cost.
abbrev jumped : Db
jumped = record db { costs = record cost { period_start = sep_20; period_end = 739880 } ∷ [] }

abbrev jump : AnomalyItem
jump = record {
  cloud_account_id = 7;
  provider = "aws";
  service = "AmazonEC2";
  date = sep_20;
  currency = "USD";
  amount = pos 79_950_000;
  baseline_amount = pos 0;
  delta = pos 79_950_000;
  delta_pct = none;
}

jumped_lem : (evaluate_account jumped account sep_20 739880).items ≡ jump ∷ []
unfolding evaluate_account evaluate_in account_currency max_by evaluate_currency judge_days
    day_verdict analysis_ready_days_since_first first_day min_by analysis_ready_days day_basis_map
    set_defaults row_days apply_runs saved_runs sort_by cover_days covered_days_since_first window
    judge_all increase_pct judge_service services_of usage_at usage_rows provider_of resolve_basis
    ◌+ℤ◌ ◌-ℤ◌ round_ℤ round_half_even
jumped_lem = refl

evaluate_account-IsGrounded_example : IsGrounded jumped account sep_20 739880 jump
evaluate_account-IsGrounded_example =
    evaluate_account-IsGrounded jumped account sep_20 739880 jump (rw jumped_lem (inl refl))

abbrev empty_queue : Queue
empty_queue = record { items = []; notices = [] }

-- The queue after the account is evaluated_once on 23 September, and how many items are new.
abbrev evaluated_once : Queue × ℕ
evaluated_once = evaluate_and_notify_account tallies jumped empty_queue account 739883

evaluate_and_notify_account-once_example :
    (evaluate_and_notify_account tallies jumped evaluated_once.0 account 739883
      ≡ (evaluated_once.0, 0))
    × (length evaluated_once.0.items ≡ evaluated_once.1 + 0)
    × (length evaluated_once.0.notices ≡ evaluated_once.1 + 0)
evaluate_and_notify_account-once_example =
    evaluate_and_notify_account-once tallies jumped empty_queue account 739883

abbrev queued : CostReviewItem
queued = record {
  id = 1;
  user_id = 1;
  source_type = "cost_anomaly";
  source_key = "7:AmazonEC2:2026-09-20";
  status = open_;
  resolution = none;
  note = none;
  resolved_at = none;
}

abbrev queue : Queue
queue = record { items = queued ∷ []; notices = [] }

abbrev resolve : ReviewPatch
resolve = record { status = some resolved; resolution = some expected; note = none }

patch_review_item-Reviewed_example : Reviewed queue (patch_review_item queue 1 300 1 resolve)
patch_review_item-Reviewed_example = patch_review_item-Reviewed queue 1 300 1 resolve
