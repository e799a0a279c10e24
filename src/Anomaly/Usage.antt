-- ===== src/Anomaly/Usage.antt =====
-- backend/app/cost/anomaly.py: the usage of a service on a day, and whether it is a jump.
use multi_cloud_platform.Prelude.{
  ℕ, zero, suc, ◌*◌, Bool, true, false, not, ◌||◌, ◌&&◌, Option, none, some, List, [], ◌∷◌, map,
  if◌then◌else◌, ◌==◌, str_eq, ltb, leb, keep_if, is_nil,
}
use multi_cloud_platform.Prelude.Int.{ℤ, pos, negsuc, ◌-ℤ◌, ltb_ℤ, sum, sub_ℕ}
use multi_cloud_platform.Prelude.Rounding.{round_ℤ}
use multi_cloud_platform.Models.{CloudAccount, CloudAccountCost, Db, is_usage}
use Prim.Native.String.{compare}
use Prim.Native.Nat.{Ordering}
use Prim.Native.String.{String}
use multi_cloud_platform.Calendar.{Date}
use multi_cloud_platform.Anomaly.SourceKey.{is_empty}
use multi_cloud_platform.Anomaly.Days.{window}

-- The rows that the rule counts.
unfoldable pub usage_rows : Db → ℕ → String → Date → Date → List CloudAccountCost
usage_rows db a currency start end =
    keep_if
      (λ r.
        r.cloud_account_id == a
        && str_eq r.currency currency
        && is_usage r.charge_category
        && leb start r.period_start
        && ltb r.period_start end)
      db.costs

abbrev pub is_service : Option String → String → Bool
is_service none svc = false
is_service (some s) svc = str_eq s svc

abbrev pub is_absent : Option String → Bool
is_absent none = true
is_absent (some s) = false

abbrev pub total_of : List CloudAccountCost → ℤ
total_of rows = sum (map (λ r. r.amount) rows)

-- `usage.get((svc, day), 0)`. Rows without a service and rows with an empty one are two groups with one
-- key; which comes last the database decides, here that of the rows without one.
unfoldable pub usage_at : List CloudAccountCost → String → Date → ℤ
usage_at rows svc day =
    let here = keep_if (λ r. r.period_start == day) rows in
    let without = keep_if (λ r. is_absent r.service) here in
    if is_empty svc && not (is_nil without)
    then total_of without
    else total_of (keep_if (λ r. is_service r.service svc) here)

abbrev pub is_before : String → String → Bool
is_before s t = elim (compare s t) [ Ordering.lt ↦ true | _ ↦ false ]

abbrev pub add_service : String → List String → List String
add_service s [] = s ∷ []
add_service s (t ∷ ts) =
    let rest = add_service s ts in
    if str_eq s t then t ∷ ts else if is_before s t then s ∷ t ∷ ts else t ∷ rest

abbrev pub name_of : Option String → String
name_of none = ""
name_of (some s) = s

-- The services of the rows, sorted, each once.
unfoldable pub services_of : List CloudAccountCost → List String
services_of [] = []
services_of (r ∷ rs) = add_service (name_of r.service) (services_of rs)

pub record AnomalyItem : Type 0 where
  pub cloud_account_id : ℕ
  pub provider : String
  pub service : String
  pub date : Date
  pub currency : String
  pub amount : ℤ
  pub baseline_amount : ℤ
  pub delta : ℤ
  pub delta_pct : Option ℤ

-- n * i
abbrev pub scale : ℕ → ℤ → ℤ
scale n (pos m) = pos (n * m)
scale n (negsuc m) = sub_ℕ 0 (n * suc m)

-- The quotient, to the nearest whole number; the divisor is not zero.
abbrev pub quotient : ℤ → ℤ → ℤ
quotient x (pos n) = round_ℤ x n
quotient x (negsuc n) = round_ℤ (pos 0 -ℤ x) (suc n)

abbrev pub is_zero : ℤ → Bool
is_zero (pos zero) = true
is_zero _ = false

-- `_pct`, in tenths of a percent, of seven times the difference and seven times the baseline; none
-- without a baseline.
unfoldable pub increase_pct : ℤ → ℤ → Option ℤ
increase_pct delta7 sum7 = if is_zero sum7 then none else some (quotient (scale 1000 delta7) sum7)

abbrev pub is_small : Option ℤ → Bool
is_small none = false
is_small (some pct) = ltb_ℤ pct (pos 500)

-- A service on a day that is judged.
unfoldable pub judge_service :
    CloudAccount → String → ℤ → List CloudAccountCost → Date → String → List AnomalyItem
judge_service account currency min_delta rows d svc =
    let amount = usage_at rows svc d in
    let sum7 = sum (map (λ w. usage_at rows svc w) (window d)) in
    let delta7 = scale 7 amount -ℤ sum7 in
    let pct = increase_pct delta7 sum7 in
    if ltb_ℤ delta7 (scale 7 min_delta) || is_small pct
    then []
    else (record {
      cloud_account_id = account.id;
      provider = account.provider;
      service = svc;
      date = d;
      currency = currency;
      amount = amount;
      baseline_amount = round_ℤ sum7 7;
      delta = round_ℤ delta7 7;
      delta_pct = pct;
    })
      ∷ []
