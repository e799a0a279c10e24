-- ===== src/Budget/Status/Thresholds.antt =====
-- When a threshold counts as crossed.
use multi_cloud_platform.Prelude.{
  ℕ, ◌+◌, ◌*◌, ◌≤◌, ◌<◌, ◌≡◌, ◌↔◌, ap, ◌∙◌, Bool, true, false, Option, none, some, List, All, arith,
}
use mathlib.Core.Option.{some-injective}
use multi_cloud_platform.Prelude.Int.{ℤ, pos, leb_ℤ}
use multi_cloud_platform.Prelude.Sort.{In}
use multi_cloud_platform.Prelude.Members.{All-In}
use multi_cloud_platform.Prelude.Rounding.{round_ℤ, round_half_even-ge}
use multi_cloud_platform.Calendar.{Date}
use multi_cloud_platform.Models.{Team, TeamBudget, Db}
use multi_cloud_platform.Budget.{State}
use multi_cloud_platform.Budget.Status.{
  Reason, Excluded, BudgetInfo, Usage, Threshold, BudgetStatus, scale_ℤ, ratio_pct, thresholds_of,
  conclude, judge, or_today, compute_budget_status,
}
use multi_cloud_platform.Budget.Status.Reasons.{status_induction}

-- The threshold 2k + 2, in tenths of a percent, is crossed from half a tenth below it on.
crossed_from :
    (amount limit k : ℕ)
    → 0 < limit
    → (leb_ℤ (pos (2 * k + 2)) (ratio_pct (pos amount) limit) ≡ true)
      ↔ ((4 * k + 3) * limit ≤ 2 * (1000 * amount))
unfolding ratio_pct round_ℤ scale_ℤ
crossed_from amount limit k h =
    let exact = round_half_even-ge (1000 * amount) limit k h in
    (λ p. exact.0 (ground arith), λ p. let q = exact.1 p in ground arith)

-- What is crossed at a ratio, in tenths of a percent, that is rounded.
abbrev IsRight : ℕ → ℕ → Threshold → Type 0
IsRight amount limit t = (t.crossed ≡ true) ↔ (100 * t.percent * limit ≤ 10000 * amount + 5 * limit)

thresholds_of-IsRight :
    (db : Db) (budget_id : ℕ) (period_start : Date) (amount limit : ℕ)
    → 0 < limit
    → All
        (IsRight amount limit)
        (thresholds_of db budget_id period_start (ratio_pct (pos amount) limit))
unfolding thresholds_of
thresholds_of-IsRight db budget_id period_start amount limit h =
    let low = crossed_from amount limit 399 h in
    let high = crossed_from amount limit 499 h in
    (
      (λ p. let q = low.0 p in omega arith, λ p. low.1 (omega arith)),
      ((λ p. let q = high.0 p in omega arith, λ p. high.1 (omega arith)), tt),
    )

-- The thresholds of a status that is computable, where its usage and its budget are as given.
abbrev HasRight : BudgetInfo → Usage → ℕ → BudgetStatus → Type 0
HasRight info u amount s =
    s.computable ≡ true
    → s.budget ≡ some info
    → s.usage ≡ some u
    → u.amount ≡ pos amount
    → 0 < info.limit_amount
    → All (IsRight amount info.limit_amount) s.thresholds

conclude-HasRight :
    (info shown : BudgetInfo) (ex : List Excluded) (u measured : Usage) (amount : ℕ) (a b c : Bool)
    (why : Option Reason) (r : ℤ) (ts : List Threshold)
    → (info ≡ shown
        → u ≡ measured
        → measured.amount ≡ pos amount
        → 0 < shown.limit_amount
        → All (IsRight amount shown.limit_amount) ts)
    → HasRight shown measured amount (conclude info ex u a b c why r ts)
unfolding conclude
conclude-HasRight info shown ex u measured amount true b c why r ts h on = cc
conclude-HasRight info shown ex u measured amount false true c why r ts h on = cc
conclude-HasRight info shown ex u measured amount false false true why r ts h on = cc
conclude-HasRight info shown ex u measured amount false false false (some reason) r ts h on = cc
conclude-HasRight info shown ex u measured amount false false false none r ts h on =
    λ e f. h (some-injective _ _ e) (some-injective _ _ f)

judge-HasRight :
    (db : Db) (team : Team) (today reference_date : Date) (b : TeamBudget) (state : State)
    (from to : Date) (shown : BudgetInfo) (measured : Usage) (amount : ℕ)
    → HasRight shown measured amount (judge db team today reference_date b state (from, to))
unfolding judge
judge-HasRight db team today reference_date b state from to shown measured amount =
    conclude-HasRight _ shown _ _ measured amount _ _ _ _ _ _ (λ e f g h.
      let limit : b.limit_amount ≡ shown.limit_amount = ap (λ z. z.limit_amount) e in
      let used = ap (λ (z : Usage). z.amount) f ∙ g in
      rw (limit, used) (thresholds_of-IsRight db b.id from amount shown.limit_amount h))

-- In a status that is computable, with a usage of zero or more and a positive limit, a threshold is
-- crossed exactly from five hundredths of a percent below it on: the ratio is rounded to a tenth of
-- a percent before it is compared.
pub thresholds_crossed :
    (db : Db) (team : Team) (today : Date) (reference : Option Date) (s : BudgetStatus)
    (info : BudgetInfo) (u : Usage) (amount : ℕ) (t : Threshold)
    → compute_budget_status db team today reference ≡ some s
    → s.computable ≡ true
    → s.budget ≡ some info
    → s.usage ≡ some u
    → u.amount ≡ pos amount
    → 0 < info.limit_amount
    → In t s.thresholds
    → (t.crossed ≡ true)
      ↔ (100 * t.percent * info.limit_amount ≤ 10000 * amount + 5 * info.limit_amount)
thresholds_crossed db team today reference s info u amount t given on shown used size positive i =
    All-In (IsRight amount info.limit_amount) t s.thresholds
      (status_induction db team today (HasRight info u amount) reference s (λ off. cc)
        (λ b state from to.
          judge-HasRight db team today (or_today reference today) b state from to info u amount)
        given on shown used size positive)
      i
