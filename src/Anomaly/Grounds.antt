-- ===== src/Anomaly/Grounds.antt =====
-- On what grounds a jump is reported.
use multi_cloud_platform.Prelude.{
  ℕ, zero, suc, ◌+◌, ◌-◌, ◌*◌, ◌≤◌, ◌<◌, ◌≡◌, refl, sym, ◌⊎◌, inl, inr, true, false, ◌||◌, Option,
  none, some, List, [], ◌∷◌, ◌++◌, map, arith, String, Bool-cases, option-elim, elem, str_eq,
  eq_iff, leb, All,
}
use mathlib.Core.Path.{subst}
use mathlib.Core.Option.{some-injective}
use multi_cloud_platform.Prelude.Int.{ℤ, pos, negsuc, sub_ℕ, ◌-ℤ◌, ◌≤ℤ◌, ltb_ℤ, sum}
use multi_cloud_platform.Prelude.Rounding.{round_ℤ, round_half_even, round_half_even-ge}
use multi_cloud_platform.Prelude.Sort.{In}
use multi_cloud_platform.Prelude.Members.{All-In, In-All, All-append}
use multi_cloud_platform.Models.{CloudAccount, CloudAccountCost, Db}
use multi_cloud_platform.Adapters.{account_currency}
use multi_cloud_platform.Calendar.{Date}
use multi_cloud_platform.Anomaly.Days.{
  DayVerdict, passed_over, held, judged, day_verdict, days_through, window, all_in,
  min_delta_by_currency, analysis_ready_days_since_first, covered_days_since_first,
}
use multi_cloud_platform.Anomaly.Usage.{
  AnomalyItem, usage_rows, usage_at, services_of, judge_service, scale, increase_pct, is_small,
  quotient, is_zero,
}
use multi_cloud_platform.Anomaly.Evaluate.{
  AccountEvaluation, judge_all, judge_days, evaluate_currency, evaluate_in, evaluate_account,
}

-- A day that is judged, with a history of twelve days and the seven before it.
abbrev pub IsReady : List Date → Date → Type 0
IsReady covered d =
    (12 ≤ days_through covered d) × (elem d covered ≡ true) × (all_in (window d) covered ≡ true)

-- A usage that is at least the least difference above the average of the seven days, which is zero or
-- positive and exceeded by 49.95% of it at least.
abbrev pub IsRise : List CloudAccountCost → ℤ → AnomalyItem → Type 0
IsRise rows min_delta x =
    let sum7 = sum (map (λ w. usage_at rows x.service w) (window x.date)) in
    (x.amount ≡ usage_at rows x.service x.date)
    × (scale 7 min_delta ≤ℤ (scale 7 x.amount -ℤ sum7))
    × ((is_zero sum7 ≡ true)
        ⊎ ((pos 1 ≤ℤ sum7) × (scale 999 sum7 ≤ℤ scale 2000 (scale 7 x.amount -ℤ sum7))))

judged-IsReady :
    (covered observed : List Date) (d : Date)
    → day_verdict covered observed d ≡ judged
    → IsReady covered d
unfolding day_verdict
judged-IsReady covered observed d h = ground arith

minus : (k : ℕ) → 1 ≤ k → (m : ℕ) × (pos 0 -ℤ pos k ≡ negsuc m)
unfolding ◌-ℤ◌
minus zero h = absurd (omega arith)
minus (suc k) h = (k, ground arith)

below_500 : (r : ℕ) → pos 500 ≤ℤ sub_ℕ 0 r → 1 ≤ 0
below_500 r h = ground arith

-- The percentage is rounded to a tenth before it is compared with 50.
half_met :
    (delta7 sum7 : ℤ)
    → pos 1 ≤ℤ delta7
    → is_zero sum7 ≡ false
    → pos 500 ≤ℤ quotient (scale 1000 delta7) sum7
    → (pos 1 ≤ℤ sum7) × (scale 999 sum7 ≤ℤ scale 2000 delta7)
unfolding round_ℤ
half_met (pos d) (pos zero) h k p = cc
half_met (pos d) (pos (suc n)) h k p =
    let exact = (round_half_even-ge (1000 * d) (suc n) 249 (omega arith)).0 (omega arith) in
    omega arith
half_met (pos zero) (negsuc n) h k p = absurd (omega arith)
half_met (pos (suc d)) (negsuc n) h k p =
    let (m, e) = minus (1000 * suc d) (omega arith) in
    absurd (omega (arith, below_500 (round_half_even (suc m) (suc n)) (rw e at p)))
half_met (negsuc d) (pos n) h k p = absurd (ground arith)
half_met (negsuc d) (negsuc n) h k p = absurd (ground arith)

-- What the tests of a service come to.
rise :
    (delta7 sum7 min7 : ℤ)
    → pos 1 ≤ℤ min7
    → (ltb_ℤ delta7 min7 || is_small (increase_pct delta7 sum7)) ≡ false
    → (min7 ≤ℤ delta7)
      × ((is_zero sum7 ≡ true) ⊎ ((pos 1 ≤ℤ sum7) × (scale 999 sum7 ≤ℤ scale 2000 delta7)))
unfolding increase_pct
rise delta7 sum7 min7 least h = elim (Bool-cases (is_zero sum7)) [
  | inl zero_sum ↦ (ground arith, inl zero_sum)
  | inr other ↦
      let h2 = rw other at h in
      let met : min7 ≤ℤ delta7 = ground arith in
      (met, inr (half_met delta7 sum7 (ground arith) other (ground arith)))
]

module _ (account : CloudAccount) (currency : String) (min_delta : ℤ) (rows : List CloudAccountCost)
    (least : pos 1 ≤ℤ scale 7 min_delta) where
  judge_service-IsRise :
      (d : Date) (svc : String)
      → All
          (λ x. (x.cloud_account_id ≡ account.id) × (x.date ≡ d) × IsRise rows min_delta x)
          (judge_service account currency min_delta rows d svc)
  unfolding judge_service
  judge_service-IsRise d svc =
      let sum7 = sum (map (λ w. usage_at rows svc w) (window d)) in
      let delta7 = scale 7 (usage_at rows svc d) -ℤ sum7 in
      let small = ltb_ℤ delta7 (scale 7 min_delta) || is_small (increase_pct delta7 sum7) in
      elim (Bool-cases small) [
        | inl none_found ↦ rw none_found tt
        | inr found ↦
            let (least_met, half_met) = rise delta7 sum7 (scale 7 min_delta) least found in
            rw found ((refl, refl, (refl, least_met, half_met)), tt)
      ]

  abbrev Found : (Date → Type 0) → AnomalyItem → Type 0
  Found P x = (x.cloud_account_id ≡ account.id) × P x.date × IsRise rows min_delta x

  judge_all-Found :
      (P : Date → Type 0) (d : Date) (svcs : List String)
      → P d
      → All (Found P) (judge_all account currency min_delta rows d svcs)
  unfolding judge_all
  judge_all-Found P d [] p = tt
  judge_all-Found P d (svc ∷ svcs) p =
      All-append (Found P) (judge_service account currency min_delta rows d svc) _
        (In-All (Found P) _ (λ x i.
          let (a, e, r) = All-In _ x _ (judge_service-IsRise d svc) i in (a, subst P (sym e) p, r)))
        (judge_all-Found P d svcs p)

  judge_days-Found :
      (svcs : List String) (covered observed : List Date) (start end : Date) (n : ℕ) (d : Date)
      → start ≤ d
      → d + n ≤ end
      → All
          (Found (λ e. (start ≤ e) × (e < end) × IsReady covered e))
          (judge_days account currency min_delta rows svcs covered observed n d)
  unfolding judge_days
  judge_days-Found svcs covered observed start end zero d h k = tt
  judge_days-Found svcs covered observed start end (suc n) d h k =
      by (day_verdict covered observed d) refl
        (judge_days-Found svcs covered observed start end n (d + 1) (ground arith) (ground arith))
    where
      by :
          (v : DayVerdict)
          → day_verdict covered observed d ≡ v
          → All
              (Found (λ e. (start ≤ e) × (e < end) × IsReady covered e))
              (judge_days account currency min_delta rows svcs covered observed n (d + 1))
          → All (Found (λ e. (start ≤ e) × (e < end) × IsReady covered e)) (elim v [
            | passed_over ↦
                judge_days account currency min_delta rows svcs covered observed n (d + 1)
            | held reason ↦
                judge_days account currency min_delta rows svcs covered observed n (d + 1)
            | judged ↦
                judge_all account currency min_delta rows d svcs
                ++ judge_days account currency min_delta rows svcs covered observed n (d + 1)
          ])
      by passed_over e rest = rest
      by (held reason) e rest = rest
      by judged e rest =
          All-append (Found (λ e. (start ≤ e) × (e < end) × IsReady covered e))
            (judge_all account currency min_delta rows d svcs) _
            (judge_all-Found (λ e. (start ≤ e) × (e < end) × IsReady covered e) d svcs
              (h, ground arith, judged-IsReady covered observed d e))
            rest

-- What a jump that is reported for the days of [start, end) rests on.
abbrev pub IsGrounded : Db → CloudAccount → Date → Date → AnomalyItem → Type 0
IsGrounded db account start end x =
    (x.cloud_account_id ≡ account.id)
    × ((start ≤ x.date)
        × (x.date < end)
        × IsReady (analysis_ready_days_since_first db account.id end) x.date)
    × IsRise (usage_rows db account.id "USD" (start - 7) end) (pos 5_000_000) x

evaluate_currency-IsGrounded :
    (db : Db) (account : CloudAccount) (start end : Date)
    → start < end
    → All
        (IsGrounded db account start end)
        (evaluate_currency db account start end "USD" (pos 5_000_000)).items
unfolding evaluate_currency
evaluate_currency-IsGrounded db account start end h =
    judge_days-Found account "USD" (pos 5_000_000) (usage_rows db account.id "USD" (start - 7) end)
      (omega arith) (services_of (usage_rows db account.id "USD" (start - 7) end))
      (analysis_ready_days_since_first db account.id end)
      (covered_days_since_first db account.id end) start end (end - start) start (omega arith)
      (omega arith)

only_dollars :
    (currency : String) (m : ℤ)
    → min_delta_by_currency currency ≡ some m
    → (currency ≡ "USD") × (m ≡ pos 5_000_000)
only_dollars currency m h = elim (Bool-cases (str_eq currency "USD")) [
  | inl usd ↦ ((eq_iff currency "USD").0 usd, sym (some-injective (pos 5_000_000) m (rw usd at h)))
  | inr other ↦ let none_set = rw other at h in absurd (ground arith)
]

evaluate_in-IsGrounded :
    (db : Db) (account : CloudAccount) (start end : Date) (currency : Option String)
    → start < end
    → All (IsGrounded db account start end) (evaluate_in db account start end currency).items
unfolding evaluate_in
evaluate_in-IsGrounded db account start end none h = tt
evaluate_in-IsGrounded db account start end (some currency) h =
    option-elim (λ (e : AccountEvaluation). All (IsGrounded db account start end) e.items)
      (min_delta_by_currency currency) _ _ tt
      (λ m e.
        let (usd, five) = only_dollars currency m e in
        rw (usd, five) (evaluate_currency-IsGrounded db account start end h))

-- Every jump that is reported lies in the days asked for, on a day with the ground complete_range, after seven such days
-- and with a history of twelve; its usage in dollars exceeds the average of those seven days by five at least, and
-- the average is zero, or positive and exceeded by 49.95% of it at least: the rise is rounded to a
-- tenth of a percent before it is compared with 50%.
pub evaluate_account-IsGrounded :
    (db : Db) (account : CloudAccount) (start end : Date) (x : AnomalyItem)
    → In x (evaluate_account db account start end).items
    → IsGrounded db account start end x
unfolding evaluate_account
evaluate_account-IsGrounded db account start end x i =
    All-In (IsGrounded db account start end) x (evaluate_account db account start end).items
      (elim (Bool-cases (leb end start)) [
        | inl none_asked ↦ rw none_asked tt
        | inr asked ↦ rw asked (
            evaluate_in-IsGrounded db account start end (account_currency db account.id)
              (ground arith))
      ])
      i
