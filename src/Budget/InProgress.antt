-- ===== src/Budget/InProgress.antt =====
-- On each day from the first start on, one budget of the chain is in progress, and no other is.
use multi_cloud_platform.Prelude.{
  ◌≤◌, ◌<◌, ◌≡◌, refl, sym, ◌∙◌, ap, false, some, List, [], ◌∷◌, arith, inl, inr, leb, All,
}
use native.Mathlib.Decide.{dec_lt}
use multi_cloud_platform.Prelude.Sort.{In, key_ltb}
use multi_cloud_platform.Prelude.Members.{All-In, In-All}
use multi_cloud_platform.Calendar.{Date}
use multi_cloud_platform.Models.{TeamBudget, is_custom}
use multi_cloud_platform.Budget.{
  budget_key, recurring_chain, next_in_chain, effective_end, has_ended, in_progress, budget_state,
}
use multi_cloud_platform.Budget.Chain.{
  IsChain, DistinctStarts, later_still, head_first, recurring_chain-IsChain, In-recurring_chain,
  next_in_chain_lem,
}

-- A budget in progress has begun, and its effect has not ended.
pub in_progress_bounds :
    (b : TeamBudget) (chain : List TeamBudget) (today : Date)
    → budget_state b chain today ≡ in_progress
    → (b.start_date ≤ today) × (has_ended (effective_end b chain) today ≡ false)
unfolding budget_state
in_progress_bounds b chain today h = ground arith

-- The effect of a recurring budget ends where the next one of the chain starts.
has_ended-next :
    (b d : TeamBudget) (chain : List TeamBudget) (today : Date)
    → is_custom b.period_type ≡ false
    → next_in_chain b chain ≡ some d
    → has_ended (effective_end b chain) today ≡ leb d.start_date today
unfolding effective_end
has_ended-next b d chain today r found = rw (r, found)

-- A recurring budget that is in progress has no later one that has begun.
not_later :
    (b c : TeamBudget) (chain : List TeamBudget) (today : Date)
    → IsChain chain
    → In c chain
    → is_custom b.period_type ≡ false
    → budget_state b chain today ≡ in_progress
    → c.start_date ≤ today
    → c.start_date ≤ b.start_date
not_later b c chain today k i r h begun = elim (dec_lt b.start_date c.start_date) [
  | yes later ↦
      let (d, found, le) = next_in_chain_lem b c chain k i later in
      let (_, open_end) = in_progress_bounds b chain today h in
      absurd (ground (arith, has_ended-next b d chain today r found))
  | no earlier ↦ omega arith
]

in_progress_same_start :
    (b c : TeamBudget) (chain : List TeamBudget) (today : Date)
    → IsChain chain
    → In b chain
    → In c chain
    → is_custom b.period_type ≡ false
    → is_custom c.period_type ≡ false
    → budget_state b chain today ≡ in_progress
    → budget_state c chain today ≡ in_progress
    → b.start_date ≡ c.start_date
in_progress_same_start b c chain today k i j rb rc hb hc =
    let (begun_b, _) = in_progress_bounds b chain today hb in
    let (begun_c, _) = in_progress_bounds c chain today hc in
    omega (
      arith,
      not_later b c chain today k j rb hb begun_c,
      not_later c b chain today k i rc hc begun_b,
    )

same_start :
    (b c : TeamBudget) (chain : List TeamBudget)
    → IsChain chain
    → In b chain
    → In c chain
    → b.start_date ≡ c.start_date
    → b ≡ c
same_start b c [] k i j e = absurd i
same_start b c (x ∷ xs) (k, ks) (inl p) (inl q) e = p ∙ sym q
same_start b c (x ∷ xs) (k, ks) (inl p) (inr j) e =
    let later = All-In (λ z. x.start_date < z.start_date) c xs k j in
    absurd (omega (arith, ap (λ (z : TeamBudget). z.start_date) p))
same_start b c (x ∷ xs) (k, ks) (inr i) (inl q) e =
    let later = All-In (λ z. x.start_date < z.start_date) b xs k i in
    absurd (omega (arith, ap (λ (z : TeamBudget). z.start_date) q))
same_start b c (x ∷ xs) (k, ks) (inr i) (inr j) e = same_start b c xs ks i j e

-- Of a team's recurring budgets with different start dates, at most one is in progress on a day.
pub in_progress_unique :
    (budgets : List TeamBudget) (b c : TeamBudget) (today : Date)
    → DistinctStarts budgets
    → In b budgets
    → In c budgets
    → is_custom b.period_type ≡ false
    → is_custom c.period_type ≡ false
    → budget_state b (recurring_chain budgets) today ≡ in_progress
    → budget_state c (recurring_chain budgets) today ≡ in_progress
    → b ≡ c
in_progress_unique budgets b c today apart i j rb rc hb hc =
    let chain = recurring_chain budgets in
    let rising = recurring_chain-IsChain budgets apart in
    let ib = (In-recurring_chain b budgets).1 (i, rb) in
    let jc = (In-recurring_chain c budgets).1 (j, rc) in
    same_start b c chain rising ib jc
      (in_progress_same_start b c chain today rising ib jc rb rc hb hc)

-- A later budget does not see the ones before it.
skip_head :
    (b x : TeamBudget) (xs : List TeamBudget) (today : Date)
    → x.start_date < b.start_date
    → budget_state b (x ∷ xs) today ≡ budget_state b xs today
unfolding budget_state effective_end
skip_head b x xs today h =
    let e : key_ltb (budget_key b) (budget_key x) ≡ false = ground arith in rw e

-- The head of a chain is in progress where it has begun and the next budget has not.
head_in_progress :
    (x : TeamBudget) (xs : List TeamBudget) (today : Date)
    → is_custom x.period_type ≡ false
    → IsChain (x ∷ xs)
    → x.start_date ≤ today
    → All (λ b. today < b.start_date) xs
    → budget_state x (x ∷ xs) today ≡ in_progress
unfolding budget_state effective_end
head_in_progress x [] today r k h later = ground arith
head_in_progress x (y ∷ ys) today r ((k, _), _) h (later, _) = ground arith

chain_in_progress :
    (chain : List TeamBudget) (b : TeamBudget) (today : Date)
    → All (λ c. is_custom c.period_type ≡ false) chain
    → IsChain chain
    → In b chain
    → b.start_date ≤ today
    → (c : TeamBudget) × In c chain × (budget_state c chain today ≡ in_progress)
chain_in_progress [] b today r k i h = absurd i
chain_in_progress (x ∷ []) b today (r, _) k i h =
    let begun = head_first b x [] k i in
    (x, inl refl, head_in_progress x [] today r k (omega arith) tt)
chain_in_progress (x ∷ y ∷ ys) b today (r, rs) (k, ks) i h = elim (dec_lt today y.start_date) [
  | yes later ↦
      let begun = head_first b x (y ∷ ys) (k, ks) i in
      let rest = later_still today y.start_date ys later ks.0 in
      (x, inl refl, head_in_progress x (y ∷ ys) today r (k, ks) (omega arith) (later, rest))
  | no begun ↦
      let (c, j, now) = chain_in_progress (y ∷ ys) y today rs ks (inl refl) (omega arith) in
      let after = All-In (λ z. x.start_date < z.start_date) c (y ∷ ys) k j in
      (c, inr j, rw (skip_head c x (y ∷ ys) today after) now)
]

-- From the start of any recurring budget on, some recurring budget of the team is in progress.
pub in_progress_exists :
    (budgets : List TeamBudget) (b : TeamBudget) (today : Date)
    → DistinctStarts budgets
    → In b budgets
    → is_custom b.period_type ≡ false
    → b.start_date ≤ today
    → (c : TeamBudget) × In c budgets
      × (is_custom c.period_type ≡ false)
      × (budget_state c (recurring_chain budgets) today ≡ in_progress)
in_progress_exists budgets b today apart i r h =
    let chain = recurring_chain budgets in
    let recurs = λ (c : TeamBudget) (j : In c chain). ((In-recurring_chain c budgets).0 j).1 in
    let all_recur = In-All (λ c. is_custom c.period_type ≡ false) chain recurs in
    let (c, j, now) =
      chain_in_progress chain b today all_recur (recurring_chain-IsChain budgets apart)
        ((In-recurring_chain b budgets).1 (i, r)) h in
    let (among, recurring) = (In-recurring_chain c budgets).0 j in (c, among, recurring, now)
