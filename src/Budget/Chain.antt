-- ===== src/Budget/Chain.antt =====
-- The chain of a team's recurring budgets, in the order of their start dates.
use multi_cloud_platform.Prelude.{
  ◌≤◌, ◌<◌, ◌≡◌, ◌≢◌, ap, false, not, some, List, [], ◌∷◌, arith, inl, inr, ◌↔◌, Bool-cases,
  if◌then◌else◌, All, keep_if,
}
use multi_cloud_platform.Prelude.Sort.{In, key_ltb, insert_by, sort_by}
use multi_cloud_platform.Prelude.Members.{
  All-insert_by, All-sort_by, All-In, keep_if-In, sort_by-In, In-keep_if, In-sort_by,
}
use multi_cloud_platform.Calendar.{Date}
use multi_cloud_platform.Models.{TeamBudget, is_custom}
use multi_cloud_platform.Budget.{budget_key, recurring_chain, next_in_chain}

-- Recurring budgets start on different days, as the unique index of the table says.
abbrev pub StartsApart : TeamBudget → TeamBudget → Type 0
StartsApart b c =
    is_custom b.period_type ≡ false → is_custom c.period_type ≡ false → b.start_date ≢ c.start_date

abbrev pub DistinctStarts : List TeamBudget → Type 0
DistinctStarts [] = Unit
DistinctStarts (b ∷ bs) = All (StartsApart b) bs × DistinctStarts bs

-- Each budget of the list starts before those behind it.
abbrev pub IsChain : List TeamBudget → Type 0
IsChain [] = Unit
IsChain (b ∷ bs) = All (λ c. b.start_date < c.start_date) bs × IsChain bs

abbrev Recurs : TeamBudget → Type 0
Recurs b = is_custom b.period_type ≡ false

pub later_still :
    (b c : Date) (cs : List TeamBudget)
    → b < c
    → All (λ e. c < e.start_date) cs
    → All (λ e. b < e.start_date) cs
later_still b c [] h k = tt
later_still b c (e ∷ es) h (k, ks) = (omega arith, later_still b c es h ks)

before_of_key :
    (b c : TeamBudget)
    → b.start_date ≢ c.start_date
    → (if key_ltb (budget_key c) (budget_key b)
        then c.start_date < b.start_date
        else b.start_date < c.start_date)
before_of_key b c h = ground arith

insert-IsChain :
    (b : TeamBudget) (bs : List TeamBudget)
    → All (λ c. b.start_date ≢ c.start_date) bs
    → IsChain bs
    → IsChain (insert_by budget_key b bs)
unfolding insert_by
insert-IsChain b [] h k = (tt, tt)
insert-IsChain b (c ∷ cs) (h, hs) (k, ks) =
    elim (Bool-cases (key_ltb (budget_key c) (budget_key b))) [
      | inl e ↦
          let before = rw e at (before_of_key b c h) in
          rw e (
            All-insert_by budget_key (λ x. c.start_date < x.start_date) b cs before k,
            insert-IsChain b cs hs ks,
          )
      | inr e ↦
          let before = rw e at (before_of_key b c h) in
          rw e ((before, later_still b.start_date c.start_date cs before k), (k, ks))
    ]

starts_apart :
    (b : TeamBudget) (bs : List TeamBudget)
    → Recurs b
    → All (StartsApart b) bs
    → All (λ c. b.start_date ≢ c.start_date) (keep_if (λ c. not (is_custom c.period_type)) bs)
starts_apart b [] r h = tt
starts_apart b (c ∷ cs) r (h, hs) = elim (Bool-cases (is_custom c.period_type)) [
  | inl e ↦ rw e (starts_apart b cs r hs)
  | inr e ↦ rw e (h r e, starts_apart b cs r hs)
]

-- With recurring budgets that start on different days, the chain rises strictly.
pub recurring_chain-IsChain :
    (budgets : List TeamBudget) → DistinctStarts budgets → IsChain (recurring_chain budgets)
unfolding recurring_chain sort_by
recurring_chain-IsChain [] h = tt
recurring_chain-IsChain (b ∷ bs) (h, hs) = elim (Bool-cases (is_custom b.period_type)) [
  | inl e ↦ rw e (recurring_chain-IsChain bs hs)
  | inr e ↦ rw e (
      insert-IsChain b (recurring_chain bs)
        (All-sort_by budget_key (λ c. b.start_date ≢ c.start_date)
          (keep_if (λ c. not (is_custom c.period_type)) bs) (starts_apart b bs e h))
        (recurring_chain-IsChain bs hs))
]

-- A budget is in the chain exactly if it is one of the team's and recurs.
pub In-recurring_chain :
    (b : TeamBudget) (budgets : List TeamBudget)
    → In b (recurring_chain budgets) ↔ (In b budgets × (is_custom b.period_type ≡ false))
unfolding recurring_chain
In-recurring_chain b budgets =
    let recurs = λ (c : TeamBudget). not (is_custom c.period_type) in
    (
      λ i.
          let (among, kept) =
            keep_if-In recurs b budgets (sort_by-In budget_key b (keep_if recurs budgets) i) in
          (among, ground arith),
      λ i.
          In-sort_by budget_key b (keep_if recurs budgets)
            (In-keep_if recurs b budgets i.0 (rw i.1)),
    )

pub head_first :
    (c x : TeamBudget) (xs : List TeamBudget)
    → IsChain (x ∷ xs)
    → In c (x ∷ xs)
    → x.start_date ≤ c.start_date
head_first c x xs (k, ks) (inl e) = omega (arith, ap (λ (b : TeamBudget). b.start_date) e)
head_first c x xs (k, ks) (inr i) =
    let later = All-In (λ e. x.start_date < e.start_date) c xs k i in omega arith

-- In a chain, what follows a budget starts later than it, and no later than any later budget.
pub next_in_chain_lem :
    (b c : TeamBudget) (chain : List TeamBudget)
    → IsChain chain
    → In c chain
    → b.start_date < c.start_date
    → (d : TeamBudget) × (next_in_chain b chain ≡ some d) × (d.start_date ≤ c.start_date)
next_in_chain_lem b c [] k i h = absurd i
next_in_chain_lem b c (x ∷ xs) (k, ks) i h =
    elim (Bool-cases (key_ltb (budget_key b) (budget_key x))) [
      | inl e ↦ (x, rw e, head_first c x xs (k, ks) i)
      | inr e ↦
          let (d, found, le) = next_in_chain_lem b c xs ks (behind i e) h in (d, rw e found, le)
    ]
  where
    not_head : c ≡ x → key_ltb (budget_key b) (budget_key x) ≡ false → ⊥
    not_head same e = ground (arith, ap (λ (z : TeamBudget). z.start_date) same)

    behind : In c (x ∷ xs) → key_ltb (budget_key b) (budget_key x) ≡ false → In c xs
    behind (inl same) e = absurd (not_head same e)
    behind (inr j) e = j
