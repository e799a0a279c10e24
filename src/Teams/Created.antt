-- ===== src/Teams/Created.antt =====
-- Where a budget that is created stands among those of its team.
use multi_cloud_platform.Prelude.{
  ◌≤◌, ◌<◌, ◌≡◌, refl, sym, ap, ◌∙◌, inl, inr, true, false, not, Option, none, some, List, [], ◌∷◌,
  arith, Bool-cases, Option-cases, All, keep_if, if◌then◌else◌, ltb, leb, ◌-◌,
}
use multi_cloud_platform.Prelude.Sort.{In, key_ltb, insert_by, sort_by}
use multi_cloud_platform.Prelude.Members.{All-insert_by, find-none}
use multi_cloud_platform.Calendar.{Date}
use multi_cloud_platform.Models.{TeamBudget, is_custom}
use multi_cloud_platform.Budget.{
  budget_key, recurring_chain, last_of, find_active_recurring, find_custom_overlap, overlaps,
}
use multi_cloud_platform.Budget.Chain.{In-recurring_chain}
use multi_cloud_platform.Teams.{
  BudgetCreateRequest, TeamError, good, bad, validate_custom_window, check_overlap, check_latest,
  check_recurring, check_new, max_custom_days,
}

-- Each budget of the list starts no later than those behind it.
abbrev IsSorted : List TeamBudget → Type 0
IsSorted [] = Unit
IsSorted (b ∷ bs) = All (λ c. b.start_date ≤ c.start_date) bs × IsSorted bs

before_of_key :
    (b c : TeamBudget)
    → (if key_ltb (budget_key c) (budget_key b)
        then c.start_date ≤ b.start_date
        else b.start_date ≤ c.start_date)
before_of_key b c = ground arith

later_still :
    (b c : Date) (cs : List TeamBudget)
    → b ≤ c
    → All (λ e. c ≤ e.start_date) cs
    → All (λ e. b ≤ e.start_date) cs
later_still b c [] h k = tt
later_still b c (e ∷ es) h (k, ks) = (omega arith, later_still b c es h ks)

insert-IsSorted :
    (b : TeamBudget) (bs : List TeamBudget) → IsSorted bs → IsSorted (insert_by budget_key b bs)
unfolding insert_by
insert-IsSorted b [] k = (tt, tt)
insert-IsSorted b (c ∷ cs) (k, ks) = elim (Bool-cases (key_ltb (budget_key c) (budget_key b))) [
  | inl e ↦
      let before = rw e at (before_of_key b c) in
      rw e (
        All-insert_by budget_key (λ x. c.start_date ≤ x.start_date) b cs before k,
        insert-IsSorted b cs ks,
      )
  | inr e ↦
      let before = rw e at (before_of_key b c) in
      rw e ((before, later_still b.start_date c.start_date cs before k), (k, ks))
]

sort_by-IsSorted : (bs : List TeamBudget) → IsSorted (sort_by budget_key bs)
unfolding sort_by
sort_by-IsSorted [] = tt
sort_by-IsSorted (b ∷ bs) = insert-IsSorted b (sort_by budget_key bs) (sort_by-IsSorted bs)

last_of-ge :
    (c : TeamBudget) (bs : List TeamBudget)
    → IsSorted bs
    → In c bs
    → (l : TeamBudget) × (last_of bs ≡ some l) × (c.start_date ≤ l.start_date)
last_of-ge c [] k i = absurd i
last_of-ge c (b ∷ []) k (inl e) = (b, refl, omega (arith, ap (λ (z : TeamBudget). z.start_date) e))
last_of-ge c (b ∷ []) k (inr i) = absurd i
last_of-ge c (b ∷ d ∷ bs) (k, ks) (inl e) =
    let (l, found, le) = last_of-ge d (d ∷ bs) ks (inl refl) in
    (l, rw found refl, omega (arith, ap (λ (z : TeamBudget). z.start_date) e, k.0))
last_of-ge c (b ∷ d ∷ bs) (k, ks) (inr i) =
    let (l, found, le) = last_of-ge c (d ∷ bs) ks i in (l, rw found refl, le)

good-injective : {a b : Option Date} → good a ≡ good b → a ≡ b
good-injective h = cc

bad≢good : {e : TeamError} {a : Option Date} → bad e ≡ good a → ⊥
bad≢good h = cc

true≢false : true ≡ false → ⊥
true≢false h = cc

module _ (budgets : List TeamBudget) where
  -- The latest recurring budget starts no earlier than any other.
  find_active_recurring-ge :
      (c : TeamBudget)
      → In c budgets
      → is_custom c.period_type ≡ false
      → (l : TeamBudget) × (find_active_recurring budgets ≡ some l) × (c.start_date ≤ l.start_date)
  unfolding find_active_recurring recurring_chain
  find_active_recurring-ge c i recurs =
      last_of-ge c (recurring_chain budgets)
        (sort_by-IsSorted (keep_if (λ b. not (is_custom b.period_type)) budgets))
        ((In-recurring_chain c budgets).1 (i, recurs))

  -- The recurring budgets start earlier.
  abbrev pub IsLatest : Date → Type 0
  IsLatest start =
      (c : TeamBudget) → In c budgets → is_custom c.period_type ≡ false → c.start_date < start

  -- The window is one, and no custom budget reaches into it.
  abbrev pub IsFree : Date → Option Date → Type 0
  IsFree start end =
      (e : Date) × (end ≡ some e)
      × (start < e)
      × ((c : TeamBudget)
          → In c budgets
          → is_custom c.period_type ≡ true
          → overlaps start e c ≡ false)

  check_latest-IsLatest :
      (start : Date) (end : Option Date)
      → check_latest start (find_active_recurring budgets) ≡ good end
      → IsLatest start
  unfolding check_latest
  check_latest-IsLatest start end h c i recurs =
      let (l, found, le) = find_active_recurring-ge c i recurs in
      after_latest start l end le (rw found at h)
    where
      after_latest :
          (start : Date) (l : TeamBudget) (end : Option Date)
          → c.start_date ≤ l.start_date
          → check_latest start (some l) ≡ good end
          → c.start_date < start
      after_latest start l end le h = ground arith

  window-IsFree :
      (start e : Date) (end : Option Date)
      → start < e
      → check_overlap budgets start none (good (some e)) ≡ good end
      → IsFree start end
  unfolding check_overlap find_custom_overlap
  window-IsFree start e end long h =
      elim (Option-cases (find_custom_overlap budgets start e none)) [
        | inl clear ↦ (
          e,
          sym (good-injective (rw (clear, check_overlap) at h)),
          long,
          λ c i custom. let other = find-none _ c budgets clear i in ground arith,
        )
        | inr (b, taken) ↦ absurd (bad≢good (rw (taken, check_overlap) at h))
      ]

  check_overlap-IsFree :
      (start : Date) (given end : Option Date)
      → check_overlap budgets start none (validate_custom_window start given) ≡ good end
      → IsFree start end
  unfolding validate_custom_window check_overlap
  check_overlap-IsFree start none end h = absurd (bad≢good h)
  check_overlap-IsFree start (some e) end h = elim (Bool-cases (leb e start)) [
    | inl short ↦ absurd (bad≢good (rw short at h))
    | inr long ↦ elim (Bool-cases (ltb max_custom_days (e - start))) [
      | inl wide ↦ absurd (bad≢good (rw (long, wide) at h))
      | inr fits ↦ window-IsFree start e end (ground arith) (rw (long, fits) at h)
    ]
  ]

  -- What a budget that passes the checks has.
  pub check_new-Fits :
      (payload : BudgetCreateRequest) (end : Option Date)
      → check_new budgets payload ≡ good end
      → (is_custom payload.period_type ≡ false → IsLatest payload.start_date)
        × (is_custom payload.period_type ≡ true → IsFree payload.start_date end)
  unfolding check_new check_recurring
  check_new-Fits payload end h = elim (Bool-cases (is_custom payload.period_type)) [
    | inl custom ↦ (
      λ recurs. absurd (true≢false (sym custom ∙ recurs)),
      λ _. check_overlap-IsFree payload.start_date payload.end_date end (rw custom at h),
    )
    | inr recurs ↦ (
      λ _. recurring payload.end_date (rw recurs at h),
      λ custom. absurd (true≢false (sym custom ∙ recurs)),
    )
  ]
    where
      recurring :
          (given : Option Date)
          → check_recurring budgets payload.start_date given ≡ good end
          → IsLatest payload.start_date
      recurring none h = check_latest-IsLatest payload.start_date end h
      recurring (some e) h = absurd (bad≢good h)
