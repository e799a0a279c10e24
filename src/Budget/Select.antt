-- ===== src/Budget/Select.antt =====
-- The budget that the status shows, and the period in which a budget is counted.
use multi_cloud_platform.Prelude.{
  ℕ, ◌≤◌, ◌≡◌, ◌≢◌, refl, Bool, true, false, ◌&&◌, Option, none, some, List, [], ◌∷◌, arith, inl,
  inr, ◌⊎◌, Bool-cases, keep_if,
}
use multi_cloud_platform.Prelude.Sort.{In, max_by, min_by}
use multi_cloud_platform.Prelude.Members.{keep_if-In, In-keep_if, max_by-In, min_by-In}
use multi_cloud_platform.Calendar.{Date}
use multi_cloud_platform.Models.{TeamBudget, is_custom}
use multi_cloud_platform.Budget.{
  budget_key, State, upcoming, in_progress, ended, budget_state, recurring_chain, is_in_progress,
  is_upcoming, is_ended, ended_key, or_else, select_status_budget,
}

-- The order in which budgets are shown: custom in progress, in progress, upcoming, ended.
abbrev pub rank : Bool → State → ℕ
rank true in_progress = 0
rank false in_progress = 1
rank c upcoming = 2
rank c ended = 3

abbrev pub budget_rank : List TeamBudget → Date → TeamBudget → ℕ
budget_rank budgets today b =
    rank (is_custom b.period_type) (budget_state b (recurring_chain budgets) today)

max_by-none : {A : Type 0} (key : A → ℕ × ℕ) (xs : List A) → max_by key xs ≡ none → xs ≡ []
unfolding max_by
max_by-none key [] h = refl
max_by-none key (x ∷ xs) h = cc

min_by-none : {A : Type 0} (key : A → ℕ × ℕ) (xs : List A) → min_by key xs ≡ none → xs ≡ []
unfolding min_by
min_by-none key [] h = refl
min_by-none key (x ∷ xs) h = cc

-- A list from which nothing is chosen has no element that passes the test.
none_pass :
    (p : TeamBudget → Bool) (budgets : List TeamBudget) (b : TeamBudget)
    → keep_if p budgets ≡ []
    → In b budgets
    → p b ≡ false
none_pass p budgets b e i = elim (Bool-cases (p b)) [
  | inl pass ↦ absurd (rw e at (In-keep_if p b budgets i pass))
  | inr fail ↦ fail
]

-- One rule of the choice: it chooses a budget that passes its test, or none passes and the next decides.
stage :
    (p : TeamBudget → Bool) (budgets : List TeamBudget) (pick rest : Option TeamBudget)
    (b : TeamBudget)
    → ((c : TeamBudget) → pick ≡ some c → In c (keep_if p budgets))
    → (pick ≡ none → keep_if p budgets ≡ [])
    → or_else pick rest ≡ some b
    → (In b budgets × (p b ≡ true))
      ⊎ ((rest ≡ some b) × ((c : TeamBudget) → In c budgets → p c ≡ false))
stage p budgets none rest b sound complete e =
    inr (e, λ c i. none_pass p budgets c (complete refl) i)
stage p budgets (some c) rest b sound complete e = inl (keep_if-In p b budgets (sound b e))

max_stage :
    (p : TeamBudget → Bool) (key : TeamBudget → ℕ × ℕ) (budgets : List TeamBudget)
    (rest : Option TeamBudget) (b : TeamBudget)
    → or_else (max_by key (keep_if p budgets)) rest ≡ some b
    → (In b budgets × (p b ≡ true))
      ⊎ ((rest ≡ some b) × ((c : TeamBudget) → In c budgets → p c ≡ false))
max_stage p key budgets rest b =
    stage p budgets (max_by key (keep_if p budgets)) rest b
      (λ c. max_by-In key c (keep_if p budgets)) (max_by-none key (keep_if p budgets))

min_stage :
    (p : TeamBudget → Bool) (key : TeamBudget → ℕ × ℕ) (budgets : List TeamBudget)
    (rest : Option TeamBudget) (b : TeamBudget)
    → or_else (min_by key (keep_if p budgets)) rest ≡ some b
    → (In b budgets × (p b ≡ true))
      ⊎ ((rest ≡ some b) × ((c : TeamBudget) → In c budgets → p c ≡ false))
min_stage p key budgets rest b =
    stage p budgets (min_by key (keep_if p budgets)) rest b
      (λ c. min_by-In key c (keep_if p budgets)) (min_by-none key (keep_if p budgets))

-- The tests of the four rules, read as ranks.
rank-custom : (c : Bool) (s : State) → (c && is_in_progress s) ≡ true → rank c s ≡ 0
rank-custom true in_progress e = refl
rank-custom true upcoming e = cc
rank-custom true ended e = cc
rank-custom false s e = cc

rank-running : (c : Bool) (s : State) → is_in_progress s ≡ true → rank c s ≤ 1
rank-running true in_progress e = omega arith
rank-running false in_progress e = omega arith
rank-running c upcoming e = cc
rank-running c ended e = cc

rank-coming : (c : Bool) (s : State) → is_upcoming s ≡ true → rank c s ≡ 2
rank-coming c upcoming e = refl
rank-coming c in_progress e = cc
rank-coming c ended e = cc

rank-le : (c : Bool) (s : State) → rank c s ≤ 3
rank-le true in_progress = omega arith
rank-le false in_progress = omega arith
rank-le c upcoming = omega arith
rank-le c ended = omega arith

rank-pos : (c : Bool) (s : State) → (c && is_in_progress s) ≡ false → 1 ≤ rank c s
rank-pos true in_progress e = cc
rank-pos false in_progress e = omega arith
rank-pos c upcoming e = omega arith
rank-pos c ended e = omega arith

rank-idle : (c : Bool) (s : State) → is_in_progress s ≡ false → 2 ≤ rank c s
rank-idle c in_progress e = cc
rank-idle c upcoming e = omega arith
rank-idle c ended e = omega arith

rank-over : (c : Bool) (s : State) → is_in_progress s ≡ false → is_upcoming s ≡ false → 3 ≤ rank c s
rank-over c in_progress e f = cc
rank-over c upcoming e f = cc
rank-over c ended e f = omega arith

module _ (budgets : List TeamBudget) (today : Date) where
  abbrev state_of : TeamBudget → State
  state_of b = budget_state b (recurring_chain budgets) today

  abbrev Least : TeamBudget → Type 0
  Least b =
      In b budgets
      × ((c : TeamBudget)
          → In c budgets
          → budget_rank budgets today b ≤ budget_rank budgets today c)

  abbrev custom_running : TeamBudget → Bool
  custom_running x = is_custom x.period_type && is_in_progress (state_of x)

  abbrev running : TeamBudget → Bool
  running x = is_in_progress (state_of x)

  abbrev coming : TeamBudget → Bool
  coming x = is_upcoming (state_of x)

  custom_running-Least : (b : TeamBudget) → In b budgets → custom_running b ≡ true → Least b
  custom_running-Least b i pass =
      (i, λ c j. omega (arith, rank-custom (is_custom b.period_type) (state_of b) pass))

  running-Least :
      (b : TeamBudget)
      → In b budgets
      → running b ≡ true
      → ((c : TeamBudget) → In c budgets → custom_running c ≡ false)
      → Least b
  running-Least b i pass none_custom = (
    i,
    λ c j. omega (
      arith,
      rank-running (is_custom b.period_type) (state_of b) pass,
      rank-pos (is_custom c.period_type) (state_of c) (none_custom c j),
    ),
  )

  coming-Least :
      (b : TeamBudget)
      → In b budgets
      → coming b ≡ true
      → ((c : TeamBudget) → In c budgets → running c ≡ false)
      → Least b
  coming-Least b i pass idle = (
    i,
    λ c j. omega (
      arith,
      rank-coming (is_custom b.period_type) (state_of b) pass,
      rank-idle (is_custom c.period_type) (state_of c) (idle c j),
    ),
  )

  over-Least :
      (b : TeamBudget)
      → In b budgets
      → ((c : TeamBudget) → In c budgets → running c ≡ false)
      → ((c : TeamBudget) → In c budgets → coming c ≡ false)
      → Least b
  over-Least b i idle late = (
    i,
    λ c j. omega (
      arith,
      rank-le (is_custom b.period_type) (state_of b),
      rank-over (is_custom c.period_type) (state_of c) (idle c j) (late c j),
    ),
  )

  -- The budget shown is one of the team's, and none of the team's has a lower rank.
  pub select_status_budget-least :
      (b : TeamBudget)
      → select_status_budget budgets today ≡ some b
      → In b budgets
        × ((c : TeamBudget)
            → In c budgets
            → budget_rank budgets today b ≤ budget_rank budgets today c)
  unfolding select_status_budget
  select_status_budget-least b e = elim (max_stage custom_running budget_key budgets _ b e) [
    | inl (i, pass) ↦ custom_running-Least b i pass
    | inr (e₁, none_custom) ↦ elim (max_stage running budget_key budgets _ b e₁) [
      | inl (i, pass) ↦ running-Least b i pass none_custom
      | inr (e₂, idle) ↦ elim (min_stage coming budget_key budgets _ b e₂) [
        | inl (i, pass) ↦ coming-Least b i pass idle
        | inr (e₃, late) ↦
            let over = max_by-In (ended_key (recurring_chain budgets) today) b _ e₃ in
            over-Least b (keep_if-In (λ x. is_ended (state_of x)) b budgets over).0 idle late
      ]
    ]
  ]

or_else-none : (a b : Option TeamBudget) → or_else a b ≡ none → (a ≡ none) × (b ≡ none)
or_else-none none b e = (refl, e)
or_else-none (some x) b e = cc

some_state : (s : State) → is_in_progress s ≡ false → is_upcoming s ≡ false → is_ended s ≡ false → ⊥
some_state upcoming e f g = cc
some_state in_progress e f g = cc
some_state ended e f g = cc

-- A team that has a budget is shown one.
pub select_status_budget-ne-none :
    (budgets : List TeamBudget) (today : Date) (b : TeamBudget)
    → In b budgets
    → select_status_budget budgets today ≢ none
unfolding select_status_budget
select_status_budget-ne-none budgets today b i e =
    let chain = recurring_chain budgets in
    let (e₁, r₁) = or_else-none _ _ e in
    let (e₂, r₂) = or_else-none _ _ r₁ in
    let (e₃, e₄) = or_else-none _ _ r₂ in
    let idle = none_pass (running budgets today) budgets b (max_by-none budget_key _ e₂) i in
    let late = none_pass (coming budgets today) budgets b (min_by-none budget_key _ e₃) i in
    let not_over =
      none_pass (λ x. is_ended (state_of budgets today x)) budgets b
        (max_by-none (ended_key chain today) _ e₄) i in
    some_state (state_of budgets today b) idle late not_over
