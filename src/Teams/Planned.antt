-- ===== src/Teams/Planned.antt =====
-- A team's budgets stay planned: recurring ones start on different days, custom ones do not overlap.
use multi_cloud_platform.Prelude.{
  ℕ, ◌<◌, ◌≡◌, refl, sym, ap, ◌∙◌, inl, inr, Bool, true, false, ◌&&◌, Option, none, some, List, ◌∷◌,
  arith, Bool-cases, Option-cases, ◌==◌,
}
use mathlib.Core.Path.{subst}
use mathlib.Core.Option.{some-injective}
use multi_cloud_platform.Prelude.Sort.{In}
use multi_cloud_platform.Prelude.Members.{In-keep_if, In-sort_by, find-In}
use multi_cloud_platform.Calendar.{Date}
use multi_cloud_platform.Models.{Team, TeamBudget, Db, is_custom}
use multi_cloud_platform.Budget.{budget_key, overlaps, team_budgets}
use multi_cloud_platform.Notify.{evaluate_budget_thresholds}
use multi_cloud_platform.Notify.Once.{Unique}
use multi_cloud_platform.Notify.Due.{evaluate_budget_thresholds-Evaluated}
use multi_cloud_platform.Teams.{
  BudgetCreateRequest, TeamError, done, refused, Window, good, bad, check_new, is_storable,
  insert_budget, safe_evaluate, new_budget, evaluated, store_new, create_for, create_budget,
  get_owned_team,
}
use multi_cloud_platform.Teams.Created.{check_new-Fits}

In-team_budgets :
    (db : Db) (c : TeamBudget) (t : ℕ) → In c db.budgets → c.team_id ≡ t → In c (team_budgets db t)
unfolding team_budgets
In-team_budgets db c t i same =
    In-sort_by budget_key c _ (In-keep_if (λ b. b.team_id == t) c db.budgets i (ground arith))

safe_evaluate-budgets :
    (db : Db) (team : Team) (today : Date)
    → Unique db.sent
    → (safe_evaluate db team today).budgets ≡ db.budgets
unfolding safe_evaluate
safe_evaluate-budgets db team today u =
    elim (Option-cases (evaluate_budget_thresholds db team today)) [
      | inl e ↦ rw (e, safe_evaluate) refl
      | inr (r, e) ↦
          let (same, kept) = evaluate_budget_thresholds-Evaluated db team today r u e in
          rw (e, safe_evaluate) (ap (λ (d : Db). d.budgets) same)
    ]

-- The place of a budget among the others of its team.
abbrev pub IsPlaced : Db → TeamBudget → Type 0
IsPlaced db new =
    (is_custom new.period_type ≡ false
      → (c : TeamBudget) → In c db.budgets
      → c.team_id ≡ new.team_id
      → is_custom c.period_type ≡ false
      → c.start_date < new.start_date)
    × (is_custom new.period_type ≡ true
        → (e : Date) × (new.end_date ≡ some e)
          × (new.start_date < e)
          × ((c : TeamBudget)
              → In c db.budgets
              → c.team_id ≡ new.team_id
              → is_custom c.period_type ≡ true
              → overlaps new.start_date e c ≡ false))

abbrev Added : Db → ℕ → Db → Type 0
Added db team_id after =
    (new : TeamBudget) × (after.budgets ≡ new ∷ db.budgets)
    × (new.team_id ≡ team_id)
    × IsPlaced db new

refused≢done : {e : TeamError} {d : Db} → refused e ≡ done d → ⊥
refused≢done h = cc

done-injective : {a b : Db} → done a ≡ done b → a ≡ b
done-injective h = cc

module _ (db : Db) (team : Team) (today : Date) (payload : BudgetCreateRequest) where
  inserted-Added :
      (end : Option Date) (after : Db)
      → Unique db.sent
      → check_new (team_budgets db team.id) payload ≡ good end
      → evaluated team today (insert_budget db (new_budget db team payload end)) ≡ done after
      → Added db team.id after
  unfolding insert_budget new_budget
  inserted-Added end after u checked h =
      elim (Bool-cases (is_storable db (new_budget db team payload end))) [
        | inr clash ↦ absurd (refused≢done (rw (clash, insert_budget) at h))
        | inl stored ↦
            let (latest, free) = check_new-Fits (team_budgets db team.id) payload end checked in
            subst (Added db team.id) (done-injective (rw (stored, insert_budget) at h)) (
              new_budget db team payload end,
              safe_evaluate-budgets
                  (record db { budgets = new_budget db team payload end ∷ db.budgets }) team today
                  u,
              refl,
              (
                λ recurs c i same. latest recurs c (In-team_budgets db c team.id i same),
                λ custom.
                    let (e, ends, long, clear) = free custom in
                    (e, ends, long, λ c i same. clear c (In-team_budgets db c team.id i same)),
              ),
            )
      ]

  store_new-Added :
      (w : Window) (after : Db)
      → Unique db.sent
      → check_new (team_budgets db team.id) payload ≡ w
      → store_new db team today payload w ≡ done after
      → Added db team.id after
  unfolding store_new
  store_new-Added (bad e) after u checked h = absurd (refused≢done h)
  store_new-Added (good end) after u checked h = inserted-Added end after u checked h

create_for-Added :
    (db : Db) (today : Date) (payload : BudgetCreateRequest) (team_id : ℕ) (team : Option Team)
    (after : Db)
    → Unique db.sent
    → ((t : Team) → team ≡ some t → t.id ≡ team_id)
    → create_for db today payload team ≡ done after
    → Added db team_id after
unfolding create_for
create_for-Added db today payload team_id none after u same h = absurd (refused≢done h)
create_for-Added db today payload team_id (some team) after u same h =
    subst (λ n. Added db n after) (same team refl)
      (store_new-Added db team today payload _ after u refl h)

-- A budget that is created is added to its team's, a recurring one after every other recurring one, and
-- a custom one in a window that no other custom one reaches into.
pub create_budget-IsPlaced :
    (db : Db) (user_id : ℕ) (today : Date) (team_id : ℕ) (payload : BudgetCreateRequest)
    (after : Db)
    → Unique db.sent
    → create_budget db user_id today team_id payload ≡ done after
    → (new : TeamBudget) × (after.budgets ≡ new ∷ db.budgets)
      × (new.team_id ≡ team_id)
      × IsPlaced db new
unfolding create_budget get_owned_team
create_budget-IsPlaced db user_id today team_id payload after u h =
    create_for-Added db today payload team_id (get_owned_team db user_id team_id) after u
      (λ t e.
        let (i, found) = find-In (λ x. x.id == team_id && x.user_id == user_id) t db.teams e in
        ground arith)
      h

-- Two recurring budgets that start on one day, or two custom ones of which one reaches into the other's
-- window, are one.
abbrev pub IsCompatible : TeamBudget → TeamBudget → Type 0
IsCompatible x y =
    (is_custom x.period_type ≡ false
      → is_custom y.period_type ≡ false
      → x.start_date ≡ y.start_date
      → x ≡ y)
    × ((e : Date)
        → is_custom x.period_type ≡ true
        → is_custom y.period_type ≡ true
        → x.end_date ≡ some e
        → overlaps x.start_date e y ≡ true
        → x ≡ y)

abbrev pub IsPlanned : List TeamBudget → Type 0
IsPlanned budgets =
    (x y : TeamBudget) → In x budgets → In y budgets → x.team_id ≡ y.team_id → IsCompatible x y

true≢false : {b : Bool} {A : Type 0} → b ≡ true → b ≡ false → A
true≢false h k = cc

flipped :
    (x y : TeamBudget) (e f : Date)
    → x.end_date ≡ some e
    → y.end_date ≡ some f
    → overlaps x.start_date e y ≡ true
    → overlaps y.start_date f x ≡ true
flipped x y e f ex ey h = ground arith

module _ (db : Db) (new : TeamBudget) (placed : IsPlaced db new) where
  new_first : (y : TeamBudget) → In y db.budgets → y.team_id ≡ new.team_id → IsCompatible new y
  new_first y j same = (
    λ r s starts. let h = placed.0 r y j same s in absurd (ground arith),
    λ e c d ends reach.
        let (f, ends_too, long, clear) = placed.1 c in
        let e_f : e ≡ f = some-injective e f (sym ends ∙ ends_too) in
        true≢false reach
          (subst (λ z. overlaps new.start_date z y ≡ false) (sym e_f) (clear y j same d)),
  )

  new_second : (x : TeamBudget) → In x db.budgets → x.team_id ≡ new.team_id → IsCompatible x new
  new_second x i same = (
    λ r s starts. let h = placed.0 s x i same r in absurd (ground arith),
    λ e c d ends reach.
        let (f, ends_too, long, clear) = placed.1 d in
        true≢false (flipped x new e f ends ends_too reach) (clear x i same c),
  )

-- Creating a budget keeps the plan, whatever the request.
pub create_budget-IsPlanned :
    (db : Db) (user_id : ℕ) (today : Date) (team_id : ℕ) (payload : BudgetCreateRequest)
    (after : Db)
    → Unique db.sent
    → create_budget db user_id today team_id payload ≡ done after
    → IsPlanned db.budgets
    → IsPlanned after.budgets
create_budget-IsPlanned db user_id today team_id payload after u h planned =
    let (new, rows, team, placed) =
      create_budget-IsPlaced db user_id today team_id payload after u h in
    subst IsPlanned (sym rows) (extended new placed)
  where
    extended : (new : TeamBudget) → IsPlaced db new → IsPlanned (new ∷ db.budgets)
    extended new placed x y (inl p) (inl q) same = ((λ _ _ _. p ∙ sym q), λ _ _ _ _ _. p ∙ sym q)
    extended new placed x y (inr i) (inr j) same = planned x y i j same
    extended new placed x y (inl p) (inr j) same =
        let team_of : x.team_id ≡ new.team_id = ap (λ (z : TeamBudget). z.team_id) p in
        subst (λ z. IsCompatible z y) (sym p) (new_first db new placed y j (sym same ∙ team_of))
    extended new placed x y (inr i) (inl q) same =
        let team_of : y.team_id ≡ new.team_id = ap (λ (z : TeamBudget). z.team_id) q in
        subst (λ z. IsCompatible x z) (sym q) (new_second db new placed x i (same ∙ team_of))
