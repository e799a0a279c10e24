-- ===== src/Teams/Edit/Kept.antt =====
-- A change of a budget leaves what has begun.
use multi_cloud_platform.Prelude.{
  ℕ, ◌≡◌, refl, sym, ap, ◌∙◌, ◌⊎◌, inl, inr, Bool, true, false, ◌&&◌, Option, none, some, List, [],
  ◌∷◌, map, arith, Bool-cases, Option-cases, ◌==◌, if◌then◌else◌, find, ltb,
}
use mathlib.Core.Path.{subst}
use mathlib.Core.Option.{some-injective}
use multi_cloud_platform.Prelude.Sort.{In}
use multi_cloud_platform.Prelude.Members.{find-In}
use multi_cloud_platform.Calendar.{Date}
use multi_cloud_platform.Models.{Team, TeamBudget, Db}
use multi_cloud_platform.Budget.{team_budgets, recurring_chain, budget_state, is_upcoming}
use multi_cloud_platform.Teams.{
  BudgetPatchRequest, Result, done, refused, integrity_error, Window, bad, good, is_end_allowed,
}
use multi_cloud_platform.Teams.Edit.{
  with_team, get_owned_budget, patch_window, patched, update_budget, apply_patch, patch_owned,
  patch_budget,
}

map-In :
    (new y : TeamBudget) (rows : List TeamBudget)
    → In y (map (λ c. if c.id == new.id then new else c) rows)
    → In y rows ⊎ (y ≡ new)
map-In new y [] i = absurd i
map-In new y (r ∷ rows) (inr i) = elim (map-In new y rows i) [ inl j ↦ inl (inr j) | inr e ↦ inr e ]
map-In new y (r ∷ rows) (inl e) = ground (arith, e)

-- The row is one from before, or that of the budget, which was still to come, with another end or limit.
abbrev pub IsKept : Db → Date → ℕ → TeamBudget → Type 0
IsKept db today id y =
    In y db.budgets
    ⊎ ((b : TeamBudget) × In b db.budgets
        × (b.id ≡ id)
        × (is_upcoming (budget_state b (recurring_chain (team_budgets db b.team_id)) today) ≡ true)
        × (y ≡ record b { end_date = y.end_date; limit_amount = y.limit_amount }))

none≢some : {A : Type 0} {x : A} {P : Type 0} → Option.none ≡ some x → P
none≢some h = cc

changed :
    (b y : TeamBudget) (end : Option Date) (limit : Option ℕ)
    → y ≡ patched b end limit
    → y ≡ record b { end_date = y.end_date; limit_amount = y.limit_amount }
changed b y end limit e =
    subst (λ z. z ≡ record b { end_date = z.end_date; limit_amount = z.limit_amount }) (sym e) refl

abbrev Kept : Db → Date → ℕ → Result → Type 0
Kept db today id (refused e) = Unit
Kept db today id (done after) = (y : TeamBudget) → In y after.budgets → IsKept db today id y

module _ (db : Db) (today : Date) (b : TeamBudget) (i : In b db.budgets)
    (coming : is_upcoming (budget_state b (recurring_chain (team_budgets db b.team_id)) today)
      ≡ true) where
  apply_patch-Kept : (limit : Option ℕ) (w : Window) → Kept db today b.id (apply_patch db b limit w)
  unfolding apply_patch update_budget
  apply_patch-Kept limit (bad e) = tt
  apply_patch-Kept limit (good end) =
      accepted
        (ltb 0 (patched b end limit).limit_amount && is_end_allowed b.period_type b.start_date end)
    where
      accepted :
          (ok : Bool)
          → Kept db today b.id (
              if ok
              then done (record db {
                budgets = map (λ c. if c.id == b.id then patched b end limit else c) db.budgets;
              })
              else refused integrity_error)
      accepted false = tt
      accepted true = λ y j. elim (map-In (patched b end limit) y db.budgets j) [
        | inl k ↦ inl k
        | inr e ↦ inr (b, i, refl, coming, changed b y end limit e)
      ]

patch_owned-Kept :
    (db : Db) (today : Date) (payload : BudgetPatchRequest) (id : ℕ)
    (owned : Option (TeamBudget × Team))
    → ((b : TeamBudget) (t : Team)
        → owned ≡ some (b, t)
        → In b db.budgets × (b.id ≡ id) × (t.id ≡ b.team_id))
    → Kept db today id (patch_owned db today payload owned)
unfolding patch_owned
patch_owned-Kept db today payload id none known = tt
patch_owned-Kept db today payload id (some (b, team)) known =
    let (i, same, its_team) = known b team refl in
    by_state i same its_team
      (Bool-cases (is_upcoming (budget_state b (recurring_chain (team_budgets db team.id)) today)))
  where
    by_state :
        In b db.budgets
        → b.id ≡ id
        → team.id ≡ b.team_id
        → (is_upcoming (budget_state b (recurring_chain (team_budgets db team.id)) today) ≡ true)
          ⊎ (is_upcoming (budget_state b (recurring_chain (team_budgets db team.id)) today) ≡ false)
        → Kept db today id (patch_owned db today payload (some (b, team)))
    by_state i same its_team (inr begun) = rw (begun, patch_owned) tt
    by_state i same its_team (inl coming) =
        rw (coming, patch_owned)
          (subst
            (λ n. Kept db today n (
              apply_patch db b payload.limit_amount
                (patch_window (team_budgets db team.id) b payload.end_date)))
            same (apply_patch-Kept db today b i (rw its_team at coming) payload.limit_amount _))

with_team-some :
    (db : Db) (user_id : ℕ) (found : Option TeamBudget) (b : TeamBudget) (t : Team)
    → with_team db user_id found ≡ some (b, t)
    → (found ≡ some b) × (t.id ≡ b.team_id)
unfolding with_team
with_team-some db user_id none b t h = cc
with_team-some db user_id (some x) b t h =
    elim (Option-cases (find (λ y. y.id == x.team_id && y.user_id == user_id) db.teams)) [
      | inl e ↦ none≢some (rw (e, with_team) at h)
      | inr (y, e) ↦
          let pair = some-injective (x, y) (b, t) (rw (e, with_team) at h) in
          let (i, same) = find-In (λ z. z.id == x.team_id && z.user_id == user_id) y db.teams e in
          let first : x ≡ b = ap (λ (p : TeamBudget × Team). p.0) pair in
          let second : y ≡ t = ap (λ (p : TeamBudget × Team). p.1) pair in
          let teams : y.id ≡ x.team_id = ground arith in
          (
            ap some first,
            ap (λ (z : Team). z.id) (sym second) ∙ teams ∙ ap (λ (z : TeamBudget). z.team_id) first,
          )
    ]

get_owned_budget-some :
    (db : Db) (user_id id : ℕ) (b : TeamBudget) (t : Team)
    → get_owned_budget db user_id id ≡ some (b, t)
    → In b db.budgets × (b.id ≡ id) × (t.id ≡ b.team_id)
unfolding get_owned_budget
get_owned_budget-some db user_id id b t h =
    let (found, team_of) = with_team-some db user_id (find (λ x. x.id == id) db.budgets) b t h in
    let (i, same) = find-In (λ x. x.id == id) b db.budgets found in (i, ground arith, team_of)

-- After a budget was changed, each row is one from before, or that of the budget, which was still to come
-- and has at most another end and another limit; so no period that has begun is counted anew.
pub patch_budget-IsKept :
    (db : Db) (user_id : ℕ) (today : Date) (id : ℕ) (payload : BudgetPatchRequest) (after : Db)
    (y : TeamBudget)
    → patch_budget db user_id today id payload ≡ done after
    → In y after.budgets
    → IsKept db today id y
unfolding patch_budget
patch_budget-IsKept db user_id today id payload after y h =
    subst (Kept db today id) h
      (patch_owned-Kept db today payload id (get_owned_budget db user_id id)
        (get_owned_budget-some db user_id id))
      y
