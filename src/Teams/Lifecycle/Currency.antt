-- ===== src/Teams/Lifecycle/Currency.antt =====
-- The currency of a team whose costs were collected.
use multi_cloud_platform.Prelude.{
  ℕ, String, ◌≡◌, refl, ap, ◌∙◌, ◌⊎◌, inl, inr, Bool, true, false, ◌&&◌, Option, none, some, List,
  [], ◌∷◌, map, arith, Option-cases, ◌==◌, if◌then◌else◌, eq_iff,
}
use mathlib.Core.Path.{subst}
use multi_cloud_platform.Prelude.Sort.{In}
use multi_cloud_platform.Prelude.Members.{find-In}
use multi_cloud_platform.Calendar.{Date}
use multi_cloud_platform.Models.{Team, Db}
use multi_cloud_platform.Notify.{evaluate_budget_thresholds}
use multi_cloud_platform.Notify.Once.{Unique}
use multi_cloud_platform.Notify.Due.{evaluate_budget_thresholds-Evaluated}
use multi_cloud_platform.Teams.{get_owned_team, safe_evaluate, or_text}
use multi_cloud_platform.Teams.Lifecycle.{
  TeamPatchRequest, TeamWrite, denied, saved, duplicate_name, team_has_collected_costs,
  is_duplicate_name, has_costs, is_changed, update_team, patch_found, patch_team,
}

safe_evaluate-teams :
    (db : Db) (team : Team) (today : Date)
    → Unique db.sent
    → (safe_evaluate db team today).teams ≡ db.teams
unfolding safe_evaluate
safe_evaluate-teams db team today u =
    elim (Option-cases (evaluate_budget_thresholds db team today)) [
      | inl e ↦ rw (e, safe_evaluate) refl
      | inr (r, e) ↦
          let (same, kept) = evaluate_budget_thresholds-Evaluated db team today r u e in
          rw (e, safe_evaluate) (ap (λ (d : Db). d.teams) same)
    ]

updated-In :
    (new y : Team) (rows : List Team)
    → In y (map (λ t. if t.id == new.id then new else t) rows)
    → In y rows ⊎ (y ≡ new)
updated-In new y [] i = absurd i
updated-In new y (r ∷ rows) (inr i) = elim (updated-In new y rows i) [
  | inl j ↦ inl (inr j)
  | inr e ↦ inr e
]
updated-In new y (r ∷ rows) (inl e) = ground (arith, e)

-- A currency that is not changed is the same.
unchanged_currency :
    (given : Option String) (present : String)
    → is_changed given present ≡ false
    → or_text given present ≡ present
unchanged_currency none present h = refl
unchanged_currency (some c) present h = grind (arith, eq_iff)

first_false : (b c : Bool) → (b && c) ≡ false → c ≡ true → b ≡ false
first_false b c h k = ground arith

-- The team is one from before, with its currency if costs were collected for it.
abbrev pub HasCurrency : Db → Team → Type 0
HasCurrency db y =
    (x : Team) × In x db.teams
    × (y.id ≡ x.id)
    × (has_costs db x.id ≡ true → y.currency ≡ x.currency)

abbrev Held : Db → TeamWrite → Type 0
Held db (denied e) = Unit
Held db (saved after) = (y : Team) → In y after.teams → HasCurrency db y

module _ (db : Db) (team : Team) (i : In team db.teams) where
  updated-Held :
      (new : Team)
      → new.id ≡ team.id
      → (has_costs db team.id ≡ true → new.currency ≡ team.currency)
      → Held db (saved (update_team db new))
  unfolding update_team
  updated-Held new same kept y j = elim (updated-In new y db.teams j) [
    | inl k ↦ (y, k, refl, λ _. refl)
    | inr e ↦
        (team, i, ap (λ (t : Team). t.id) e ∙ same, λ c. ap (λ (t : Team). t.currency) e ∙ kept c)
  ]

  evaluated-Held :
      (new : Team) (today : Date)
      → Unique db.sent
      → Held db (saved (update_team db new))
      → Held db (saved (safe_evaluate (update_team db new) new today))
  unfolding update_team
  evaluated-Held new today u h y j =
      h y (subst (In y) (safe_evaluate-teams (update_team db new) new today u) j)

  by_guards :
      (a b c : Bool) (new : Team) (today : Date)
      → Unique db.sent
      → (b && c ≡ false → Held db (saved (update_team db new)))
      → Held db (
          if a
          then denied duplicate_name
          else if b && c
          then denied team_has_collected_costs
          else saved
              (if b then safe_evaluate (update_team db new) new today else update_team db new))
  by_guards true b c new today u h = tt
  by_guards false true true new today u h = tt
  by_guards false true false new today u h = evaluated-Held new today u (h refl)
  by_guards false false c new today u h = h refl

patch_found-Held :
    (db : Db) (user_id : ℕ) (today : Date) (payload : TeamPatchRequest) (team : Option Team)
    → Unique db.sent
    → ((t : Team) → team ≡ some t → In t db.teams)
    → Held db (patch_found db user_id today payload team)
unfolding patch_found
patch_found-Held db user_id today payload none u known = tt
patch_found-Held db user_id today payload (some team) u known =
    let new : Team = record team {
      name = or_text payload.name team.name;
      currency = or_text payload.currency team.currency;
    } in
    by_guards db team (known team refl)
      (is_changed payload.name team.name && is_duplicate_name db user_id new.name (some team.id))
      (is_changed payload.currency team.currency) (has_costs db team.id) new today u
      (λ free. updated-Held db team (known team refl) new refl (λ costs.
        unchanged_currency payload.currency team.currency (
          first_false (is_changed payload.currency team.currency) (has_costs db team.id) free
            costs)))

-- After a team was changed, each team is one from before, and has its currency from before if costs were
-- collected for an account of it.
pub patch_team-HasCurrency :
    (db : Db) (user_id : ℕ) (today : Date) (team_id : ℕ) (payload : TeamPatchRequest) (after : Db)
    (y : Team)
    → Unique db.sent
    → patch_team db user_id today team_id payload ≡ saved after
    → In y after.teams
    → HasCurrency db y
unfolding patch_team get_owned_team
patch_team-HasCurrency db user_id today team_id payload after y u h =
    subst (Held db) h
      (patch_found-Held db user_id today payload (get_owned_team db user_id team_id) u
        (λ t e. (find-In (λ x. x.id == team_id && x.user_id == user_id) t db.teams e).0))
      y
