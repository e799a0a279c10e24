-- ===== src/Teams/Lifecycle/Gone.antt =====
-- What a deleted team leaves.
use multi_cloud_platform.Prelude.{
  ℕ, ◌≡◌, ◌≢◌, ◌↔◌, ◌⊎◌, keep_if, refl, sym, ap, any, inl, inr, Bool, true, false, not, ◌&&◌,
  Option, none, some, List, [], ◌∷◌, map, arith, Bool-cases, ◌==◌, if◌then◌else◌,
}
use mathlib.Core.Path.{subst}
use mathlib.Core.Option.{some-injective}
use multi_cloud_platform.Prelude.Sort.{In}
use multi_cloud_platform.Prelude.Members.{
  find-In, keep_if-In, In-keep_if, map_if-In, In-map_if_same, In-map_if_other, any-false,
}
use multi_cloud_platform.Models.{Team, TeamBudget, TeamBudgetNotification, CloudAccount, Db}
use multi_cloud_platform.Adapters.{in_team}
use multi_cloud_platform.Teams.{get_owned_team}
use multi_cloud_platform.Teams.Lifecycle.{
  TeamWrite, denied, saved, remove_team, delete_found, delete_team,
}

kept :
    {A : Type 0} (p : A → Bool) (x : A) (xs : List A)
    → In x (keep_if (λ r. not (p r)) xs) ↔ (In x xs × (p x ≡ false))
kept p x xs = (
  λ i. let (j, e) = keep_if-In (λ r. not (p r)) x xs i in (j, ground arith),
  λ h. In-keep_if (λ r. not (p r)) x xs h.0 (ground (arith, h.1)),
)

-- A row whose number is not the one of the team.
others :
    {A : Type 0} (f : A → ℕ) (t : ℕ) (x : A) (xs : List A)
    → In x (keep_if (λ r. not (f r == t)) xs) ↔ (In x xs × (f x ≢ t))
others f t x xs =
    let (to, from) = kept (λ r. f r == t) x xs in
    (λ i. let (j, e) = to i in (j, ground arith), λ h. let other = h.1 in from (h.0, ground arith))

in_team_lem : (o : Option ℕ) (t : ℕ) → (in_team o t ≡ true) ↔ (o ≡ some t)
in_team_lem none t = (λ e. cc, λ e. cc)
in_team_lem (some x) t = (
  λ e. let same : x ≡ t = ground arith in ap some same,
  λ e. let same = some-injective x t e in ground arith,
)

-- The account is left without a team if it was in this one, and else as it is.
abbrev IsReleased : ℕ → CloudAccount → CloudAccount → Type 0
IsReleased t a y =
    ((a.team_id ≡ some t) × (y ≡ record a { team_id = none })) ⊎ ((a.team_id ≢ some t) × (y ≡ a))

released :
    (t : ℕ) (y : CloudAccount) (rows : List CloudAccount)
    → In y (map (λ a. if in_team a.team_id t then record a { team_id = none } else a) rows)
      ↔ ((a : CloudAccount) × In a rows × IsReleased t a y)
released t y rows = (
  λ i.
      let (a, j, how) =
        map_if-In (λ a. in_team a.team_id t) (λ a. record a { team_id = none }) y rows i in
      (
        a,
        j,
        elim how [
          | inl (held, e) ↦ inl ((in_team_lem a.team_id t).0 held, e)
          | inr (free, e) ↦ inr (λ h. let held = (in_team_lem a.team_id t).1 h in cc, e)
        ],
      ),
  λ h.
      let (a, j, how) = h in
      let p : CloudAccount → Bool = λ a. in_team a.team_id t in
      let f : CloudAccount → CloudAccount = λ a. record a { team_id = none } in
      elim how [
        | inl (held, e) ↦
            subst (λ z. In z (map (λ a. if p a then f a else a) rows)) (sym e)
              (In-map_if_same p f a rows ((in_team_lem a.team_id t).1 held) j)
        | inr (free, e) ↦
            subst (λ z. In z (map (λ a. if p a then f a else a) rows)) (sym e)
              (In-map_if_other p f a rows (not_held a free) j)
      ],
)
  where
    not_held : (a : CloudAccount) → a.team_id ≢ some t → in_team a.team_id t ≡ false
    not_held a free = elim (Bool-cases (in_team a.team_id t)) [
      | inl held ↦ absurd (free ((in_team_lem a.team_id t).0 held))
      | inr off ↦ off
    ]

-- A notification about a budget of the team.
abbrev IsOfTeam : Db → ℕ → TeamBudgetNotification → Type 0
IsOfTeam db t n = (b : TeamBudget) × In b db.budgets × (b.team_id ≡ t) × (b.id ≡ n.team_budget_id)

any_of_team :
    (t : ℕ) (n : TeamBudgetNotification) (bs : List TeamBudget)
    → any (λ b. b.team_id == t && b.id == n.team_budget_id) bs ≡ true
    → (b : TeamBudget) × In b bs × (b.team_id ≡ t) × (b.id ≡ n.team_budget_id)
any_of_team t n [] h = cc
any_of_team t n (b ∷ bs) h = elim (Bool-cases (b.team_id == t && b.id == n.team_budget_id)) [
  | inl here ↦ (b, inl refl, ground arith, ground arith)
  | inr other ↦ let (c, i, e, f) = any_of_team t n bs (rw other at h) in (c, inr i, e, f)
]

notified :
    (db : Db) (t : ℕ) (n : TeamBudgetNotification)
    → In n (
        keep_if
          (λ m. not (any (λ b. b.team_id == t && b.id == m.team_budget_id) db.budgets))
          db.sent)
      ↔ (In n db.sent × (IsOfTeam db t n → ⊥))
notified db t n =
    let p : TeamBudgetNotification → Bool =
      λ m. any (λ b. b.team_id == t && b.id == m.team_budget_id) db.budgets in
    let (to, from) = kept p n db.sent in
    (
      λ i.
          let (j, off) = to i in
          (
            j,
            λ h.
                let (b, k, e, f) = h in
                let no =
                  any-false (λ b. b.team_id == t && b.id == n.team_budget_id) b db.budgets off k in
                ground arith,
          ),
      λ h. from (
        h.0,
        elim (Bool-cases (p n)) [
          | inl on ↦ absurd (h.1 (any_of_team t n db.budgets on))
          | inr off ↦ off
        ],
      ),
    )

-- The team, its budgets and their notifications are gone, its accounts are left without a team, and
-- all other rows are as they were.
abbrev pub IsGone : Db → ℕ → Db → Type 0
IsGone db t after =
    ((x : Team) → In x after.teams ↔ (In x db.teams × (x.id ≢ t)))
    × ((b : TeamBudget) → In b after.budgets ↔ (In b db.budgets × (b.team_id ≢ t)))
    × ((n : TeamBudgetNotification) → In n after.sent ↔ (In n db.sent × (IsOfTeam db t n → ⊥)))
    × ((y : CloudAccount)
        → In y after.accounts ↔ ((a : CloudAccount) × In a db.accounts × IsReleased t a y))
    × (after.costs ≡ db.costs)
    × (after.runs ≡ db.runs)
    × (after.users ≡ db.users)
    × (after.credentials ≡ db.credentials)

abbrev Gone : Db → ℕ → TeamWrite → Type 0
Gone db t (denied e) = Unit
Gone db t (saved after) = IsGone db t after

remove_team-IsGone : (db : Db) (t : ℕ) → IsGone db t (remove_team db t)
unfolding remove_team
remove_team-IsGone db t = (
  λ x. others (λ z. z.id) t x db.teams,
  λ b. others (λ z. z.team_id) t b db.budgets,
  λ n. notified db t n,
  λ y. released t y db.accounts,
  refl,
  refl,
  refl,
  refl,
)

delete_found-Gone :
    (db : Db) (t : ℕ) (team : Option Team)
    → ((x : Team) → team ≡ some x → x.id ≡ t)
    → Gone db t (delete_found db team)
unfolding delete_found
delete_found-Gone db t none same = tt
delete_found-Gone db t (some team) same =
    subst (λ n. IsGone db n (remove_team db team.id)) (same team refl)
      (remove_team-IsGone db team.id)

-- After a team was deleted, its row, its budgets and their notifications are gone, its accounts are
-- in no team, and every other team, budget, notification and account is as it was, and so are all
-- costs, runs, users and credentials.
pub delete_team-IsGone :
    (db : Db) (user_id team_id : ℕ) (after : Db)
    → delete_team db user_id team_id ≡ saved after
    → IsGone db team_id after
unfolding delete_team get_owned_team
delete_team-IsGone db user_id team_id after h = subst (Gone db team_id) h (
    delete_found-Gone db team_id (get_owned_team db user_id team_id) (λ t e.
      let (i, found) = find-In (λ x. x.id == team_id && x.user_id == user_id) t db.teams e in
      ground arith))
