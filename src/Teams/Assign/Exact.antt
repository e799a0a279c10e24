-- ===== src/Teams/Assign/Exact.antt =====
-- The accounts that a team has after they were set.
use multi_cloud_platform.Prelude.{
  ℕ, ◌≡◌, refl, sym, ap, inl, inr, Bool, true, false, not, ◌&&◌, Option, none, some, List, [], ◌∷◌,
  map, arith, Bool-cases, Option-cases, ◌==◌, if◌then◌else◌, any, all, elem,
}
use mathlib.Core.Path.{subst}
use multi_cloud_platform.Prelude.Sort.{In}
use multi_cloud_platform.Prelude.Members.{any-false, find-In}
use multi_cloud_platform.Calendar.{Date}
use multi_cloud_platform.Models.{Team, CloudAccount, Db}
use multi_cloud_platform.Adapters.{has_credential, in_team}
use multi_cloud_platform.Notify.{evaluate_budget_thresholds}
use multi_cloud_platform.Notify.Once.{Unique}
use multi_cloud_platform.Notify.Due.{evaluate_budget_thresholds-Evaluated}
use multi_cloud_platform.Teams.{get_owned_team, safe_evaluate}
use multi_cloud_platform.Teams.Assign.{
  AssignResult, account_not_found, account_already_in_team, refused, assigned, is_wanted, is_taken,
  reassign, assign_to, put_team_accounts,
}

safe_evaluate-accounts :
    (db : Db) (team : Team) (today : Date)
    → Unique db.sent
    → (safe_evaluate db team today).accounts ≡ db.accounts
unfolding safe_evaluate
safe_evaluate-accounts db team today u =
    elim (Option-cases (evaluate_budget_thresholds db team today)) [
      | inl e ↦ rw (e, safe_evaluate) refl
      | inr (r, e) ↦
          let (same, kept) = evaluate_budget_thresholds-Evaluated db team today r u e in
          rw (e, safe_evaluate) (ap (λ (d : Db). d.accounts) same)
    ]

map-In :
    {A B : Type 0} (f : A → B) (y : B) (xs : List A)
    → In y (map f xs)
    → (x : A) × In x xs × (y ≡ f x)
map-In f y [] i = absurd i
map-In f y (x ∷ xs) (inl e) = (x, inl refl, e)
map-In f y (x ∷ xs) (inr i) = let (z, j, e) = map-In f y xs i in (z, inr j, e)

-- What becomes of an account: it is in the team if it is wanted, is out of it if it has a credential and
-- is not, and stays where it was if that is another team.
abbrev pub IsReassigned : Db → ℕ → ℕ → List ℕ → CloudAccount → CloudAccount → Type 0
IsReassigned db user_id t wanted before after =
    (after.id ≡ before.id)
    × (is_wanted db user_id wanted before ≡ true → in_team after.team_id t ≡ true)
    × (has_credential db before.id ≡ true
        → elem before.id wanted ≡ false
        → in_team after.team_id t ≡ false)
    × (is_taken before.team_id t ≡ true → after ≡ before)

same_number : (n : ℕ) → (n == n) ≡ true
same_number n = ground arith

contra : {b : Bool} {A : Type 0} → b ≡ true → b ≡ false → A
contra h k = cc

not_taken : (o : Option ℕ) (t : ℕ) → in_team o t ≡ true → is_taken o t ≡ false
not_taken none t h = refl
not_taken (some x) t h = ground arith

-- The two tests of the loops, with what they say of the account.
module _ (db : Db) (user_id t : ℕ) (wanted : List ℕ) (a : CloudAccount) where
  abbrev is_dropped : Bool
  is_dropped = in_team a.team_id t && has_credential db a.id && not (elem a.id wanted)

  wanted-listed : is_wanted db user_id wanted a ≡ true → elem a.id wanted ≡ true
  wanted-listed h = ground arith

  not_dropped :
      is_dropped ≡ false
      → has_credential db a.id ≡ true
      → elem a.id wanted ≡ false
      → in_team a.team_id t ≡ false
  not_dropped h c e = ground arith

  dropped-member : is_dropped ≡ true → in_team a.team_id t ≡ true
  dropped-member h = ground arith

  reassign-IsReassigned :
      (is_wanted db user_id wanted a && is_taken a.team_id t) ≡ false
      → IsReassigned db user_id t wanted a (reassign db user_id t wanted a)
  unfolding reassign
  reassign-IsReassigned free = elim (Bool-cases (is_wanted db user_id wanted a)) [
    | inl w ↦
        rw (w, reassign)
          (
            refl,
            (λ _. same_number t),
            (λ c off. contra (wanted-listed w) off),
            λ taken. contra taken (rw w at free),
          )
    | inr n ↦ elim (Bool-cases is_dropped) [
      | inl d ↦
          rw (n, d, reassign)
            (
              refl,
              (λ w. cc),
              (λ c off. refl),
              λ taken. contra taken (not_taken a.team_id t (dropped-member d)),
            )
      | inr k ↦ rw (n, k, reassign) (refl, (λ w. cc), not_dropped k, λ taken. refl)
    ]
  ]

abbrev Exact : Db → ℕ → ℕ → List ℕ → AssignResult → Type 0
Exact db user_id t wanted (refused e) = Unit
Exact db user_id t wanted (assigned after) =
    (y : CloudAccount)
    → In y after.accounts
    → (a : CloudAccount) × In a db.accounts × IsReassigned db user_id t wanted a y

by_tests :
    (db after : Db) (user_id t : ℕ) (wanted : List ℕ) (missing taken : Bool)
    → (taken ≡ false → Exact db user_id t wanted (assigned after))
    → Exact db user_id t wanted (
        if missing
        then refused account_not_found
        else if taken
        then refused account_already_in_team
        else assigned after)
by_tests db after user_id t wanted true taken h = tt
by_tests db after user_id t wanted false true h = tt
by_tests db after user_id t wanted false false h = h refl

assign_to-Exact :
    (db : Db) (user_id : ℕ) (today : Date) (wanted : List ℕ) (team : Option Team) (t : ℕ)
    → Unique db.sent
    → ((x : Team) → team ≡ some x → x.id ≡ t)
    → Exact db user_id t wanted (assign_to db user_id today wanted team)
unfolding assign_to
assign_to-Exact db user_id today wanted none t u same = tt
assign_to-Exact db user_id today wanted (some team) t u same =
    subst (λ n. Exact db user_id n wanted (assign_to db user_id today wanted (some team)))
      (same team refl)
      (by_tests db
        (safe_evaluate
          (record db { accounts = map (reassign db user_id team.id wanted) db.accounts }) team
          today)
        user_id team.id wanted
        (not (all (λ i. any (λ a. is_wanted db user_id wanted a && a.id == i) db.accounts) wanted))
        (any (λ a. is_wanted db user_id wanted a && is_taken a.team_id team.id) db.accounts) moved)
  where
    moved :
        any (λ a. is_wanted db user_id wanted a && is_taken a.team_id team.id) db.accounts ≡ false
        → Exact db user_id team.id wanted (
            assigned (
              safe_evaluate
                (record db { accounts = map (reassign db user_id team.id wanted) db.accounts })
                team
                today))
    moved free y i =
        let rows =
          safe_evaluate-accounts
            (record db { accounts = map (reassign db user_id team.id wanted) db.accounts }) team
            today u in
        let (a, j, e) =
          map-In (reassign db user_id team.id wanted) y db.accounts (subst (In y) rows i) in
        let clear =
          any-false (λ x. is_wanted db user_id wanted x && is_taken x.team_id team.id) a db.accounts
            free j in
        (
          a,
          j,
          subst (IsReassigned db user_id team.id wanted a) (sym e)
              (reassign-IsReassigned db user_id team.id wanted a clear),
        )

-- After a team's accounts are set, each account is one from before, with its id: it is in the team if it
-- was asked for and is the user's with a credential, is not in it if it has a credential and was not asked
-- for, and is unchanged if it was in another team.
pub put_team_accounts-IsReassigned :
    (db : Db) (user_id : ℕ) (today : Date) (team_id : ℕ) (wanted : List ℕ) (after : Db)
    (y : CloudAccount)
    → Unique db.sent
    → put_team_accounts db user_id today team_id wanted ≡ assigned after
    → In y after.accounts
    → (a : CloudAccount) × In a db.accounts × IsReassigned db user_id team_id wanted a y
unfolding put_team_accounts get_owned_team
put_team_accounts-IsReassigned db user_id today team_id wanted after y u h i =
    subst (Exact db user_id team_id wanted) h
      (assign_to-Exact db user_id today wanted (get_owned_team db user_id team_id) team_id u (λ t e.
        let (j, found) = find-In (λ x. x.id == team_id && x.user_id == user_id) t db.teams e in
        ground arith))
      y i
