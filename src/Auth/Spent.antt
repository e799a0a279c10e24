-- ===== src/Auth/Spent.antt =====
-- A refresh token that was revoked.
use multi_cloud_platform.Prelude.{
  ℕ, ◌+◌, ◌≡◌, refl, sym, ap, ◌∙◌, inl, inr, Bool, true, false, not, ◌&&◌, Option, none, some, List,
  [], ◌∷◌, arith, String, Bool-cases, map, any, find, ◌==◌, eq_iff, if◌then◌else◌, if-elim,
}
use mathlib.Core.Path.{subst}
use multi_cloud_platform.Prelude.Sort.{In}
use multi_cloud_platform.Prelude.Members.{map_if-In}
use multi_cloud_platform.Auth.{
  AuthUser, RefreshToken, AuthDb, Security, AuthSettings, AuthResult, refused, done, crashed,
  is_withdrawn, is_set, is_token, issue_refresh_token, or_crashed, revoke, find_user,
  normalize_email, get_user, is_demo_user,
}
use multi_cloud_platform.Auth.Sessions.{
  login_as, login, is_password, is_unusable, refresh_for, refresh_row, refresh, has_running_job,
  remove_access, withdraw_me,
}

-- A row has the hash, and every row that has it is revoked.
abbrev pub IsSpent : String → AuthDb → Type 0
IsSpent h db =
    (any (is_token h) db.refresh_tokens ≡ true)
    × ((r : RefreshToken)
        → In r db.refresh_tokens
        → is_token h r ≡ true
        → is_set r.revoked_at ≡ true)

-- What a request leaves, if it is not refused by a constraint.
abbrev pub Leaves : (AuthDb → Type 0) → AuthResult → Type 0
Leaves P (refused e db) = P db
Leaves P (done db) = P db
Leaves P crashed = Unit

pub issue-IsSpent :
    (s : Security) (settings : AuthSettings) (h : String) (db : AuthDb) (user : ℕ) (token : String)
    (now : ℕ)
    → IsSpent h db
    → Leaves (IsSpent h) (or_crashed (issue_refresh_token s settings db user token now))
unfolding issue_refresh_token
issue-IsSpent s settings h db user token now (has, all) =
    by (any (is_token (s.hash_token token)) db.refresh_tokens) refl
  where
    new : RefreshToken
    new = record {
      user_id = user;
      token_hash = s.hash_token token;
      expires_at = now + settings.refresh_token_expires;
      revoked_at = none;
    }

    by :
        (b : Bool)
        → any (is_token (s.hash_token token)) db.refresh_tokens ≡ b
        → Leaves (IsSpent h) (
            or_crashed
              (if b then none else some (record db { refresh_tokens = new ∷ db.refresh_tokens })))
    by true e = tt
    by false e = (
      ground arith,
      λ r i at. elim i [
        | inl same ↦
            let here : is_token h new ≡ true = subst (λ z. is_token h z ≡ true) same at in
            let eq : s.hash_token token ≡ h = (eq_iff (s.hash_token token) h).0 here in
            let none_has = subst (λ z. any (is_token z) db.refresh_tokens ≡ false) eq e in
            absurd (ground arith)
        | inr old ↦ all r old at
      ],
    )

any-revoke :
    (h : String) (p : RefreshToken → Bool) (f : RefreshToken → RefreshToken)
    (rs : List RefreshToken)
    → ((r : RefreshToken) → (f r).token_hash ≡ r.token_hash)
    → any (is_token h) (map (λ r. if p r then f r else r) rs) ≡ any (is_token h) rs
any-revoke h p f [] keeps = refl
any-revoke h p f (r ∷ rs) keeps = elim (Bool-cases (p r)) [
  | inl chosen ↦ rw (chosen, keeps r, any-revoke h p f rs keeps) refl
  | inr other ↦ rw (other, any-revoke h p f rs keeps) refl
]

pub revoke-IsSpent :
    (h : String) (db : AuthDb) (p : RefreshToken → Bool) (now : ℕ)
    → IsSpent h db
    → IsSpent h (revoke db p now)
unfolding revoke
revoke-IsSpent h db p now (has, all) =
    let q : RefreshToken → Bool = λ r. p r && not (is_set r.revoked_at) in
    let f : RefreshToken → RefreshToken = λ r. record r { revoked_at = some now } in
    (
      any-revoke h q f db.refresh_tokens (λ r. refl) ∙ has,
      λ x i at.
          let (y, j, how) = map_if-In q f x db.refresh_tokens i in
          elim how [
            | inl (same, e) ↦ ap (λ z. is_set z.revoked_at) e
            | inr (other, e) ↦
                subst (λ z. is_set z.revoked_at ≡ true) (sym e)
                  (all y j (subst (λ z. is_token h z ≡ true) e at))
          ],
    )

-- To revoke a token that is there spends it.
pub revoke_token-IsSpent :
    (h : String) (db : AuthDb) (now : ℕ)
    → any (is_token h) db.refresh_tokens ≡ true
    → IsSpent h (revoke db (is_token h) now)
unfolding revoke
revoke_token-IsSpent h db now has =
    let q : RefreshToken → Bool = λ r. is_token h r && not (is_set r.revoked_at) in
    let f : RefreshToken → RefreshToken = λ r. record r { revoked_at = some now } in
    (
      any-revoke h q f db.refresh_tokens (λ r. refl) ∙ has,
      λ x i at.
          let (y, j, how) = map_if-In q f x db.refresh_tokens i in
          elim how [
            | inl (same, e) ↦ ap (λ z. is_set z.revoked_at) e
            | inr (other, e) ↦
                let here = subst (λ z. is_token h z ≡ true) e at in
                subst (λ z. is_set z.revoked_at ≡ true) (sym e) (ground arith)
          ],
    )

module _ (s : Security) (settings : AuthSettings) (h : String) where
  refresh_for-IsSpent :
      (db : AuthDb) (presented token : String) (now : ℕ) (u : Option AuthUser)
      → IsSpent h db
      → Leaves (IsSpent h) (refresh_for s settings db presented token now u)
  unfolding refresh_for
  refresh_for-IsSpent db presented token now none k = k
  refresh_for-IsSpent db presented token now (some u) k =
      if-elim (Leaves (IsSpent h)) (is_withdrawn u.status) _ _ k (
        issue-IsSpent s settings h (revoke db (is_token (s.hash_token presented)) now) u.id token
          now (revoke-IsSpent h db (is_token (s.hash_token presented)) now k))

  pub refresh-IsSpent :
      (db : AuthDb) (presented token : String) (now : ℕ)
      → IsSpent h db
      → Leaves (IsSpent h) (refresh s settings db presented token now)
  unfolding refresh refresh_row
  refresh-IsSpent db presented token now k =
      by (find (is_token (s.hash_token presented)) db.refresh_tokens)
    where
      by :
          (r : Option RefreshToken)
          → Leaves (IsSpent h) (refresh_row s settings db presented token now r)
      by none = k
      by (some r) =
          if-elim (Leaves (IsSpent h)) (is_unusable now r) _ _ k
            (refresh_for-IsSpent db presented token now (get_user db r.user_id) k)

  pub login-IsSpent :
      (db : AuthDb) (email password token : String) (now : ℕ)
      → IsSpent h db
      → Leaves (IsSpent h) (login s settings db email password token now)
  unfolding login login_as
  login-IsSpent db email password token now k = by (find_user db (normalize_email s email))
    where
      by : (u : Option AuthUser) → Leaves (IsSpent h) (login_as s settings db password token now u)
      by none = k
      by (some u) = if-elim (Leaves (IsSpent h)) (not (is_password s password u)) _ _ k (
          if-elim (Leaves (IsSpent h)) (is_withdrawn u.status) _ _ k
            (issue-IsSpent s settings h db u.id token now k))

  pub withdraw_me-IsSpent :
      (db : AuthDb) (now : ℕ) (u : AuthUser)
      → IsSpent h db
      → Leaves (IsSpent h) (withdraw_me s db now u)
  unfolding withdraw_me remove_access
  withdraw_me-IsSpent db now u k = if-elim (Leaves (IsSpent h)) (is_demo_user u) _ _ k (
      if-elim (Leaves (IsSpent h)) (has_running_job db u.id) _ _ k
        (revoke-IsSpent h db (λ r. r.user_id == u.id) now k))
