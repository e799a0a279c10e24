-- ===== src/Auth/Rotated.antt =====
-- A refresh token that was used, over the requests that follow.
use multi_cloud_platform.Prelude.{
  ℕ, ◌≡◌, refl, sym, inl, inr, Bool, true, not, ◌||◌, Option, none, some, List, [], ◌∷◌, arith,
  String, any, find, leb, ◌==◌, str_eq, if-elim, option-elim,
}
use mathlib.Core.Path.{subst}
use multi_cloud_platform.Prelude.Sort.{In}
use multi_cloud_platform.Prelude.Members.{find-In}
use multi_cloud_platform.Auth.{
  AuthUser, RefreshToken, PasswordResetToken, AuthDb, Security, AuthSettings, invalid_token,
  AuthResult, refused, done, crashed, is_withdrawn, is_set, is_token, revoke, find_user,
  normalize_email, get_user, is_demo_user,
}
use multi_cloud_platform.Auth.Sessions.{is_unusable, refresh_for, refresh_row, refresh, logout}
use multi_cloud_platform.Auth.SignUp.{
  request_email_verification, is_taken_email, is_too_soon, find_verification, put_code,
  set_verification, verify_code, verify_email_verification, SignUpRequest, is_strong_password,
  is_missing, stripped, is_verified, add_user, sign_up,
}
use multi_cloud_platform.Auth.Reset.{
  is_reset_token, issue_reset_token, request_reset_for, request_password_reset, reset_password,
  reset_for, reset_row, confirm_password_reset,
}
use multi_cloud_platform.Auth.Requests.{
  AuthRequest, log_in, rotate, log_out, withdraw, ask_code, give_code, join, ask_reset, give_reset,
  answer, left, serve,
}
use multi_cloud_platform.Auth.Spent.{
  IsSpent, Leaves, issue-IsSpent, revoke-IsSpent, revoke_token-IsSpent, refresh-IsSpent,
  login-IsSpent, withdraw_me-IsSpent,
}

module _ (s : Security) (settings : AuthSettings) (h : String) where
  -- The requests for codes and the sign-up keep the tokens.
  ask_code-IsSpent :
      (db : AuthDb) (raw drawn : String) (now : ℕ)
      → IsSpent h db
      → Leaves (IsSpent h) (request_email_verification s settings db raw drawn now)
  unfolding request_email_verification put_code
  ask_code-IsSpent db raw drawn now k =
      if-elim (Leaves (IsSpent h)) (not (s.is_email (s.strip raw))) _ _ k (
        if-elim (Leaves (IsSpent h))
          (is_taken_email (find_user db (normalize_email s (s.strip raw)))) _ _ k
          (if-elim (Leaves (IsSpent h))
            (is_too_soon settings now (find_verification db (normalize_email s (s.strip raw)))) _ _
            k k))

  give_code-IsSpent :
      (db : AuthDb) (raw given : String) (now : ℕ)
      → IsSpent h db
      → Leaves (IsSpent h) (verify_email_verification s settings db raw given now)
  unfolding verify_email_verification verify_code set_verification
  give_code-IsSpent db raw given now k =
      option-elim (Leaves (IsSpent h)) (find_verification db (normalize_email s raw)) _ _ k (λ v e.
        if-elim (Leaves (IsSpent h)) (leb v.expires_at now) _ _ k (
          if-elim (Leaves (IsSpent h)) (leb settings.max_attempts v.attempts) _ _ k (
            if-elim (Leaves (IsSpent h)) (not (str_eq (s.hash_token (s.strip given)) v.code_hash)) _
              _ k k)))

  join-IsSpent :
      (db : AuthDb) (p : SignUpRequest) (now : ℕ)
      → IsSpent h db
      → Leaves (IsSpent h) (sign_up s settings db p now)
  unfolding sign_up add_user
  join-IsSpent db p now k =
      let email = normalize_email s (s.strip p.email) in
      let P = Leaves (IsSpent h) in
      if-elim P (not (s.is_email (s.strip p.email))) _ _ k (
        if-elim P (not (is_strong_password p.password)) _ _ k (
          if-elim P (is_missing p.affiliation_type (stripped s p.affiliation_name)) _ _ k (
            if-elim P (is_taken_email (find_user db email)) _ _ k
              (if-elim P (not (is_verified settings now (find_verification db email))) _ _ k k))))

  ask_reset-IsSpent :
      (db : AuthDb) (raw token : String) (now : ℕ)
      → IsSpent h db
      → Leaves (IsSpent h) (request_password_reset s settings db raw token now)
  unfolding request_password_reset request_reset_for issue_reset_token
  ask_reset-IsSpent db raw token now k = by (find_user db (normalize_email s raw))
    where
      by : (u : Option AuthUser) → Leaves (IsSpent h) (request_reset_for s settings db token now u)
      by none = k
      by (some u) = if-elim (Leaves (IsSpent h)) (is_withdrawn u.status || is_demo_user u) _ _ k (
          if-elim (Leaves (IsSpent h)) (any (is_reset_token (s.hash_token token)) db.reset_tokens) _
            _ tt k)

  give_reset-IsSpent :
      (db : AuthDb) (link password : String) (now : ℕ)
      → IsSpent h db
      → Leaves (IsSpent h) (confirm_password_reset s db link password now)
  unfolding confirm_password_reset reset_row reset_for reset_password
  give_reset-IsSpent db link password now k =
      if-elim (Leaves (IsSpent h)) (not (is_strong_password password)) _ _ k
        (by (find (is_reset_token (s.hash_token link)) db.reset_tokens))
    where
      by_user : (u : Option AuthUser) → Leaves (IsSpent h) (reset_for s db link password now u)
      by_user none = k
      by_user (some u) =
          if-elim (Leaves (IsSpent h)) (is_withdrawn u.status) _ _ k
            (revoke-IsSpent h db (λ r. r.user_id == u.id) now k)

      by : (r : Option PasswordResetToken) → Leaves (IsSpent h) (reset_row s db link password now r)
      by none = k
      by (some r) =
          if-elim (Leaves (IsSpent h)) (is_set r.used_at || leb r.expires_at now) _ _ k
            (by_user (get_user db r.user_id))

  answer-IsSpent :
      (db : AuthDb) (r : AuthRequest) → IsSpent h db → Leaves (IsSpent h) (answer s settings db r)
  unfolding answer logout
  answer-IsSpent db (log_in email password token now) k =
      login-IsSpent s settings h db email password token now k
  answer-IsSpent db (rotate presented token now) k =
      refresh-IsSpent s settings h db presented token now k
  answer-IsSpent db (log_out presented now) k =
      revoke-IsSpent h db (is_token (s.hash_token presented)) now k
  answer-IsSpent db (withdraw now user) k = withdraw_me-IsSpent s settings h db now user k
  answer-IsSpent db (ask_code email drawn now) k = ask_code-IsSpent db email drawn now k
  answer-IsSpent db (give_code email given now) k = give_code-IsSpent db email given now k
  answer-IsSpent db (join p now) k = join-IsSpent db p now k
  answer-IsSpent db (ask_reset email token now) k = ask_reset-IsSpent db email token now k
  answer-IsSpent db (give_reset link password now) k = give_reset-IsSpent db link password now k

  left-IsSpent :
      (db : AuthDb) (r : AuthResult)
      → IsSpent h db
      → Leaves (IsSpent h) r
      → IsSpent h (left s settings db r)
  left-IsSpent db (refused e after) k l = l
  left-IsSpent db (done after) k l = l
  left-IsSpent db crashed k l = k

  serve-IsSpent :
      (db : AuthDb) (rs : List AuthRequest) → IsSpent h db → IsSpent h (serve s settings db rs)
  unfolding serve
  serve-IsSpent db [] k = k
  serve-IsSpent db (r ∷ rs) k =
      serve-IsSpent (left s settings db (answer s settings db r)) rs
        (left-IsSpent db (answer s settings db r) k (answer-IsSpent db r k))

abbrev pub OnDone : (AuthDb → Type 0) → AuthResult → Type 0
OnDone P (refused e db) = Unit
OnDone P (done db) = P db
OnDone P crashed = Unit

Leaves-OnDone : (P : AuthDb → Type 0) (r : AuthResult) → Leaves P r → OnDone P r
Leaves-OnDone P (refused e db) l = tt
Leaves-OnDone P (done db) l = l
Leaves-OnDone P crashed l = tt

any-true :
    (p : RefreshToken → Bool) (x : RefreshToken) (rs : List RefreshToken)
    → In x rs
    → p x ≡ true
    → any p rs ≡ true
any-true p x [] i h = absurd i
any-true p x (r ∷ rs) (inl e) h = rw (sym e, h) refl
any-true p x (r ∷ rs) (inr i) h = ground (arith, any-true p x rs i h)

module _ (s : Security) (settings : AuthSettings) where
  -- A refresh that succeeds spends the token presented.
  refresh-OnDone :
      (db : AuthDb) (presented token : String) (now : ℕ)
      → OnDone (IsSpent (s.hash_token presented)) (refresh s settings db presented token now)
  unfolding refresh refresh_row refresh_for
  refresh-OnDone db presented token now =
      by (find (is_token (s.hash_token presented)) db.refresh_tokens) refl
    where
      h : String
      h = s.hash_token presented

      by_user :
          any (is_token h) db.refresh_tokens ≡ true
          → (u : Option AuthUser)
          → OnDone (IsSpent h) (refresh_for s settings db presented token now u)
      by_user has none = tt
      by_user has (some u) = if-elim (OnDone (IsSpent h)) (is_withdrawn u.status) _ _ tt (
          Leaves-OnDone (IsSpent h) _ (
            issue-IsSpent s settings h (revoke db (is_token h) now) u.id token now
              (revoke_token-IsSpent h db now has)))

      by :
          (r : Option RefreshToken)
          → find (is_token h) db.refresh_tokens ≡ r
          → OnDone (IsSpent h) (refresh_row s settings db presented token now r)
      by none e = tt
      by (some r) e =
          let (i, at) = find-In (is_token h) r db.refresh_tokens e in
          if-elim (OnDone (IsSpent h)) (is_unusable now r) _ _ tt
            (by_user (any-true (is_token h) r db.refresh_tokens i at) (get_user db r.user_id))

  IsSpent-refused :
      (db : AuthDb) (presented token : String) (now : ℕ)
      → IsSpent (s.hash_token presented) db
      → refresh s settings db presented token now ≡ refused invalid_token db
  unfolding refresh refresh_row
  IsSpent-refused db presented token now (has, all) =
      by (find (is_token (s.hash_token presented)) db.refresh_tokens) refl
    where
      by :
          (r : Option RefreshToken)
          → find (is_token (s.hash_token presented)) db.refresh_tokens ≡ r
          → refresh_row s settings db presented token now r ≡ refused invalid_token db
      by none e = refl
      by (some r) e =
          let (i, at) = find-In (is_token (s.hash_token presented)) r db.refresh_tokens e in
          rw (all r i at) refl

  -- A refresh token that was exchanged is refused ever after, whatever requests follow.
  pub refresh-once :
      (db mid : AuthDb) (presented token : String) (now : ℕ)
      → refresh s settings db presented token now ≡ done mid
      → (rs : List AuthRequest) (later : String) (at : ℕ)
      → refresh s settings (serve s settings mid rs) presented later at
        ≡ refused invalid_token (serve s settings mid rs)
  refresh-once db mid presented token now e rs later at =
      IsSpent-refused (serve s settings mid rs) presented later at (
        serve-IsSpent s settings (s.hash_token presented) mid rs (
          subst (OnDone (IsSpent (s.hash_token presented))) e
            (refresh-OnDone db presented token now)))
