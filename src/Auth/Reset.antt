-- ===== src/Auth/Reset.antt =====
-- backend/app/routers/auth.py: the reset of a password by a link.
use multi_cloud_platform.Prelude.{
  ℕ, ◌+◌, String, Bool, not, ◌||◌, Option, none, some, ◌∷◌, map, any, find, leb, ◌==◌, str_eq,
  if◌then◌else◌,
}
use multi_cloud_platform.Auth.{
  AuthUser, PasswordResetToken, AuthDb, Security, AuthSettings, weak_password, invalid_reset_token,
  AuthResult, refused, done, crashed, is_withdrawn, normalize_email, find_user, get_user,
  is_demo_user, is_set, revoke,
}
use multi_cloud_platform.Auth.SignUp.{is_strong_password}

abbrev pub is_reset_token : String → PasswordResetToken → Bool
is_reset_token h r = str_eq r.token_hash h

-- The hash is UNIQUE.
unfoldable pub issue_reset_token : Security → AuthSettings → AuthDb → ℕ → String → ℕ → AuthResult
issue_reset_token s settings db user token now =
    if any (is_reset_token (s.hash_token token)) db.reset_tokens
    then crashed
    else done (record db {
      reset_tokens =
          (record {
            user_id = user;
            token_hash = s.hash_token token;
            expires_at = now + settings.password_reset_token_ttl;
            used_at = none;
          })
          ∷ db.reset_tokens;
    })

unfoldable pub request_reset_for :
    Security → AuthSettings → AuthDb → String → ℕ → Option AuthUser → AuthResult
request_reset_for s settings db token now none = done db
request_reset_for s settings db token now (some u) =
    if is_withdrawn u.status || is_demo_user u
    then done db
    else issue_reset_token s settings db u.id token now

-- The answer is the same whether there is such a user or not.
unfoldable pub request_password_reset :
    Security → AuthSettings → AuthDb → String → String → ℕ → AuthResult
request_password_reset s settings db raw token now =
    request_reset_for s settings db token now (find_user db (normalize_email s raw))

-- The password is replaced, the link used, and every session of the user ended.
unfoldable pub reset_password : Security → AuthDb → String → String → ℕ → AuthUser → AuthDb
reset_password s db link password now u =
    let after = revoke db (λ r. r.user_id == u.id) now in
    record after {
      users =
          map
            (λ v.
              if v.id == u.id
              then record v { password_hash = some (s.hash_password password) }
              else v)
            db.users;
      reset_tokens =
          map
            (λ r.
              if is_reset_token (s.hash_token link) r then record r { used_at = some now } else r)
            db.reset_tokens;
    }

unfoldable pub reset_for : Security → AuthDb → String → String → ℕ → Option AuthUser → AuthResult
reset_for s db link password now none = refused invalid_reset_token db
reset_for s db link password now (some u) =
    if is_withdrawn u.status
    then refused invalid_reset_token db
    else done (reset_password s db link password now u)

unfoldable pub reset_row :
    Security → AuthDb → String → String → ℕ → Option PasswordResetToken → AuthResult
reset_row s db link password now none = refused invalid_reset_token db
reset_row s db link password now (some r) =
    if is_set r.used_at || leb r.expires_at now
    then refused invalid_reset_token db
    else reset_for s db link password now (get_user db r.user_id)

unfoldable pub confirm_password_reset : Security → AuthDb → String → String → ℕ → AuthResult
confirm_password_reset s db link password now =
    if not (is_strong_password password)
    then refused weak_password db
    else reset_row s db link password now
        (find (is_reset_token (s.hash_token link)) db.reset_tokens)
