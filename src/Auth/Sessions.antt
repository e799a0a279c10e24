-- ===== src/Auth/Sessions.antt =====
-- backend/app/routers/auth.py: login, the rotation of refresh tokens, logout and withdrawal.
use multi_cloud_platform.Prelude.{
  ℕ, String, Bool, false, not, ◌&&◌, ◌||◌, Option, none, some, map, any, find, keep_if, elem, leb,
  ◌==◌, str_eq, if◌then◌else◌,
}
use Prim.Native.String.{◌++◌}
use multi_cloud_platform.Models.{is_active}
use multi_cloud_platform.Auth.{
  AuthUser, withdrawn, RefreshToken, AuthDb, Security, AuthSettings, invalid_credentials,
  user_withdrawn, invalid_token, read_only, job_already_running, AuthResult, refused, done,
  is_withdrawn, normalize_email, find_user, get_user, is_demo_user, is_set, is_token,
  issue_refresh_token, or_crashed, revoke,
}

-- `user.password_hash and verify_password(...)`
abbrev pub is_password : Security → String → AuthUser → Bool
is_password s password u = elim u.password_hash [
  | none ↦ false
  | some hash ↦ not (str_eq hash "") && s.verify_password password hash
]

unfoldable pub login_as :
    Security → AuthSettings → AuthDb → String → String → ℕ → Option AuthUser → AuthResult
login_as s settings db password token now none = refused invalid_credentials db
login_as s settings db password token now (some u) =
    if not (is_password s password u)
    then refused invalid_credentials db
    else if is_withdrawn u.status
    then refused user_withdrawn db
    else or_crashed (issue_refresh_token s settings db u.id token now)

-- With the token that is drawn for the session.
unfoldable pub login : Security → AuthSettings → AuthDb → String → String → String → ℕ → AuthResult
login s settings db email password token now =
    login_as s settings db password token now (find_user db (normalize_email s email))

-- `row.revoked_at is not None or row.expires_at <= now`
abbrev pub is_unusable : ℕ → RefreshToken → Bool
is_unusable now r = is_set r.revoked_at || leb r.expires_at now

unfoldable pub refresh_for :
    Security → AuthSettings → AuthDb → String → String → ℕ → Option AuthUser → AuthResult
refresh_for s settings db presented token now none = refused invalid_token db
refresh_for s settings db presented token now (some u) =
    if is_withdrawn u.status
    then refused invalid_token db
    else or_crashed (
        issue_refresh_token s settings (revoke db (is_token (s.hash_token presented)) now) u.id
          token now)

unfoldable pub refresh_row :
    Security → AuthSettings → AuthDb → String → String → ℕ → Option RefreshToken → AuthResult
refresh_row s settings db presented token now none = refused invalid_token db
refresh_row s settings db presented token now (some r) =
    if is_unusable now r
    then refused invalid_token db
    else refresh_for s settings db presented token now (get_user db r.user_id)

-- The token presented is revoked, and the one that is drawn takes its place.
unfoldable pub refresh : Security → AuthSettings → AuthDb → String → String → ℕ → AuthResult
refresh s settings db presented token now =
    refresh_row s settings db presented token now
      (find (is_token (s.hash_token presented)) db.refresh_tokens)

-- A token that is not there, or is revoked already, is no error.
unfoldable pub logout : Security → AuthDb → String → ℕ → AuthResult
logout s db presented now = done (revoke db (is_token (s.hash_token presented)) now)

unfoldable pub has_running_job : AuthDb → ℕ → Bool
has_running_job db user =
    any (λ j. j.user_id == user && j.is_busy) db.provisioning_jobs
    || any (λ j. j.user_id == user && is_active j.status) db.sync_jobs

abbrev pub placeholder : Security → ℕ → String
placeholder s id = "withdrawn-" ++ (s.str id ++ "@invalid")

unfoldable pub withdraw_user : Security → ℕ → AuthUser → AuthUser
withdraw_user s now u = record u {
  status = withdrawn;
  withdrawn_at = some now;
  email = placeholder s u.id;
  normalized_email = placeholder s u.id;
  password_hash = none;
}

-- The keys of the user's accounts go, and the tokens, and the social accounts; the rest stays.
unfoldable pub remove_access : Security → AuthDb → ℕ → AuthUser → AuthDb
remove_access s db now u =
    let ids = map (λ a. a.id) (keep_if (λ a. a.user_id == u.id) db.cloud_accounts) in
    let after = revoke db (λ r. r.user_id == u.id) now in
    record after {
      credentials = keep_if (λ c. not (elem c.cloud_account_id ids)) db.credentials;
      social_accounts = keep_if (λ n. not (n == u.id)) db.social_accounts;
      users = map (λ v. if v.id == u.id then withdraw_user s now v else v) db.users;
    }

-- The user is the one that the access token names, which `get_current_user` has found.
unfoldable pub withdraw_me : Security → AuthDb → ℕ → AuthUser → AuthResult
withdraw_me s db now u =
    if is_demo_user u
    then refused read_only db
    else if has_running_job db u.id
    then refused job_already_running db
    else done (remove_access s db now u)
