-- ===== src/Auth.antt =====
-- backend/app/routers/auth.py: the rows of authentication (backend/app/models.py), and what the requests
-- share. Hashing, the reading of e-mail addresses and Python's texts are the fields of `Security`; a
-- token or code that is drawn at random is an argument. Times and durations are in one unit.
pub mod Sessions
pub mod SignUp
pub mod Reset
pub mod Requests
pub mod Spent
pub mod Rotated
pub mod Redeemed
use multi_cloud_platform.Prelude.{
  ℕ, ◌+◌, String, Bool, true, false, not, ◌&&◌, ◌||◌, Option, none, some, List, [], ◌∷◌, map, any,
  find, leb, ◌==◌, str_eq, if◌then◌else◌,
}
use multi_cloud_platform.Models.{CloudAccount, Credential}
use multi_cloud_platform.Sync.{ResourceSyncJob}

pub data UserStatus : Type 0 where
  active withdrawn : UserStatus

pub data Affiliation : Type 0 where
  company individual : Affiliation

pub record AuthUser : Type 0 where
  pub id : ℕ
  pub email : String
  pub normalized_email : String
  pub password_hash : Option String
  pub name : String
  pub affiliation_type : Affiliation
  pub affiliation_name : Option String
  pub status : UserStatus
  pub withdrawn_at : Option ℕ

pub record RefreshToken : Type 0 where
  pub user_id : ℕ
  pub token_hash : String
  pub expires_at : ℕ
  pub revoked_at : Option ℕ

pub record PasswordResetToken : Type 0 where
  pub user_id : ℕ
  pub token_hash : String
  pub expires_at : ℕ
  pub used_at : Option ℕ

pub record EmailVerification : Type 0 where
  pub normalized_email : String
  pub code_hash : String
  pub expires_at : ℕ
  pub attempts : ℕ
  pub verified_at : Option ℕ
  pub last_sent_at : Option ℕ

-- A provisioning job, as far as a withdrawal asks: its user, and whether it is queued or running.
pub record ProvisioningJob : Type 0 where
  pub user_id : ℕ
  pub is_busy : Bool

-- The tables; of the social accounts, the users that they belong to.
pub record AuthDb : Type 0 where
  pub users : List AuthUser
  pub refresh_tokens : List RefreshToken
  pub verifications : List EmailVerification
  pub reset_tokens : List PasswordResetToken
  pub social_accounts : List ℕ
  pub cloud_accounts : List CloudAccount
  pub credentials : List Credential
  pub provisioning_jobs : List ProvisioningJob
  pub sync_jobs : List ResourceSyncJob

pub record Security : Type 0 where
  pub hash_token : String → String
  pub verify_password : String → String → Bool
  pub hash_password : String → String
  pub strip : String → String
  pub casefold : String → String
  pub is_email : String → Bool
  pub str : ℕ → String

pub record AuthSettings : Type 0 where
  pub refresh_token_expires : ℕ
  pub password_reset_token_ttl : ℕ
  pub code_ttl : ℕ
  pub resend_interval : ℕ
  pub max_attempts : ℕ
  pub valid_window : ℕ

pub data AuthError : Type 0 where
  invalid_credentials user_withdrawn invalid_token read_only job_already_running : AuthError
  invalid_email email_already_exists too_many_requests : AuthError
  verification_code_expired too_many_attempts invalid_verification_code : AuthError
  weak_password affiliation_required email_not_verified invalid_reset_token : AuthError

-- What a request comes to: a refusal with what was committed before it, or the tables after it. A
-- refusal by a constraint that nothing catches is `crashed`.
pub data AuthResult : Type 0 where
  refused : AuthError → AuthDb → AuthResult
  done : AuthDb → AuthResult
  crashed : AuthResult

abbrev pub is_withdrawn : UserStatus → Bool
is_withdrawn withdrawn = true
is_withdrawn active = false

abbrev pub normalize_email : Security → String → String
normalize_email s email = s.casefold (s.strip email)

unfoldable pub find_user : AuthDb → String → Option AuthUser
find_user db email = find (λ u. str_eq u.normalized_email email) db.users

abbrev pub get_user : AuthDb → ℕ → Option AuthUser
get_user db id = find (λ u. u.id == id) db.users

abbrev pub is_demo_user : AuthUser → Bool
is_demo_user u = str_eq u.normalized_email "demo@exam.com"

abbrev pub is_set : Option ℕ → Bool
is_set none = false
is_set (some t) = true

abbrev pub is_token : String → RefreshToken → Bool
is_token h r = str_eq r.token_hash h

-- The new row; `none` where the hash is taken (UNIQUE).
unfoldable pub issue_refresh_token :
    Security → AuthSettings → AuthDb → ℕ → String → ℕ → Option AuthDb
issue_refresh_token s settings db user token now =
    let h = s.hash_token token in
    if any (is_token h) db.refresh_tokens
    then none
    else some (record db {
      refresh_tokens =
          (record {
            user_id = user;
            token_hash = h;
            expires_at = now + settings.refresh_token_expires;
            revoked_at = none;
          })
          ∷ db.refresh_tokens;
    })

abbrev pub or_crashed : Option AuthDb → AuthResult
or_crashed none = crashed
or_crashed (some db) = done db

-- The UPDATE of the refresh tokens that a test chooses: those that are not revoked yet are.
unfoldable pub revoke : AuthDb → (RefreshToken → Bool) → ℕ → AuthDb
revoke db p now = record db {
  refresh_tokens =
      map (λ r. if p r && not (is_set r.revoked_at) then record r { revoked_at = some now } else r)
        db.refresh_tokens;
}
