-- ===== src/Auth/Requests.antt =====
-- backend/app/routers/auth.py: the requests, one after the other.
use multi_cloud_platform.Prelude.{ℕ, String, List, [], ◌∷◌}
use multi_cloud_platform.Auth.{
  AuthUser, AuthDb, Security, AuthSettings, AuthResult, refused, done, crashed,
}
use multi_cloud_platform.Auth.Sessions.{login, refresh, logout, withdraw_me}
use multi_cloud_platform.Auth.SignUp.{
  request_email_verification, verify_email_verification, SignUpRequest, sign_up,
}
use multi_cloud_platform.Auth.Reset.{request_password_reset, confirm_password_reset}

-- A request with the time at which it is served and the token or code that it draws.
pub data AuthRequest : Type 0 where
  log_in : String → String → String → ℕ → AuthRequest
  rotate : String → String → ℕ → AuthRequest
  log_out : String → ℕ → AuthRequest
  withdraw : ℕ → AuthUser → AuthRequest
  ask_code : String → String → ℕ → AuthRequest
  give_code : String → String → ℕ → AuthRequest
  join : SignUpRequest → ℕ → AuthRequest
  ask_reset : String → String → ℕ → AuthRequest
  give_reset : String → String → ℕ → AuthRequest

module _ (s : Security) (settings : AuthSettings) where
  unfoldable pub answer : AuthDb → AuthRequest → AuthResult
  answer db (log_in email password token now) = login s settings db email password token now
  answer db (rotate presented token now) = refresh s settings db presented token now
  answer db (log_out presented now) = logout s db presented now
  answer db (withdraw now user) = withdraw_me s db now user
  answer db (ask_code email drawn now) = request_email_verification s settings db email drawn now
  answer db (give_code email given now) = verify_email_verification s settings db email given now
  answer db (join p now) = sign_up s settings db p now
  answer db (ask_reset email token now) = request_password_reset s settings db email token now
  answer db (give_reset link password now) = confirm_password_reset s db link password now

  -- What a request leaves; a constraint that refuses leaves all as it was.
  abbrev pub left : AuthDb → AuthResult → AuthDb
  left db (refused e after) = after
  left db (done after) = after
  left db crashed = db

  unfoldable pub serve : AuthDb → List AuthRequest → AuthDb
  serve db [] = db
  serve db (r ∷ rs) = serve (left db (answer db r)) rs
