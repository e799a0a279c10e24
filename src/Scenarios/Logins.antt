-- ===== src/Scenarios/Logins.antt =====
-- Instances for authentication.
use multi_cloud_platform.Prelude.{◌≡◌, refl, true, none, some, List, [], ◌∷◌, str_eq}
use multi_cloud_platform.Auth.{
  AuthUser, active, individual, RefreshToken, PasswordResetToken, AuthDb, Security, AuthSettings,
  invalid_token, invalid_reset_token, refused, done, issue_refresh_token, revoke,
}
use multi_cloud_platform.Auth.Sessions.{refresh, refresh_row, refresh_for}
use multi_cloud_platform.Auth.Requests.{AuthRequest, log_in, rotate, log_out, serve}
use multi_cloud_platform.Auth.Rotated.{refresh-once}
use multi_cloud_platform.Auth.SignUp.{is_strong_password}
use multi_cloud_platform.Auth.Reset.{reset_password, reset_for, reset_row, confirm_password_reset}
use multi_cloud_platform.Auth.Redeemed.{IsRedeemed, confirm_password_reset-IsRedeemed}

-- Texts stand for their own hashes.
abbrev plain : Security
plain = record {
  hash_token = λ t. t;
  verify_password = λ p h. str_eq p h;
  hash_password = λ p. p;
  strip = λ t. t;
  casefold = λ t. t;
  is_email = λ t. true;
  str = λ n. "1";
}

abbrev settings : AuthSettings
settings = record {
  refresh_token_expires = 1000;
  password_reset_token_ttl = 30;
  code_ttl = 10;
  resend_interval = 1;
  max_attempts = 5;
  valid_window = 30;
}

abbrev user : AuthUser
user = record {
  id = 1;
  email = "kim@example.com";
  normalized_email = "kim@example.com";
  password_hash = some "secret";
  name = "Kim";
  affiliation_type = individual;
  affiliation_name = none;
  status = active;
  withdrawn_at = none;
}

abbrev session : RefreshToken
session = record { user_id = 1; token_hash = "first"; expires_at = 500; revoked_at = none }

abbrev signed_in : AuthDb
signed_in = record {
  users = user ∷ [];
  refresh_tokens = session ∷ [];
  verifications = [];
  reset_tokens = [];
  social_accounts = [];
  cloud_accounts = [];
  credentials = [];
  provisioning_jobs = [];
  sync_jobs = [];
}

abbrev rotated : AuthDb
rotated = record signed_in {
  refresh_tokens =
      (record { user_id = 1; token_hash = "second"; expires_at = 1100; revoked_at = none })
      ∷ record session { revoked_at = some 100 }
      ∷ [];
}

rotated_lem : refresh plain settings signed_in "first" "second" 100 ≡ done rotated
unfolding refresh refresh_row refresh_for issue_refresh_token revoke
rotated_lem = refl

abbrev requests : List AuthRequest
requests =
    rotate "second" "third" 110
    ∷ log_out "third" 120
    ∷ log_in "kim@example.com" "secret" "fourth" 130
    ∷ []

refresh-once_example :
    refresh plain settings (serve plain settings rotated requests) "first" "fifth" 140
    ≡ refused invalid_token (serve plain settings rotated requests)
refresh-once_example =
    refresh-once plain settings signed_in rotated "first" "second" 100 rotated_lem requests "fifth"
      140

abbrev reset_link : PasswordResetToken
reset_link = record { user_id = 1; token_hash = "link"; expires_at = 130; used_at = none }

abbrev forgotten : AuthDb
forgotten = record signed_in { reset_tokens = reset_link ∷ [] }

abbrev redeemed : AuthDb
redeemed = record signed_in {
  users = (record user { password_hash = some "new-secret1" }) ∷ [];
  refresh_tokens = (record session { revoked_at = some 120 }) ∷ [];
  reset_tokens = (record reset_link { used_at = some 120 }) ∷ [];
}

redeemed_lem : confirm_password_reset plain forgotten "link" "new-secret1" 120 ≡ done redeemed
unfolding confirm_password_reset reset_row reset_for reset_password revoke is_strong_password
redeemed_lem = refl

other_password-strong : is_strong_password "other-secret2" ≡ true
unfolding is_strong_password
other_password-strong = refl

confirm_password_reset-IsRedeemed_example :
    IsRedeemed "link" forgotten redeemed
    × (confirm_password_reset plain redeemed "link" "other-secret2" 125
        ≡ refused invalid_reset_token redeemed)
confirm_password_reset-IsRedeemed_example =
    confirm_password_reset-IsRedeemed plain forgotten redeemed "link" "new-secret1" 120 redeemed_lem
      "other-secret2" 125 other_password-strong
