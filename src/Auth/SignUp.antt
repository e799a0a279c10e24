-- ===== src/Auth/SignUp.antt =====
-- backend/app/routers/auth.py: the codes by which an e-mail address is verified, and the sign-up, and
-- backend/app/security/passwords.py, which passwords are strong.
use Prim.Native.Char.{code}
use multi_cloud_platform.Prelude.{
  ℕ, suc, ◌+◌, max, String, Bool, true, false, not, ◌&&◌, ◌||◌, Option, none, some, List, [], ◌∷◌,
  map, find, keep_if, ltb, leb, str_eq, if◌then◌else◌,
}
use multi_cloud_platform.Auth.{
  AuthUser, active, Affiliation, company, EmailVerification, AuthDb, Security, AuthSettings,
  invalid_email, email_already_exists, too_many_requests, verification_code_expired,
  too_many_attempts, invalid_verification_code, weak_password, affiliation_required,
  email_not_verified, AuthResult, refused, done, normalize_email, find_user,
}

abbrev pub is_letter : ℕ → Bool
is_letter c = leb 65 c && leb c 90 || leb 97 c && leb c 122

abbrev pub is_digit : ℕ → Bool
is_digit c = leb 48 c && leb c 57

abbrev pub any_char : (ℕ → Bool) → String → Bool
any_char p String.[] = false
any_char p (String.◌∷◌ c s) = p (code c) || any_char p s

abbrev pub chars : String → ℕ
chars String.[] = 0
chars (String.◌∷◌ c s) = suc (chars s)

abbrev pub one_if : Bool → ℕ
one_if true = 1
one_if false = 0

unfoldable pub is_strong_password : String → Bool
is_strong_password password =
    not (ltb (chars password) 8)
    && leb 2 (
        one_if (any_char is_letter password)
        + one_if (any_char is_digit password)
        + one_if (any_char (λ c. not (is_letter c || is_digit c)) password))

abbrev pub is_for : String → EmailVerification → Bool
is_for email v = str_eq v.normalized_email email

abbrev pub find_verification : AuthDb → String → Option EmailVerification
find_verification db email = find (is_for email) db.verifications

-- The row for an address, with a code that was drawn.
unfoldable pub put_code : Security → AuthSettings → AuthDb → String → String → ℕ → AuthDb
put_code s settings db email drawn now = record db {
  verifications =
      (record {
        normalized_email = email;
        code_hash = s.hash_token drawn;
        expires_at = now + settings.code_ttl;
        attempts = 0;
        verified_at = none;
        last_sent_at = some now;
      })
      ∷ keep_if (λ v. not (is_for email v)) db.verifications;
}

-- `elapsed < resend_interval`
abbrev pub is_too_soon : AuthSettings → ℕ → Option EmailVerification → Bool
is_too_soon settings now none = false
is_too_soon settings now (some v) = elim v.last_sent_at [
  | none ↦ false
  | some sent ↦ ltb now (sent + settings.resend_interval)
]

abbrev pub is_taken_email : Option AuthUser → Bool
is_taken_email none = false
is_taken_email (some u) = true

unfoldable pub request_email_verification :
    Security → AuthSettings → AuthDb → String → String → ℕ → AuthResult
request_email_verification s settings db raw drawn now =
    let email = normalize_email s (s.strip raw) in
    if not (s.is_email (s.strip raw))
    then refused invalid_email db
    else if is_taken_email (find_user db email)
    then refused email_already_exists db
    else if is_too_soon settings now (find_verification db email)
    then refused too_many_requests db
    else done (put_code s settings db email drawn now)

-- The UPDATE of the row for an address.
unfoldable pub set_verification : AuthDb → String → (EmailVerification → EmailVerification) → AuthDb
set_verification db email f = record db {
  verifications = map (λ v. if is_for email v then f v else v) db.verifications;
}

unfoldable pub verify_code :
    Security → AuthSettings → AuthDb → String → String → ℕ → EmailVerification → AuthResult
verify_code s settings db email given now v =
    if leb v.expires_at now
    then refused verification_code_expired db
    else if leb settings.max_attempts v.attempts
    then refused too_many_attempts db
    else if not (str_eq (s.hash_token (s.strip given)) v.code_hash)
    then refused invalid_verification_code
        (set_verification db email (λ w. record w { attempts = w.attempts + 1 }))
    else done (set_verification db email (λ w. record w { verified_at = some now }))

unfoldable pub verify_email_verification :
    Security → AuthSettings → AuthDb → String → String → ℕ → AuthResult
verify_email_verification s settings db raw given now =
    elim (find_verification db (normalize_email s raw)) [
      | none ↦ refused verification_code_expired db
      | some v ↦ verify_code s settings db (normalize_email s raw) given now v
    ]

pub record SignUpRequest : Type 0 where
  pub email : String
  pub password : String
  pub name : String
  pub affiliation_type : Affiliation
  pub affiliation_name : Option String

abbrev pub or_absent : String → Option String
or_absent text = if str_eq text "" then none else some text

abbrev pub stripped : Security → Option String → Option String
stripped s none = none
stripped s (some text) = or_absent (s.strip text)

abbrev pub is_missing : Affiliation → Option String → Bool
is_missing company none = true
is_missing _ _ = false

-- Verified within the window.
abbrev pub is_verified : AuthSettings → ℕ → Option EmailVerification → Bool
is_verified settings now none = false
is_verified settings now (some v) = elim v.verified_at [
  | none ↦ false
  | some at ↦ not (ltb (at + settings.valid_window) now)
]

abbrev pub next_user_id : List AuthUser → ℕ
next_user_id [] = 1
next_user_id (u ∷ us) = max (suc u.id) (next_user_id us)

-- The user, whose verification is used up.
unfoldable pub add_user : Security → AuthDb → SignUpRequest → String → AuthDb
add_user s db p email = record db {
  users =
      (record {
        id = next_user_id db.users;
        email = s.strip p.email;
        normalized_email = email;
        password_hash = some (s.hash_password p.password);
        name = s.strip p.name;
        affiliation_type = p.affiliation_type;
        affiliation_name = stripped s p.affiliation_name;
        status = active;
        withdrawn_at = none;
      })
      ∷ db.users;
  verifications = keep_if (λ v. not (is_for email v)) db.verifications;
}

unfoldable pub sign_up : Security → AuthSettings → AuthDb → SignUpRequest → ℕ → AuthResult
sign_up s settings db p now =
    let email = normalize_email s (s.strip p.email) in
    if not (s.is_email (s.strip p.email))
    then refused invalid_email db
    else if not (is_strong_password p.password)
    then refused weak_password db
    else if is_missing p.affiliation_type (stripped s p.affiliation_name)
    then refused affiliation_required db
    else if is_taken_email (find_user db email)
    then refused email_already_exists db
    else if not (is_verified settings now (find_verification db email))
    then refused email_not_verified db
    else done (add_user s db p email)
