-- ===== src/Auth/Redeemed.antt =====
-- A link for a new password that was used.
use multi_cloud_platform.Prelude.{
  ℕ, ◌≡◌, refl, sym, ap, inl, inr, Bool, true, not, ◌&&◌, ◌||◌, Option, none, some, arith, String,
  find, leb, ◌==◌, if-elim,
}
use mathlib.Core.Path.{subst}
use multi_cloud_platform.Prelude.Sort.{In}
use multi_cloud_platform.Prelude.Members.{find-In, map_if-In}
use multi_cloud_platform.Auth.{
  AuthUser, RefreshToken, PasswordResetToken, AuthDb, Security, invalid_reset_token, refused, done,
  is_withdrawn, is_set, revoke, get_user,
}
use multi_cloud_platform.Auth.SignUp.{is_strong_password}
use multi_cloud_platform.Auth.Reset.{
  is_reset_token, reset_password, reset_for, reset_row, confirm_password_reset,
}
use multi_cloud_platform.Auth.Rotated.{OnDone}

-- Every row with the hash is used.
abbrev IsUsed : String → AuthDb → Type 0
IsUsed h db =
    (t : PasswordResetToken)
    → In t db.reset_tokens
    → is_reset_token h t ≡ true
    → is_set t.used_at ≡ true

-- Every session of the user is revoked.
abbrev HasNoSession : ℕ → AuthDb → Type 0
HasNoSession user db =
    (r : RefreshToken)
    → In r db.refresh_tokens
    → (r.user_id == user) ≡ true
    → is_set r.revoked_at ≡ true

-- A row of the link stood for a user who has no session any more; the link is used.
abbrev pub IsRedeemed : String → AuthDb → AuthDb → Type 0
IsRedeemed h db after =
    ((t : PasswordResetToken) × In t db.reset_tokens
      × (is_reset_token h t ≡ true)
      × HasNoSession t.user_id after)
    × IsUsed h after

revoke-HasNoSession :
    (db : AuthDb) (user now : ℕ) → HasNoSession user (revoke db (λ r. r.user_id == user) now)
unfolding revoke
revoke-HasNoSession db user now x i at =
    let q : RefreshToken → Bool = λ r. (r.user_id == user) && not (is_set r.revoked_at) in
    let f : RefreshToken → RefreshToken = λ r. record r { revoked_at = some now } in
    let (y, j, how) = map_if-In q f x db.refresh_tokens i in
    elim how [
      | inl (same, e) ↦ ap (λ z. is_set z.revoked_at) e
      | inr (other, e) ↦
          let here = subst (λ z. (z.user_id == user) ≡ true) e at in
          subst (λ z. is_set z.revoked_at ≡ true) (sym e) (ground arith)
    ]

module _ (s : Security) where
  reset_password-IsUsed :
      (db : AuthDb) (link password : String) (now : ℕ) (u : AuthUser)
      → IsUsed (s.hash_token link) (reset_password s db link password now u)
  unfolding reset_password revoke
  reset_password-IsUsed db link password now u x i at =
      let q : PasswordResetToken → Bool = is_reset_token (s.hash_token link) in
      let f : PasswordResetToken → PasswordResetToken = λ r. record r { used_at = some now } in
      let (y, j, how) = map_if-In q f x db.reset_tokens i in
      elim how [
        | inl (same, e) ↦ ap (λ z. is_set z.used_at) e
        | inr (other, e) ↦ let here = subst (λ z. q z ≡ true) e at in absurd (ground arith)
      ]

  reset_password-HasNoSession :
      (db : AuthDb) (link password : String) (now : ℕ) (u : AuthUser)
      → HasNoSession u.id (reset_password s db link password now u)
  unfolding reset_password
  reset_password-HasNoSession db link password now u = revoke-HasNoSession db u.id now

  confirm_password_reset-OnDone :
      (db : AuthDb) (link password : String) (now : ℕ)
      → OnDone (IsRedeemed (s.hash_token link) db) (confirm_password_reset s db link password now)
  unfolding confirm_password_reset reset_row reset_for
  confirm_password_reset-OnDone db link password now =
      if-elim (OnDone P) (not (is_strong_password password)) _ _ tt
        (by (find (is_reset_token h) db.reset_tokens) refl)
    where
      h : String
      h = s.hash_token link

      P : AuthDb → Type 0
      P = IsRedeemed h db

      by_user :
          (t : PasswordResetToken)
          → In t db.reset_tokens
          → is_reset_token h t ≡ true
          → (u : Option AuthUser) → get_user db t.user_id ≡ u
          → OnDone P (reset_for s db link password now u)
      by_user t i at none e = tt
      by_user t i at (some u) e =
          let (j, same) = find-In (λ v. v.id == t.user_id) u db.users e in
          let eq : u.id ≡ t.user_id = ground arith in
          if-elim (OnDone P) (is_withdrawn u.status) _ _ tt (
            (
              t,
              i,
              at,
              subst (λ n. HasNoSession n (reset_password s db link password now u)) eq
                  (reset_password-HasNoSession db link password now u),
            ),
            reset_password-IsUsed db link password now u,
          )

      by :
          (t : Option PasswordResetToken)
          → find (is_reset_token h) db.reset_tokens ≡ t
          → OnDone P (reset_row s db link password now t)
      by none e = tt
      by (some t) e =
          let (i, at) = find-In (is_reset_token h) t db.reset_tokens e in
          if-elim (OnDone P) (is_set t.used_at || leb t.expires_at now) _ _ tt
            (by_user t i at (get_user db t.user_id) refl)

  IsUsed-refused :
      (db : AuthDb) (link password : String) (now : ℕ)
      → IsUsed (s.hash_token link) db
      → is_strong_password password ≡ true
      → confirm_password_reset s db link password now ≡ refused invalid_reset_token db
  unfolding confirm_password_reset reset_row
  IsUsed-refused db link password now used strong =
      rw (strong) (by (find (is_reset_token (s.hash_token link)) db.reset_tokens) refl)
    where
      by :
          (t : Option PasswordResetToken)
          → find (is_reset_token (s.hash_token link)) db.reset_tokens ≡ t
          → reset_row s db link password now t ≡ refused invalid_reset_token db
      by none e = refl
      by (some t) e =
          let (i, at) = find-In (is_reset_token (s.hash_token link)) t db.reset_tokens e in
          rw (used t i at) refl

  -- Once a link has set a new password, every session of the user that it was issued to is
  -- revoked, the link is marked as used, and with another strong password it is refused.
  pub confirm_password_reset-IsRedeemed :
      (db after : AuthDb) (link password : String) (now : ℕ)
      → confirm_password_reset s db link password now ≡ done after
      → (next : String) (at : ℕ) → is_strong_password next ≡ true
      → IsRedeemed (s.hash_token link) db after
        × (confirm_password_reset s after link next at ≡ refused invalid_reset_token after)
  confirm_password_reset-IsRedeemed db after link password now e next at strong =
      let all =
        subst (OnDone (IsRedeemed (s.hash_token link) db)) e
          (confirm_password_reset-OnDone db link password now) in
      (all, IsUsed-refused after link next at all.1 strong)
