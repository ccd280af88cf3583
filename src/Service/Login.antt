-- ===== src/Service/Login.antt =====
-- `Login` of internal/service/auth/service.go: who gets a session, and what a refusal tells.
use frimo_messenger.Base.{String, Bool, true, false, is_null, if◌then◌else◌, ◌≡◌, refl, ap, arith}
use frimo_messenger.Errors.{
  Error, sentinel, is, Result, ok, err, invalid_credentials, email_not_verified, user_not_found,
}
use frimo_messenger.Domain.{LoginInput, LoginUser, TokenPair}
use frimo_messenger.Service.Ports.{Ports}
use frimo_messenger.Service.Validation.{
  trim_space, validate_email, validate_password, validate_device_name,
}
use frimo_messenger.Service.Chain.{continue-ok, check-ok}
use frimo_messenger.Service.Flows.{
  normalize_email, find_login_user, open_session, login_user, verified, login,
}

-- What a login that may open a session has shown: `user` is the row of the email, the password is
-- that user's, the email is confirmed, and all three inputs are valid.
pub record MayLogin {W : Type 0} (p : Ports W) (input : LoginInput) (w : W) (user : LoginUser)
    (w1 : W) : Type 0 where
  pub email : validate_email p.parse_address (normalize_email p input.email) ≡ ok tt
  pub password : validate_password input.password ≡ ok tt
  pub found : p.get_user_for_login (normalize_email p input.email) w ≡ (ok user, w1)
  pub verified : p.verify_password user.password_hash input.password ≡ ok tt
  pub confirmed : is_null user.verified_at ≡ false
  pub device : validate_device_name (trim_space input.device_name) ≡ ok tt

login_user-ok : (r : Result LoginUser) (u : LoginUser) → login_user r ≡ ok u → r ≡ ok u
login_user-ok r u h = ground arith

verified-ok : (r : Result (Unit {0})) → verified r ≡ ok tt → r ≡ ok tt
verified-ok r h = ground arith

confirmed-ok :
    (b : Bool) → (if b then err (sentinel email_not_verified) else ok (tt {0})) ≡ ok tt → b ≡ false
confirmed-ok b h = ground arith

-- The lookup found no user, or one whose password is another.
abbrev pub IsWrong : {W : Type 0} → Ports W → LoginInput → Result LoginUser → Type 0
IsWrong p input (err e) = is e user_not_found ≡ true
IsWrong p input (ok u) =
    (e : Error) × (p.verify_password u.password_hash input.password ≡ err e)
    × (is e invalid_credentials ≡ true)

module _ {W : Type 0} (p : Ports W) (input : LoginInput) where
  found-ok :
      (email : String) (w : W) (u : LoginUser) (w1 : W)
      → find_login_user p email w ≡ (ok u, w1)
      → p.get_user_for_login email w ≡ (ok u, w1)
  unfolding find_login_user
  found-ok email w u w1 h =
      let e = login_user-ok (p.get_user_for_login email w).0 u (ap (λ x. x.0) h) in
      let g = ap (λ x. x.1) h in cc

  -- Where a login returns tokens, its inputs are valid, the lookup found the user of the email, the
  -- password is that user's, the email is confirmed, and the tokens are those of the session that was
  -- opened after the lookup.
  pub login-ok :
      (w : W) {pair : TokenPair} {w' : W}
      → login p input w ≡ (ok pair, w')
      → (user : LoginUser) × (w1 : W) × MayLogin p input w user w1
        × (open_session p input user (trim_space input.device_name) w1 ≡ (ok pair, w'))
  unfolding login find_login_user
  login-ok w h =
      let email = normalize_email p input.email in
      let (a, h1) = check-ok (validate_email p.parse_address email) w _ h in
      let (b, h2) = check-ok (validate_password input.password) w _ h1 in
      let (u, w1, c, h3) = continue-ok (find_login_user p email w) _ h2 in
      let (d, h4) =
        check-ok (verified (p.verify_password u.password_hash input.password)) w1 _ h3 in
      let (e, h5) =
        check-ok (if is_null u.verified_at then err (sentinel email_not_verified) else ok tt) w1 _
          h4 in
      let (g, h6) = check-ok (validate_device_name (trim_space input.device_name)) w1 _ h5 in
      let found = found-ok email w u w1 c in
      (
        u,
        w1,
        record {
          email = a;
          password = b;
          found = found;
          verified = verified-ok _ d;
          confirmed = confirmed-ok _ e;
          device = g;
        },
        h6,
      )

  -- With a valid email and password, a user who is not found and a password that is another are both
  -- refused with `ErrInvalidCredentials`, and the lookup is the only call that changed the world.
  pub login_refuses :
      (w w1 : W) (r : Result LoginUser)
      → validate_email p.parse_address (normalize_email p input.email) ≡ ok tt
      → validate_password input.password ≡ ok tt
      → p.get_user_for_login (normalize_email p input.email) w ≡ (r, w1)
      → IsWrong p input r
      → (e : Error) × (login p input w ≡ (err e, w1)) × (is e invalid_credentials ≡ true)
  unfolding login find_login_user
  login_refuses w w1 (err e) a b c wrong =
      (sentinel invalid_credentials, rw (a, b, c, wrong) refl, refl)
  login_refuses w w1 (ok u) a b c (e, d, same) = (e, rw (a, b, c, d, same) refl, same)
