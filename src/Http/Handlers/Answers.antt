-- ===== src/Http/Handlers/Answers.antt =====
-- What a client can tell from the responses of the login and of a refresh.
use frimo_messenger.Base.{
  ◌==◌, ap, ◌≡◌, ◌≢◌, inl, inr, refl, String, Bool, true, false, ◌||◌, Option, List, [], ◌∷◌,
  str_eq, Bool-cases,
}
use frimo_messenger.Errors.{
  sentinel, Result, ok, err, is, invalid_credentials, user_not_found, refresh_retry_unavailable,
  refresh_token_reuse, session_inactive,
}
use frimo_messenger.Domain.{Uuid, User, Identity, LoginUser, TokenPair}
use frimo_messenger.Service.Ports.{Ports, Call}
use frimo_messenger.Service.Validation.{validate_email, validate_password}
use frimo_messenger.Service.Flows.{
  normalize_email, find_login_user, login, register, confirm_email, resend_verification,
  authenticate, refresh,
}
use frimo_messenger.Http.{
  Request, Op, write, error_response, write_error, returned, Services, bad_request, unauthorized,
}
use frimo_messenger.Http.Handlers
use frimo_messenger.Http.Requests.{
  LoginRequest, Decoders, RefreshRequest, decode_json, validate_refresh,
}
use frimo_messenger.Http.Responses.{login_answer, refresh_answer}
use frimo_messenger.Http.Handlers.{resend_verification_token, refreshed}

-- The API over `auth.Service`.
abbrev pub auth_services : {W : Type 0} → Ports W → (Uuid → Call W User) → Services W
auth_services p get_user_by_id = record {
  login = login p;
  register = register p;
  confirm_email = confirm_email p;
  resend_verification = resend_verification p;
  authenticate = authenticate p;
  refresh = refresh p;
  get_user_by_id = get_user_by_id;
}

-- The lookup by the email found no user, or one of whom the password manager says that the password
-- is another.
abbrev pub IsUnknownOrWrong : {W : Type 0} → Ports W → String → Result LoginUser → Type 0
IsUnknownOrWrong p password (err e) = is e user_not_found ≡ true
IsUnknownOrWrong p password (ok u) =
    p.verify_password u.password_hash password ≡ err (sentinel invalid_credentials)

module _ {W : Type 0} (p : Ports W) (get_user_by_id : Uuid → Call W User)
    (decoders : Decoders) where
  -- A login whose body decodes, with a valid email and password, gets status 401 and the same
  -- response if the email has no user and if the user's password is another, and it leaves no
  -- trace but the lookup's.
  pub login_tells_no_users :
      (r : Request) (identity : Option Identity) (q : LoginRequest) (found : Result LoginUser)
      (w w1 : W)
      → decoders.unmarshal_login r.body ≡ ok q
      → validate_email p.parse_address (normalize_email p q.email) ≡ ok tt
      → validate_password q.password ≡ ok tt
      → p.get_user_for_login (normalize_email p q.email) w ≡ (found, w1)
      → IsUnknownOrWrong p q.password found
      → Handlers.login (auth_services p get_user_by_id) decoders r identity w ≡ record {
        ops = write_error unauthorized "invalid_credentials" "invalid credentials";
        exit = returned;
        world = w1;
      }
  unfolding Handlers.login login_answer login find_login_user
  login_tells_no_users r identity q (err e) w w1 a b c d wrong = rw (a, b, c, d, wrong) refl
  login_tells_no_users r identity q (ok u) w w1 a b c d wrong = rw (a, b, c, d, wrong) refl

-- Whether a body of the calls is an error of the code "validation_error".
abbrev says_validation_error : List Op → Bool
says_validation_error [] = false
says_validation_error (write (error_response code m) ∷ ops) =
    str_eq code "validation_error" || says_validation_error ops
says_validation_error (op ∷ ops) = says_validation_error ops

module _ {W : Type 0} (services : Services W) (decoders : Decoders) where
  refresh_answer-code : (x : Result TokenPair) → says_validation_error (refresh_answer x) ≡ false
  unfolding refresh_answer
  refresh_answer-code (ok pair) = refl
  refresh_answer-code (err e) =
      elim (Bool-cases
        (is e refresh_retry_unavailable || (is e refresh_token_reuse || is e session_inactive))) [
          | inl t ↦ rw t refl
          | inr f ↦ rw f refl
        ]

  refreshed-code :
      (x : Result RefreshRequest) (w : W)
      → says_validation_error (refreshed services decoders (decode_json validate_refresh x) w).ops
        ≡ false
  refreshed-code (err e) w = refl
  refreshed-code (ok q) w = elim (Bool-cases (q.operation_id == 0)) [
    | inl t ↦ rw t refl
    | inr f ↦ elim (Bool-cases (str_eq q.refresh_token "")) [
      | inl t ↦ rw (f, t) refl
      | inr g ↦
          rw (f, g)
            (refresh_answer-code
              (services.refresh
                (record { operation_id = q.operation_id; raw_refresh_token = q.refresh_token })
                w).0)
    ]
  ]

  -- No refresh request is answered by the code that `respondRequestError` has for a failed
  -- validation.
  pub refresh_never_validation_error :
      (r : Request) (identity : Option Identity) (w : W)
      → (Handlers.refresh services decoders r identity w).ops
        ≢ write_error bad_request "validation_error" "request validation failed"
  unfolding Handlers.refresh refresh_answer
  refresh_never_validation_error r identity w h =
      cc (refreshed-code (decoders.unmarshal_refresh r.body) w, ap says_validation_error h)
