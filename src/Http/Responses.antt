-- ===== src/Http/Responses.antt =====
-- The responses of the handlers to what the service returned, and `respondRequestError` of
-- response.go.
use frimo_messenger.Base.{◌||◌, Option, none, some, List, [], ◌∷◌, ◌++◌, if◌then◌else◌}
use frimo_messenger.Errors.{
  Result, ok, err, is, ValidationError, as_validation, invalid_credentials, email_not_verified,
  email_already_exists, user_not_found, already_verified, resend_cooldown, resend_hourly_limit,
  invalid_token, expired_token, used_token, revoked_token, session_inactive, refresh_token_reuse,
  refresh_retry_unavailable, profile_not_found,
}
use frimo_messenger.Domain.{User, TokenPair}
use frimo_messenger.Http.{
  Op, write_header, token_response, register_response, me_response, verify_email_response,
  bad_request, unauthorized, forbidden, conflict, write_json, write_error, internal_error,
  authentication_error,
}
use frimo_messenger.Http.Requests.{RequestError, is_validation_pointer}

-- `respondRequestError`.
abbrev pub request_error : RequestError → List Op
request_error e =
    if is_validation_pointer e
    then write_error bad_request "validation_error" "request validation failed"
    else write_error bad_request "invalid_request" "invalid request body"

abbrev pub invalid_request : List Op
invalid_request = write_error bad_request "invalid_request" "invalid request body"

-- `errors.As(err, &validationErr)` as the first case of a `switch`.
abbrev or_validation : Option ValidationError → List Op → List Op
or_validation (some v) other = write_error bad_request v.code v.message
or_validation none other = other

-- The response to what the service returned, in each handler.
unfoldable pub register_answer : Result User → List Op
register_answer (ok u) = write_json 202 (register_response u.id u.email)
register_answer (err e) = or_validation (as_validation e) (
    if is e email_already_exists
    then write_error conflict "email_already_exists" "user with this email already exists"
    else internal_error)

unfoldable pub login_answer : Result TokenPair → List Op
login_answer (ok pair) = write_json 200 (token_response pair.access_token pair.refresh_token)
login_answer (err e) = or_validation (as_validation e) (
    if is e invalid_credentials
    then write_error unauthorized "invalid_credentials" "invalid credentials"
    else if is e email_not_verified
    then write_error forbidden "email_not_verified" "email not verified"
    else internal_error)

unfoldable pub refresh_answer : Result TokenPair → List Op
refresh_answer (ok pair) = write_json 200 (token_response pair.access_token pair.refresh_token)
refresh_answer (err e) =
    if is e refresh_retry_unavailable || (is e refresh_token_reuse || is e session_inactive)
    then authentication_error
    else internal_error

unfoldable pub verify_email_answer : Result (Unit {0}) → List Op
verify_email_answer (ok x) = write_json 200 (verify_email_response "email_verified")
verify_email_answer (err e) =
    if is e invalid_token
    then write_error bad_request "invalid_verification_token" "verification token is invalid"
    else if is e expired_token
    then write_error bad_request "verification_token_expired" "verification token has expired"
    else if is e used_token
    then write_error conflict "verification_token_used" "verification token has already been used"
    else if is e revoked_token
    then write_error bad_request "verification_token_revoked" "verification token has revoked"
    else internal_error

abbrev accepted : List Op
accepted = write_header 202 ∷ []

-- The case of a validation error does not return: its response is followed by another status.
abbrev or_accepted : Option ValidationError → List Op → List Op
or_accepted (some v) other = write_error bad_request v.code v.message ++ accepted
or_accepted none other = other

unfoldable pub resend_answer : Result (Unit {0}) → List Op
resend_answer (ok x) = accepted
resend_answer (err e) = or_accepted (as_validation e) (
    if is e user_not_found
      || (is e already_verified || (is e resend_cooldown || is e resend_hourly_limit))
    then accepted
    else internal_error)

unfoldable pub me_answer : Result User → List Op
me_answer (ok u) = write_json 200 (me_response u.id u.email u.created_at)
me_answer (err e) = if is e profile_not_found then authentication_error else internal_error
