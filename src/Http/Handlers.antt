-- ===== src/Http/Handlers.antt =====
-- register.go, login.go, refresh.go, verify_email.go, resend_verification.go, me.go, health.go: the
-- handlers.
pub mod Answers
pub mod Guard
use Prim.Native.String.{len}
use frimo_messenger.Base.{
  ℕ, ◌*◌, String, Bool, true, false, ◌||◌, Option, none, some, List, [], ◌∷◌, ◌++◌, str_eq, ltb,
  ◌==◌, if◌then◌else◌,
}
use frimo_messenger.Errors.{
  Error, plain, Result, ok, err, is, ValidationError, as_validation, invalid_credentials,
  email_not_verified, email_already_exists, user_not_found, already_verified, resend_cooldown,
  resend_hourly_limit, invalid_token, expired_token, used_token, revoked_token, session_inactive,
  refresh_token_reuse, refresh_retry_unavailable, profile_not_found,
}
use frimo_messenger.Domain.{Uuid, Address, User, Identity, TokenPair}
use frimo_messenger.Http.{
  Request, Op, write_header, Body, token_response, register_response, me_response,
  verify_email_response, health_response, returned, Served, Handler, Services, bad_request,
  unauthorized, forbidden, conflict, write_json, write_error, internal_error, authentication_error,
}
use frimo_messenger.Http.Requests.{
  RegisterRequest, LoginRequest, RefreshRequest, Decoders, RequestError, validate_register,
  validate_refresh, Decoded, request, refused, decode_json,
}
use frimo_messenger.Http.Responses.{
  request_error, invalid_request, register_answer, login_answer, refresh_answer,
  verify_email_answer, resend_answer, me_answer,
}

-- `http.MaxBytesReader` of 16 KiB.
abbrev pub max_register_body_size : ℕ
max_register_body_size = 16 * 1024

abbrev limited {ℓ} : {A : Type ℓ} → String → Result A → Result A
limited body decoded =
    if ltb max_register_body_size (len body)
    then err (plain "http: request body too large")
    else decoded

-- The zero address where neither can be parsed, which is only logged.
abbrev or_zero : Option Address → Address
or_zero none = ""
or_zero (some a) = a

module _ {W : Type 0} (services : Services W) (decoders : Decoders) where
  abbrev answered : {A : Type 0} → (Result A → List Op) → Result A × W → Served W
  answered answer (r, w) = record { ops = answer r; exit = returned; world = w }

  abbrev served : List Op → W → Served W
  served ops w = record { ops = ops; exit = returned; world = w }

  abbrev client_ip : Request → Address
  client_ip r =
      if str_eq r.x_real_ip ""
      then or_zero (decoders.parse_addr_port r.remote_addr)
      else or_zero (decoders.parse_addr r.x_real_ip)

  abbrev registered : Decoded RegisterRequest → W → Served W
  registered (refused e) w = served invalid_request w
  registered (request r) w =
      answered register_answer
        (services.register (record { email = r.email; password = r.password }) w)

  unfoldable pub register_user : Handler W
  unfolding register_answer
  register_user r identity w =
      registered
        (decode_json validate_register (limited r.body (decoders.unmarshal_register r.body))) w

  abbrev logged_in : Address → Result LoginRequest → W → Served W
  logged_in ip (err e) w = served invalid_request w
  logged_in ip (ok r) w = answered login_answer (
      services.login
        (record { email = r.email; password = r.password; ip = ip; device_name = r.device_name }) w)

  unfoldable pub login : Handler W
  unfolding login_answer
  login r identity w = logged_in (client_ip r) (decoders.unmarshal_login r.body) w

  abbrev pub refreshed : Decoded RefreshRequest → W → Served W
  refreshed (refused e) w = served (request_error e) w
  refreshed (request r) w = answered refresh_answer (
      services.refresh
        (record { operation_id = r.operation_id; raw_refresh_token = r.refresh_token }) w)

  unfoldable pub refresh : Handler W
  unfolding refresh_answer
  refresh r identity w =
      refreshed (decode_json validate_refresh (decoders.unmarshal_refresh r.body)) w

  unfoldable pub verify_email : Handler W
  unfolding verify_email_answer
  verify_email r identity w =
      if str_eq r.token_parameter ""
      then served
          (write_error bad_request "verification_token_required" "verification token is required") w
      else answered verify_email_answer (services.confirm_email r.token_parameter w)

  abbrev resent : Result String → W → Served W
  resent (err e) w = served invalid_request w
  resent (ok email) w = answered resend_answer (services.resend_verification email w)

  unfoldable pub resend_verification_token : Handler W
  unfolding resend_answer
  resend_verification_token r identity w = resent (decoders.unmarshal_resend r.body) w

  unfoldable pub me : Handler W
  unfolding me_answer
  me r none w = served internal_error w
  me r (some identity) w = answered me_answer (services.get_user_by_id identity.user_id w)

  unfoldable pub health : Handler W
  health r identity w = served (write_json 200 (health_response "ok")) w
