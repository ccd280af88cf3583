-- ===== src/Http.antt =====
-- internal/handler/httpapi: the requests that the API serves and the responses that it writes.
pub mod Writer
pub mod Middleware
pub mod Requests
pub mod Responses
pub mod Handlers
pub mod Routes
use frimo_messenger.Base.{ℕ, String, Option, List, [], ◌∷◌}
use frimo_messenger.Errors.{Error, Result}
use frimo_messenger.Domain.{
  Uuid, Time, User, Identity, TokenPair, LoginInput, RegistrationInput, RefreshInput,
}
use frimo_messenger.Service.Ports.{Call}

-- What the handlers read of an `http.Request`. A header or a query parameter that is not there is
-- the empty text; `body` is the text of the body.
pub record Request : Type 0 where
  pub method : String
  pub path : String
  pub authorization : String
  pub x_real_ip : String
  pub remote_addr : String
  pub token_parameter : String
  pub body : String

-- The values that are written as JSON.
pub data Body : Type 0 where
  error_response : String → String → Body
  token_response : String → String → Body
  register_response : Uuid → String → Body
  me_response : Uuid → String → Time → Body
  verify_email_response health_response : String → Body

-- A call on an `http.ResponseWriter`.
pub data Op : Type 0 where
  content_type : String → Op
  write_header : ℕ → Op
  write : Body → Op

-- The value of a panic: `http.ErrAbortHandler`, or another.
pub data Panic : Type 0 where
  abort_handler : Panic
  other_panic : String → Panic

pub data Exit : Type 0 where
  returned : Exit
  panicked : Panic → Exit

-- What a handler did: its calls on the writer, in order, how it ended, and the world that it left.
pub record Served (W : Type 0) : Type 0 where
  pub ops : List Op
  pub exit : Exit
  pub world : W

-- The request's context is an argument: the identity that a middleware put there.
abbrev pub Handler : Type 0 → Type 0
Handler W = Request → Option Identity → W → Served W

-- `AuthService` and `UserService`.
pub record Services (W : Type 0) : Type 0 where
  pub login : LoginInput → Call W TokenPair
  pub register : RegistrationInput → Call W User
  pub confirm_email : String → Call W (Unit {0})
  pub resend_verification : String → Call W (Unit {0})
  pub authenticate : String → Call W Identity
  pub refresh : RefreshInput → Call W TokenPair
  pub get_user_by_id : Uuid → Call W User

abbrev pub bad_request : ℕ
bad_request = 400

abbrev pub unauthorized : ℕ
unauthorized = 401

abbrev pub forbidden : ℕ
forbidden = 403

abbrev pub conflict : ℕ
conflict = 409

abbrev pub internal_server_error : ℕ
internal_server_error = 500

-- `writeJSON`: the marshalling of these values does not fail.
abbrev pub write_json : ℕ → Body → List Op
write_json status value = content_type "application/json" ∷ write_header status ∷ write value ∷ []

-- `writeError`, and `respondError`, which logs an error of it.
abbrev pub write_error : ℕ → String → String → List Op
write_error status code message = write_json status (error_response code message)

abbrev pub internal_error : List Op
internal_error = write_error internal_server_error "internal_error" "internal server error"

abbrev pub authentication_error : List Op
authentication_error = write_error unauthorized "authentication_error" "authentication failed"
