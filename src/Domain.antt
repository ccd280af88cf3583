-- ===== src/Domain.antt =====
-- The data that the components hand to one another: internal/service/auth/service.go (inputs and
-- results), repository.go, cache_repository.go and delivery.go beside it, internal/outbox/event.go
-- and internal/dto/email_verification_requested.go.
use frimo_messenger.Base.{ℕ, ◌*◌, String, Option, Bytes}

-- A UUID as the number that its 16 bytes spell; `uuid.Nil()` is 0.
abbrev pub Uuid : Type 0
Uuid = ℕ

-- A `time.Time` after 1970 in nanoseconds, and a `time.Duration` that is not negative.
abbrev pub Time : Type 0
Time = ℕ

abbrev pub Duration : Type 0
Duration = ℕ

abbrev pub second : Duration
second = 1_000_000_000

abbrev pub minute : Duration
minute = 60 * second

abbrev pub hour : Duration
hour = 60 * minute

-- A `netip.Addr` in its printed form; the zero value is the empty text.
abbrev pub Address : Type 0
Address = String

pub record User : Type 0 where
  pub id : Uuid
  pub email : String
  pub created_at : Time

pub record RegistrationInput : Type 0 where
  pub email : String
  pub password : String

pub record LoginInput : Type 0 where
  pub email : String
  pub password : String
  pub ip : Address
  pub device_name : String

pub record RefreshInput : Type 0 where
  pub operation_id : Uuid
  pub raw_refresh_token : String

pub record TokenPair : Type 0 where
  pub access_token : String
  pub refresh_token : String

pub record Identity : Type 0 where
  pub user_id : Uuid
  pub session_id : Uuid

-- The JSON object of an outbox event: what `json.Marshal` makes of
-- `dto.EmailVerificationRequested`, the `{}` that a processed event is left with, or one whose
-- fields `json.Unmarshal` refuses.
pub data Payload : Type 0 where
  requested : Uuid → String → Payload
  empty_object : Payload
  mistyped : String → Payload

abbrev pub email_verification_requested_type : String
email_verification_requested_type = "email.verification.requested"

pub record Event : Type 0 where
  pub id : Uuid
  pub event_type : String
  pub payload : Payload
  pub created_at : Time
  pub available_at : Time
  pub attempts : ℕ

pub record VerificationInput : Type 0 where
  pub id : Uuid
  pub token_hash : Bytes
  pub token_ciphertext : Bytes
  pub expires_at : Time

pub record CreateUserInput : Type 0 where
  pub id : Uuid
  pub email : String
  pub password_hash : String
  pub created_at : Time
  pub verification : VerificationInput
  pub outbox_event : Event

pub record ResendVerificationInput : Type 0 where
  pub email : String
  pub requested_at : Time
  pub verification : VerificationInput
  pub outbox_event : Event

pub record LoginUser : Type 0 where
  pub id : Uuid
  pub password_hash : String
  pub verified_at : Option Time

pub record Session : Type 0 where
  pub id : Uuid
  pub user_id : Uuid
  pub device_name : String
  pub created_ip : Address
  pub last_ip : Address
  pub created_at : Time
  pub last_seen_at : Time
  pub expires_at : Time

pub record RefreshToken : Type 0 where
  pub id : Uuid
  pub token_hash : Bytes
  pub created_at : Time

pub record SessionState : Type 0 where
  pub revoked_at : Option Time
  pub expires_at : Time

pub record ExtendSessionInput : Type 0 where
  pub operation_id : Uuid
  pub old_refresh_token_hash : Bytes
  pub new_refresh_token : RefreshToken
  pub session_lifetime : Duration

pub record DeliveryData : Type 0 where
  pub id : Uuid
  pub token_ciphertext : Bytes
  pub expires_at : Time
