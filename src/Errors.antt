-- ===== src/Errors.antt =====
-- Errors: Go's `error` values as the program builds and inspects them.
-- internal/service/auth/errors.go, internal/service/auth/delivery.go, internal/outbox/errors.go,
-- internal/outbox/processor.go, internal/service/user/errors.go, internal/security/token/errors.go.
use frimo_messenger.Base.{
  ◌≡◌, ◌⊎◌, inl, inr, refl, ℕ, String, Bool, false, ◌||◌, Option, none, some, ◌==◌,
}

-- The values made by `errors.New` at package level, which `errors.Is` compares by identity. The
-- last two lines are those of internal/security/token, of jwt and of net/http, the line before them
-- those of context, of pgx and of go-redis.
pub data Sentinel : Type 0 where
  invalid_credentials email_not_verified email_already_exists : Sentinel
  user_not_found already_verified resend_cooldown resend_hourly_limit : Sentinel
  invalid_token expired_token used_token revoked_token : Sentinel
  access_token_invalid : Sentinel
  session_not_found session_cache_miss session_inactive : Sentinel
  refresh_token_not_found refresh_token_reuse refresh_retry : Sentinel
  refresh_result_not_found refresh_retry_unavailable : Sentinel
  delivery_not_found delivery_inactive : Sentinel
  non_retryable lease_lost no_events : Sentinel
  profile_not_found : Sentinel
  canceled deadline_exceeded no_rows redis_nil : Sentinel
  jwt_invalid jwt_expired : Sentinel
  token_is_expired http_server_closed : Sentinel

-- The identity of a sentinel.
abbrev tag : Sentinel → ℕ
tag invalid_credentials = 0
tag email_not_verified = 1
tag email_already_exists = 2
tag user_not_found = 3
tag already_verified = 4
tag resend_cooldown = 5
tag resend_hourly_limit = 6
tag invalid_token = 7
tag expired_token = 8
tag used_token = 9
tag revoked_token = 10
tag access_token_invalid = 11
tag session_not_found = 12
tag session_cache_miss = 13
tag session_inactive = 14
tag refresh_token_not_found = 15
tag refresh_token_reuse = 16
tag refresh_retry = 17
tag refresh_result_not_found = 18
tag refresh_retry_unavailable = 19
tag delivery_not_found = 20
tag delivery_inactive = 21
tag non_retryable = 22
tag lease_lost = 23
tag no_events = 24
tag profile_not_found = 25
tag canceled = 26
tag deadline_exceeded = 27
tag no_rows = 28
tag redis_nil = 29
tag jwt_invalid = 30
tag jwt_expired = 31
tag token_is_expired = 32
tag http_server_closed = 33

-- `auth.ValidationError`.
pub record ValidationError : Type 0 where
  pub code : String
  pub field : String
  pub message : String

-- `plain` is an error that no sentinel stands behind, `pg` is a `*pgconn.PgError` with its code
-- and constraint, `wrap` is `fmt.Errorf` with `%w`, `join` is `errors.Join`.
pub data Error : Type 0 where
  sentinel : Sentinel → Error
  validation : ValidationError → Error
  pg : String → String → Error
  plain : String → Error
  wrap : String → Error → Error
  join : Error → Error → Error

-- `errors.Is`.
abbrev pub is : Error → Sentinel → Bool
is (sentinel t) s = tag t == tag s
is (validation v) s = false
is (pg c n) s = false
is (plain m) s = false
is (wrap m e) s = is e s
is (join e f) s = is e s || is f s

-- The first of two searches that succeeds.
abbrev or_else {ℓ} : {A : Type ℓ} → Option A → Option A → Option A
or_else (some a) o = some a
or_else none o = o

-- `errors.As` at `*auth.ValidationError`.
abbrev pub as_validation : Error → Option ValidationError
as_validation (sentinel t) = none
as_validation (validation v) = some v
as_validation (pg c n) = none
as_validation (plain m) = none
as_validation (wrap m e) = as_validation e
as_validation (join e f) = or_else (as_validation e) (as_validation f)

-- `errors.As` at `*pgconn.PgError`: the code and the constraint.
abbrev pub as_pg : Error → Option (String × String)
as_pg (sentinel t) = none
as_pg (validation v) = none
as_pg (pg c n) = some (c, n)
as_pg (plain m) = none
as_pg (wrap m e) = as_pg e
as_pg (join e f) = or_else (as_pg e) (as_pg f)

-- The two results of a Go function that returns `(T, error)`, of which one is read.
pub data Result {ℓ} (A : Type ℓ) : Type ℓ where
  ok : A → Result A
  err : Error → Result A

infixl 5 ◌>>=◌
abbrev pub ◌>>=◌ {ℓ κ} : {A : Type ℓ} {B : Type κ} → Result A → (A → Result B) → Result B
ok a >>= f = f a
err e >>= f = err e

-- `if err != nil { return fmt.Errorf("m: %w", err) }`.
abbrev pub context {ℓ} : {A : Type ℓ} → String → Result A → Result A
context m (ok a) = ok a
context m (err e) = err (wrap m e)

pub Result-cases {ℓ} :
    {A : Type ℓ} (r : Result A) → ((a : A) × (r ≡ ok a)) ⊎ ((e : Error) × (r ≡ err e))
Result-cases (ok a) = inl (a, refl)
Result-cases (err e) = inr (e, refl)
