-- ===== src/Service/Flows.antt =====
-- service.go: the operations, each a sequence of calls that ends at the first error.
use frimo_messenger.Base.{
  ◌+◌, ◌-◌, ◌*◌, String, Bool, true, false, ◌&&◌, Option, none, some, Bytes, str_eq, is_null, ltb,
  if◌then◌else◌,
}
use frimo_messenger.Errors.{
  Error, sentinel, wrap, is, Result, ok, err, invalid_credentials, email_not_verified,
  user_not_found, invalid_token, session_cache_miss, session_inactive, refresh_retry,
  refresh_token_reuse, refresh_result_not_found, refresh_retry_unavailable,
}
use frimo_messenger.Domain.{
  Time, minute, User, RegistrationInput, LoginInput, RefreshInput, TokenPair, Identity, requested,
  Event, email_verification_requested_type, VerificationInput, LoginUser, SessionState,
}
use frimo_messenger.Service.Ports.{
  Call, Ports, pure, fail, lift, reading, wrapping, observed, ◌>>=◌, ◌>>◌,
  refresh_result_store_failed, access_token_store_failed, session_cache_update_failed,
  session_cache_read_failed,
}
use frimo_messenger.Service.Validation.{
  trim_space, validate_email, validate_password, validate_device_name,
}

-- What `Login` makes of a lookup's and of a password check's result.
abbrev pub login_user : Result LoginUser → Result LoginUser
login_user (ok u) = ok u
login_user (err e) =
    if is e user_not_found
    then err (sentinel invalid_credentials)
    else err (wrap "failed get user for login" e)

abbrev pub verified : Result (Unit {0}) → Result (Unit {0})
verified (ok x) = ok x
verified (err e) = if is e invalid_credentials then err e else err (wrap "failed verify password" e)

-- What `Authenticate` reads off the row of a session.
abbrev pub is_active : SessionState → Time → Bool
is_active state now = is_null state.revoked_at && ltb now state.expires_at

module _ {W : Type 0} (p : Ports W) where
  unfoldable pub normalize_email : String → String
  normalize_email email = p.to_lower (trim_space email)

  -- Authenticate

  -- After the cache gave no answer: the database decides, and the cache is told.
  unfoldable pub authenticate_uncached : Identity → Call W Identity
  authenticate_uncached identity = do
    state ← wrapping "failed to get session state" (p.get_session_state identity.session_id)
    now ← reading p.now
    observed p session_cache_update_failed (
        p.set_session identity.session_id (is_active state now)
          (if is_active state now then state.expires_at - now else 5 * minute))
    if is_active state now then pure identity else fail (sentinel session_inactive)

  -- What `GetSession` answered.
  abbrev pub with_cache : Identity → Result Bool × W → Result Identity × W
  with_cache identity (ok active, w) =
      if active then (ok identity, w) else (err (sentinel session_inactive), w)
  with_cache identity (err e, w) =
      authenticate_uncached identity
        (if is e session_cache_miss then w else p.observe (session_cache_read_failed e) w)

  unfoldable pub authenticate : String → Call W Identity
  unfolding authenticate_uncached
  authenticate raw_access_token = do
    identity ←
        wrapping "failed to authenticate" (p.get_access_token (p.hash_token raw_access_token))
    λ w. with_cache identity (p.get_session identity.session_id w)

  -- Refresh

  unfoldable pub refresh_retried : Bytes → Identity → Call W TokenPair
  refresh_retried old_hash identity = do
    pair ← λ w.
        (let (r, w1) = p.get_refresh_result old_hash w in
          (
            elim r [
              | ok t ↦ ok t
              | err e ↦
                  if is e refresh_result_not_found
                  then err (sentinel refresh_retry_unavailable)
                  else err (wrap "failed to get refresh result" e)
            ],
            w1,
          ))
    observed p access_token_store_failed
        (p.store_access_token (p.hash_token pair.access_token) identity p.access_token_lifetime)
    pure pair

  unfoldable pub refresh_reused : Identity → Call W TokenPair
  refresh_reused identity = do
    observed p session_cache_update_failed
        (p.set_session identity.session_id false p.session_inactivity_timeout)
    fail (wrap "failed to extend session" (sentinel refresh_token_reuse))

  unfoldable pub refresh_extended : Bytes → Bytes → TokenPair → Identity → Call W TokenPair
  refresh_extended old_hash access_hash pair identity = do
    observed p refresh_result_store_failed
        (p.store_refresh_result old_hash pair p.refresh_retry_ttl)
    observed p access_token_store_failed
        (p.store_access_token access_hash identity p.access_token_lifetime)
    observed p session_cache_update_failed
        (p.set_session identity.session_id true p.session_inactivity_timeout)
    pure pair

  -- The `switch` on what `ExtendSession` returned.
  unfoldable pub after_extension :
      Bytes → Bytes → TokenPair → (Identity × Option Error) × W → Result TokenPair × W
  unfolding refresh_retried refresh_reused refresh_extended
  after_extension old_hash access_hash pair ((identity, none), w) =
      refresh_extended old_hash access_hash pair identity w
  after_extension old_hash access_hash pair ((identity, some e), w) =
      if is e refresh_retry
      then refresh_retried old_hash identity w
      else if is e refresh_token_reuse
      then refresh_reused identity w
      else (err (wrap "failed to extend session" e), w)

  unfoldable pub refresh : RefreshInput → Call W TokenPair
  unfolding after_extension
  refresh input = do
    let old_hash = p.hash_token input.raw_refresh_token
    (raw_refresh_token, refresh_hash) ← wrapping "failed generate refresh token" p.generate_token
    (raw_access_token, access_hash) ← wrapping "failed generate access token" p.generate_token
    now ← reading p.now
    token_id ← reading p.new_uuid
    λ w.
        after_extension old_hash access_hash
          (record { access_token = raw_access_token; refresh_token = raw_refresh_token })
          (p.extend_session
            (record {
              operation_id = input.operation_id;
              old_refresh_token_hash = old_hash;
              new_refresh_token = record {
                id = token_id;
                token_hash = refresh_hash;
                created_at = now;
              };
              session_lifetime = p.session_inactivity_timeout;
            })
            w)

  -- Login

  unfoldable pub find_login_user : String → Call W LoginUser
  find_login_user email w = let (r, w1) = p.get_user_for_login email w in (login_user r, w1)

  -- The session for a user who may log in.
  unfoldable pub open_session : LoginInput → LoginUser → String → Call W TokenPair
  open_session input user device_name = do
    now ← reading p.now
    session_id ← reading p.new_uuid
    (raw_refresh_token, refresh_hash) ← wrapping "failed generate refresh token" p.generate_token
    token_id ← reading p.new_uuid
    (raw_access_token, access_hash) ← wrapping "failed generate access token" p.generate_token
    wrapping "failed create session" (
        p.create_session
          (record {
            id = session_id;
            user_id = user.id;
            device_name = device_name;
            created_ip = input.ip;
            last_ip = input.ip;
            created_at = now;
            last_seen_at = now;
            expires_at = now + p.session_inactivity_timeout;
          })
          (record { id = token_id; token_hash = refresh_hash; created_at = now }))
    observed p access_token_store_failed (
        p.store_access_token access_hash (record { user_id = user.id; session_id = session_id })
          p.access_token_lifetime)
    pure (record { access_token = raw_access_token; refresh_token = raw_refresh_token })

  unfoldable pub login : LoginInput → Call W TokenPair
  unfolding normalize_email find_login_user open_session
  login input = do
    lift (validate_email p.parse_address (normalize_email input.email))
    lift (validate_password input.password)
    user ← find_login_user (normalize_email input.email)
    lift (verified (p.verify_password user.password_hash input.password))
    lift (if is_null user.verified_at then err (sentinel email_not_verified) else ok (tt {0}))
    lift (validate_device_name (trim_space input.device_name))
    open_session input user (trim_space input.device_name)

  -- Register, ConfirmEmail, ResendVerification

  unfoldable pub generate_verification_input : Time → Call W VerificationInput
  generate_verification_input now = do
    (raw_token, token_hash) ← wrapping "generate verification token" p.generate_token
    verification_id ← reading p.new_uuid
    ciphertext ← wrapping "encrypt verification token" (p.encrypt raw_token verification_id)
    pure (record {
      id = verification_id;
      token_hash = token_hash;
      token_ciphertext = ciphertext;
      expires_at = now + p.verification_token_lifetime;
    })

  -- `json.Marshal` of this structure does not fail.
  unfoldable pub prepare_email_verification : String → Time → Call W (VerificationInput × Event)
  unfolding generate_verification_input
  prepare_email_verification email now = do
    verification ← generate_verification_input now
    event_id ← reading p.new_uuid
    pure (
      verification,
      record {
        id = event_id;
        event_type = email_verification_requested_type;
        payload = requested verification.id email;
        created_at = now;
        available_at = now;
        attempts = 0;
      },
    )

  unfoldable pub register : RegistrationInput → Call W User
  unfolding normalize_email prepare_email_verification
  register input = do
    lift (validate_email p.parse_address (normalize_email input.email))
    lift (validate_password input.password)
    password_hash ← wrapping "hash password" (p.hash_password input.password)
    now ← reading p.now
    user_id ← reading p.new_uuid
    (verification, event) ← prepare_email_verification (normalize_email input.email) now
    p.create_user (record {
      id = user_id;
      email = normalize_email input.email;
      password_hash = password_hash;
      created_at = now;
      verification = verification;
      outbox_event = event;
    })

  unfoldable pub confirm_email : String → Call W (Unit {0})
  confirm_email raw_token w =
      if str_eq raw_token ""
      then (err (sentinel invalid_token), w)
      else (let (now, w1) = p.now w in p.confirm_email (p.hash_token raw_token) now w1)

  unfoldable pub resend_verification : String → Call W (Unit {0})
  unfolding normalize_email prepare_email_verification
  resend_verification email = do
    lift (validate_email p.parse_address (normalize_email email))
    now ← reading p.now
    (verification, event) ← prepare_email_verification (normalize_email email) now
    p.resend_verification (record {
      email = normalize_email email;
      requested_at = now;
      verification = verification;
      outbox_event = event;
    })
