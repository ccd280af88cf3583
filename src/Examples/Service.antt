-- ===== src/Examples/Service.antt =====
-- service.go over small caches and one user.
use Prim.Native.String.{len, count as rune_count}
use frimo_messenger.Base.{
  ℕ, ◌+◌, ◌*◌, ◌≤◌, ◌≡◌, ◌≢◌, ◌↔◌, refl, String, Bool, true, Option, some, none, [], ◌∷◌, Bytes,
  bytes_eq, ◌==◌, str_eq, if◌then◌else◌,
}
use frimo_messenger.Errors.{
  Error, Result, ok, err, sentinel, invalid_credentials, user_not_found, refresh_token_reuse,
  session_cache_miss, refresh_result_not_found,
}
use frimo_messenger.Domain.{Uuid, LoginInput, LoginUser, TokenPair, Identity, hour, minute}
use frimo_messenger.Service.Ports.{Ports}
use frimo_messenger.Service.Flows.{
  normalize_email, authenticate, find_login_user, open_session, login,
}
use frimo_messenger.Service.Validation.{
  trim_space, validate_email, validate_password, validate_device_name, validation_exact,
}
use frimo_messenger.Service.Login.{MayLogin, login-ok}
use frimo_messenger.Service.Sessions.{IsLetIn, authenticate-ok}

-- The two caches that are read back, a counter for the clock, identifiers and tokens, and the texts
-- of a Redis.
pub record World : Type 0 where
  pub session : Uuid → Option Bool
  pub answer : Bytes → Option TokenPair
  pub tick : ℕ
  pub texts : String → Option String

abbrev or_error {ℓ} : {A : Type ℓ} → Error → Option A → Result A
or_error e none = err e
or_error e (some a) = ok a

abbrev held : Identity
held = record { user_id = 1; session_id = 10 }

abbrev pub ports : Ports World
ports = record {
  get_user_for_login = λ email w. (
    if str_eq email "ann@example.org"
        then ok (record { id = 1; password_hash = "secret password"; verified_at = some 5 })
        else err (sentinel user_not_found),
    w,
  );
  create_user = λ input w.
      (ok (record { id = input.id; email = input.email; created_at = input.created_at }), w);
  confirm_email = λ hash now w. (ok tt, w);
  resend_verification = λ input w. (ok tt, w);
  create_session = λ session token w. (ok tt, w);
  get_session_state = λ id w. (ok (record { revoked_at = none; expires_at = hour }), w);
  extend_session = λ input w. ((held, some (sentinel refresh_token_reuse)), w);
  store_access_token = λ hash identity ttl w. (ok tt, w);
  get_access_token = λ hash w. (ok held, w);
  set_session = λ id active ttl w.
      (ok tt, record w { session = λ k. if k == id then some active else w.session k });
  get_session = λ id w. (or_error (sentinel session_cache_miss) (w.session id), w);
  store_refresh_result = λ hash pair ttl w.
      (ok tt, record w { answer = λ k. if bytes_eq k hash then some pair else w.answer k });
  get_refresh_result = λ hash w. (or_error (sentinel refresh_result_not_found) (w.answer hash), w);
  observe = λ o w. w;
  hash_password = λ password w. (ok password, w);
  verify_password =
      λ hash password. if str_eq hash password then ok tt else err (sentinel invalid_credentials);
  generate_token = λ w. (ok ("token", 1 ∷ []), w);
  hash_token = λ token. 2 ∷ [];
  encrypt = λ token id w. (ok [], w);
  now = λ w. (w.tick, record w { tick = w.tick + 1 });
  new_uuid = λ w. (w.tick, record w { tick = w.tick + 1 });
  parse_address = λ s. some s;
  to_lower = λ s. s;
  verification_token_lifetime = hour;
  access_token_lifetime = 15 * minute;
  session_inactivity_timeout = hour;
  refresh_retry_ttl = minute;
}

abbrev pub start : World
start = record { session = λ k. none; answer = λ k. none; tick = 100; texts = λ k. none }

-- The cache after the session 10 was set.
abbrev pub set_to : Bool → World
set_to active = (ports.set_session 10 active hour start).1

abbrev pub pair : TokenPair
pair = record { access_token = "access"; refresh_token = "refresh" }

lets_in : authenticate ports "access" (set_to true) ≡ (ok held, set_to true)
unfolding authenticate
lets_in = refl

authenticate-ok_example : (w1 : World) × IsLetIn ports "access" (set_to true) held w1
authenticate-ok_example = authenticate-ok ports "access" (set_to true) lets_in

abbrev ann_login : String → LoginInput
ann_login password = record {
  email = " ann@example.org ";
  password = password;
  ip = "192.0.2.1";
  device_name = "laptop";
}

abbrev logged_in : World
logged_in = (login ports (ann_login "secret password") start).1

logs_in :
    login ports (ann_login "secret password") start
    ≡ (ok (record { access_token = "token"; refresh_token = "token" }), logged_in)
unfolding login normalize_email trim_space validate_email validate_password validate_device_name
    find_login_user open_session
logs_in = refl

login-ok_example :
    (user : LoginUser) × (w1 : World) × MayLogin ports (ann_login "secret password") start user w1
    × (open_session ports (ann_login "secret password") user (trim_space "laptop") w1
        ≡ (ok (record { access_token = "token"; refresh_token = "token" }), logged_in))
login-ok_example = login-ok ports (ann_login "secret password") start logs_in

abbrev pub ann_row : LoginUser
ann_row = record { id = 1; password_hash = "secret password"; verified_at = some 5 }

pub valid_inputs :
    (validate_email ports.parse_address (normalize_email ports " ann@example.org ") ≡ ok tt)
    × (validate_password "another password" ≡ ok tt)
    × (ports.get_user_for_login (normalize_email ports " ann@example.org ") start
        ≡ (ok ann_row, start))
unfolding normalize_email trim_space validate_email validate_password
valid_inputs = (refl, refl, refl)

abbrev short : String
short = "a@b"

validation_exact_example :
    ((validate_email (λ s. some s) short ≡ ok tt)
      ↔ ((short ≢ "") × (len short ≤ 254) × ((some short) ≡ some short)))
    × ((validate_password "laptop" ≡ ok tt)
        ↔ ((12 ≤ rune_count "laptop") × (rune_count "laptop" ≤ 128)))
    × ((validate_device_name "laptop" ≡ ok tt)
        ↔ ((3 ≤ rune_count "laptop") × (rune_count "laptop" ≤ 64)))
validation_exact_example = validation_exact (λ s. some s) short "laptop"
