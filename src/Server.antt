-- ===== src/Server.antt =====
-- cmd/server/main.go: the service over PostgreSQL, Redis, the password hashes, the tokens and the
-- cipher, with the configuration's lifetimes.
pub mod Worker
pub mod Mail
pub mod Registration
pub mod Journey
pub mod Theft
pub mod Login
pub mod Web
pub mod Refresh
pub mod Verify
pub mod Caches
pub mod Retry
pub mod Silence
use frimo_messenger.Base.{ℕ, String, Bytes, Option, none, some, ◌∷◌}
use frimo_messenger.Errors.{Error, Result, ok, err}
use frimo_messenger.Domain.{Uuid, Time, Identity}
use frimo_messenger.Config.{Config}
use frimo_messenger.Postgres.Schema.{Db}
use frimo_messenger.Postgres.Link.{Faults}
use frimo_messenger.Postgres.Auth as Auth
use frimo_messenger.Postgres.Sessions.{
  Extension, extended, retried, reused, failed, error_of, create_session, get_session_state,
  extend_session,
}
use frimo_messenger.Redis
use frimo_messenger.Redis.{Client}
use frimo_messenger.Security.Cipher.{Aead, encrypt}
use frimo_messenger.Security.Token.{generate_token, hash_token}
use frimo_messenger.Security.Argon2.{Kdf, hash_password, verify_password}
use frimo_messenger.Service.Ports.{Call, Ports}
use frimo_messenger.Logs.{observe}

-- What the server calls that is not of this repository, on a state `S` beside the tables: Redis, the
-- random source, the clock, `uuid.New`, the hash functions, the cipher that NewCipher has made, the
-- logger, the bytes of a UUID and of a text, the parser of addresses, and the lower case of Go and of the
-- database. `link` tells the faults of the calls of PostgreSQL.
pub record Environment (S : Type 0) : Type 0 where
  pub client : Client S
  pub read_random : ℕ → Call S Bytes
  pub clock : S → Time × S
  pub new_uuid : S → Uuid × S
  pub link : S → Faults
  pub sha256 : String → Bytes
  pub id_key : Kdf
  pub aead : Aead
  pub log_error : String → Error → S → S
  pub uuid_bytes : Uuid → Bytes
  pub text_bytes : String → Bytes
  pub parse_address : String → Option String
  pub to_lower : String → String
  pub lower : String → String

-- The identity that stands beside the error of `ExtendSession`.
abbrev pub identity_of : Extension → Identity
identity_of (extended i) = i
identity_of (retried i) = i
identity_of (reused i) = i
identity_of (failed e) = record { user_id = 0; session_id = 0 }

module _ {S : Type 0} (env : Environment S) where
  -- A call that reads or changes the tables, and one that does not.
  abbrev on_tables {ℓ} : {A : Type ℓ} → (Faults → Db → A × Db) → Db × S → A × (Db × S)
  on_tables f (db, s) = let (r, db') = f (env.link s) db in (r, (db', s))

  abbrev beside {ℓ} : {A : Type ℓ} → (S → A × S) → Db × S → A × (Db × S)
  beside f (db, s) = let (r, s') = f s in (r, (db, s'))

  abbrev extension : Extension × (Db × S) → (Identity × Option Error) × (Db × S)
  extension (e, w) = ((identity_of e, error_of e), w)

  -- The arguments of `auth.NewService` in `main`.
  abbrev pub ports : Config → Ports (Db × S)
  ports cfg = record {
    get_user_for_login = λ email w. (Auth.get_user_for_login (env.link w.1) email w.0, w);
    create_user = λ input. on_tables (λ f. Auth.create_user env.lower f input);
    confirm_email = λ hash now. on_tables (λ f. Auth.confirm_email f hash now);
    resend_verification = λ input. on_tables (λ f. Auth.resend_verification f input);
    create_session = λ session token. on_tables (λ f. create_session f session token);
    get_session_state = λ id w. (get_session_state (env.link w.1) id w.0, w);
    extend_session = λ input w. extension (on_tables (λ f. extend_session f input) w);
    store_access_token = λ hash i ttl. beside (Redis.store_access_token env.client hash i ttl);
    get_access_token = λ hash. beside (Redis.get_access_token env.client hash);
    set_session = λ id active ttl. beside (Redis.set_session env.client id active ttl);
    get_session = λ id. beside (Redis.get_session env.client id);
    store_refresh_result =
        λ hash pair ttl. beside (Redis.store_refresh_result env.client hash pair ttl);
    get_refresh_result = λ hash. beside (Redis.get_refresh_result env.client hash);
    observe = λ o w. (w.0, observe env.log_error o w.1);
    hash_password = λ password. beside (hash_password env.id_key env.read_random password);
    verify_password = verify_password env.id_key;
    generate_token = beside (generate_token env.sha256 env.read_random);
    hash_token = hash_token env.sha256;
    encrypt = λ token id.
        beside (encrypt env.aead env.read_random (env.text_bytes token) (env.uuid_bytes id));
    now = beside env.clock;
    new_uuid = beside env.new_uuid;
    parse_address = env.parse_address;
    to_lower = env.to_lower;
    verification_token_lifetime = cfg.verification_token_lifetime;
    access_token_lifetime = cfg.login.access_token_ttl;
    session_inactivity_timeout = cfg.login.refresh_token_ttl;
    refresh_retry_ttl = cfg.refresh_retry_ttl;
  }
