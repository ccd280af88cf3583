-- ===== src/Service/Ports.antt =====
-- What the service calls: the interfaces of internal/service/auth (repository.go,
-- cache_repository.go, observer.go, the first lines of service.go), the clock, `uuid.New`, and two
-- functions of the standard library. Each acts on a world `W`, which holds all that lies behind it.
use frimo_messenger.Base.{String, Bool, Option, Bytes}
use frimo_messenger.Errors.{Error, wrap, Result, ok, err}
use frimo_messenger.Domain.{
  Uuid, Time, Duration, User, Identity, TokenPair, CreateUserInput, ResendVerificationInput,
  LoginUser, Session, RefreshToken, SessionState, ExtendSessionInput,
}

-- A call that may fail.
abbrev pub Call : Type 0 → Type 0 → Type 0
Call W A = W → Result A × W

-- `auth.Observer`: the method that was called, with its error.
pub data Observation : Type 0 where
  refresh_result_store_failed access_token_store_failed : Error → Observation
  session_cache_update_failed session_cache_read_failed : Error → Observation

-- `auth.Service`. `encrypt` gets the token and the identifier whose bytes are encrypted and bound.
-- `parse_address` is the address in what `mail.ParseAddress` accepts, `to_lower` is
-- `strings.ToLower`.
pub record Ports (W : Type 0) : Type 0 where
  pub get_user_for_login : String → Call W LoginUser
  pub create_user : CreateUserInput → Call W User
  pub confirm_email : Bytes → Time → Call W (Unit {0})
  pub resend_verification : ResendVerificationInput → Call W (Unit {0})
  pub create_session : Session → RefreshToken → Call W (Unit {0})
  pub get_session_state : Uuid → Call W SessionState
  pub extend_session : ExtendSessionInput → W → (Identity × Option Error) × W
  pub store_access_token : Bytes → Identity → Duration → Call W (Unit {0})
  pub get_access_token : Bytes → Call W Identity
  pub set_session : Uuid → Bool → Duration → Call W (Unit {0})
  pub get_session : Uuid → Call W Bool
  pub store_refresh_result : Bytes → TokenPair → Duration → Call W (Unit {0})
  pub get_refresh_result : Bytes → Call W TokenPair
  pub observe : Observation → W → W
  pub hash_password : String → Call W String
  pub verify_password : String → String → Result (Unit {0})
  pub generate_token : Call W (String × Bytes)
  pub hash_token : String → Bytes
  pub encrypt : String → Uuid → Call W Bytes
  pub now : W → Time × W
  pub new_uuid : W → Uuid × W
  pub parse_address : String → Option String
  pub to_lower : String → String
  pub verification_token_lifetime : Duration
  pub access_token_lifetime : Duration
  pub session_inactivity_timeout : Duration
  pub refresh_retry_ttl : Duration

module _ {W A : Type 0} where
  abbrev pub pure : A → Call W A
  pure a w = (ok a, w)

  abbrev pub fail : Error → Call W A
  fail e w = (err e, w)

  -- A result that does not touch the world.
  abbrev pub lift : Result A → Call W A
  lift r w = (r, w)

  -- A read that cannot fail, of the clock or of a new identifier.
  abbrev pub reading : (W → A × W) → Call W A
  reading m w = let (a, w') = m w in (ok a, w')

  -- `if err != nil { return fmt.Errorf("m: %w", err) }`.
  abbrev pub with_text : String → Result A × W → Result A × W
  with_text m (ok a, w) = (ok a, w)
  with_text m (err e, w) = (err (wrap m e), w)

  abbrev pub wrapping : String → Call W A → Call W A
  wrapping m c w = with_text m (c w)

module _ {W A B : Type 0} where
  abbrev pub continue : Result A × W → (A → Call W B) → Result B × W
  continue (ok a, w) f = f a w
  continue (err e, w) f = (err e, w)

  infixl 5 ◌>>=◌ ◌>>◌
  abbrev pub ◌>>=◌ : Call W A → (A → Call W B) → Call W B
  ◌>>=◌ m f w = continue (m w) f

  abbrev pub ◌>>◌ : Call W A → Call W B → Call W B
  m >> n = m >>= λ _. n

module _ {W : Type 0} (p : Ports W) where
  abbrev pub report : (Error → Observation) → Result (Unit {0}) × W → Result (Unit {0}) × W
  report o (ok x, w) = (ok x, w)
  report o (err e, w) = (ok tt, p.observe (o e) w)

  -- `if err := call; err != nil { s.observer.Method(ctx, err) }`: the flow goes on.
  abbrev pub observed : (Error → Observation) → Call W (Unit {0}) → Call W (Unit {0})
  observed o c w = report o (c w)
