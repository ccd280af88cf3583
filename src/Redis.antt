-- ===== src/Redis.antt =====
-- internal/adapter/repository/redis: the access tokens, the state of the sessions and the answers of
-- refreshes, as texts under keys of one Redis.
pub mod Keys
pub mod Laws
use Prim.Native.String.{◌++◌}
use Prim.Native.Char.{Char, code}
use frimo_messenger.Base.{
  ℕ, ◌/◌, ◌%◌, String, Bool, Bytes, [], ◌∷◌, Option, none, some, ◌==◌, if◌then◌else◌,
}
use frimo_messenger.Errors.{
  Error, sentinel, plain, wrap, is, Result, ok, err, redis_nil, access_token_invalid,
  session_cache_miss, refresh_result_not_found, ◌>>=◌, context,
}
use frimo_messenger.Domain.{Uuid, Duration, Identity, TokenPair}
use frimo_messenger.Service.Ports.{Call}

-- What the storages call: SET and GET of go-redis, with the text that it writes for a Boolean and
-- how it reads one, the text of a UUID and its parser, and the JSON of a token pair.
pub record Client (W : Type 0) : Type 0 where
  pub set : String → String → Duration → Call W (Unit {0})
  pub get : String → Call W String
  pub bool_text : Bool → String
  pub parse_bool : String → Result Bool
  pub uuid_text : Uuid → String
  pub parse_uuid : String → Result Uuid
  pub marshal : TokenPair → Result String
  pub unmarshal : String → Result TokenPair

-- A digit of `hex.EncodeToString`.
abbrev pub hex_digit : ℕ → Char
hex_digit n =
    if n == 0
    then "0"
    else if n == 1
    then "1"
    else if n == 2
    then "2"
    else if n == 3
    then "3"
    else if n == 4
    then "4"
    else if n == 5
    then "5"
    else if n == 6
    then "6"
    else if n == 7
    then "7"
    else if n == 8
    then "8"
    else if n == 9
    then "9"
    else if n == 10
    then "a"
    else if n == 11
    then "b"
    else if n == 12
    then "c"
    else if n == 13
    then "d"
    else if n == 14
    then "e"
    else "f"

-- `hex.EncodeToString`.
unfoldable pub hex_encode : Bytes → String
hex_encode [] = ""
hex_encode (b ∷ bs) =
    String.◌∷◌ (hex_digit (b / 16)) (String.◌∷◌ (hex_digit (b % 16)) (hex_encode bs))

abbrev pub access_token_key_prefix : String
access_token_key_prefix = "auth:access:"

abbrev pub session_key_prefix : String
session_key_prefix = "auth:session:"

abbrev pub refresh_result_key_prefix : String
refresh_result_key_prefix = "auth:refresh-result:"

-- `strings.Cut(value, ":")`.
unfoldable pub cut : String → Option (String × String)
cut String.[] = none
cut (String.◌∷◌ c s) =
    let rest = cut s in
    if code c == b':'
    then some ("", s)
    else elim rest [ none ↦ none | some (a, b) ↦ some (String.◌∷◌ c a, b) ]

abbrev pub wrapped : {W : Type 0} → String → Result (Unit {0}) × W → Result (Unit {0}) × W
wrapped m (r, w) = (context m r, w)

module _ {W : Type 0} (c : Client W) where
  -- `errors.Is(err, redis.Nil)`, and any other error is wrapped.
  abbrev missing : Error → String → Result String → Result String
  missing e m (ok v) = ok v
  missing e m (err f) = if is f redis_nil then err e else err (wrap m f)

  -- AccessTokenStorage

  unfoldable pub identity_text : Identity → String
  identity_text i = c.uuid_text i.user_id ++ (":" ++ c.uuid_text i.session_id)

  abbrev pub parse_parts : Option (String × String) → Result Identity
  parse_parts none = err (plain "invalid credentials format")
  parse_parts (some (raw_user_id, raw_session_id)) = do
    user_id ← context "failed to parse access token user ID" (c.parse_uuid raw_user_id)
    session_id ← context "failed to parse access token session ID" (c.parse_uuid raw_session_id)
    ok (record { user_id = user_id; session_id = session_id })

  unfoldable pub store_access_token : Bytes → Identity → Duration → Call W (Unit {0})
  unfolding identity_text
  store_access_token token_hash identity ttl w =
      wrapped "failed to set access token"
        (c.set (access_token_key_prefix ++ hex_encode token_hash) (identity_text identity) ttl w)

  unfoldable pub get_access_token : Bytes → Call W Identity
  get_access_token token_hash w =
      let (r, w1) = c.get (access_token_key_prefix ++ hex_encode token_hash) w in
      (
        (do
          value ← missing (sentinel access_token_invalid) "failed to get credentials" r
          parse_parts (cut value)),
        w1,
      )

  -- SessionStorage

  unfoldable pub set_session : Uuid → Bool → Duration → Call W (Unit {0})
  set_session session_id is_active ttl w =
      wrapped "failed to set session"
        (c.set (session_key_prefix ++ c.uuid_text session_id) (c.bool_text is_active) ttl w)

  abbrev session_state : Result Bool → Result Bool
  session_state (ok b) = ok b
  session_state (err e) =
      if is e redis_nil
      then err (sentinel session_cache_miss)
      else err (wrap "failed to get session" e)

  unfoldable pub get_session : Uuid → Call W Bool
  get_session session_id w =
      let (r, w1) = c.get (session_key_prefix ++ c.uuid_text session_id) w in
      (session_state (do value ← r; c.parse_bool value), w1)

  -- RefreshResultStorage

  abbrev pub stored : Bytes → Result String → Duration → Call W (Unit {0})
  stored hash (err e) ttl w = (err (wrap "failed to serialize refresh result to JSON" e), w)
  stored hash (ok value) ttl w =
      wrapped "failed to store refresh result"
        (c.set (refresh_result_key_prefix ++ hex_encode hash) value ttl w)

  unfoldable pub store_refresh_result : Bytes → TokenPair → Duration → Call W (Unit {0})
  store_refresh_result old_refresh_token_hash pair ttl =
      stored old_refresh_token_hash (c.marshal pair) ttl

  unfoldable pub get_refresh_result : Bytes → Call W TokenPair
  get_refresh_result old_refresh_token_hash w =
      let (r, w1) = c.get (refresh_result_key_prefix ++ hex_encode old_refresh_token_hash) w in
      (
        (do
          value ← missing (sentinel refresh_result_not_found) "failed to get refresh result" r
          context "failed to deserialize refresh result" (c.unmarshal value)),
        w1,
      )
