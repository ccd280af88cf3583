-- ===== src/Redis/Laws.antt =====
-- What the three storages promise over a Redis that keeps what it is given for the time that it is
-- given.
use Prim.Native.String.{◌++◌}
use frimo_messenger.Base.{◌+◌, ◌<◌, ◌≡◌, ◌≢◌, refl, String, Bool, Bytes}
use frimo_messenger.Errors.{Result, ok, err}
use frimo_messenger.Domain.{Uuid, Time, Duration, Identity, TokenPair}
use frimo_messenger.Redis.{
  Client, wrapped, stored, hex_encode, identity_text, store_access_token, get_access_token,
  set_session, get_session, store_refresh_result, get_refresh_result, access_token_key_prefix,
  session_key_prefix, refresh_result_key_prefix,
}
use frimo_messenger.Redis.Keys.{NoColon, cut-colon}

-- What Redis, its client and the codecs promise. GET right after SET finds what was written. `Has` says
-- that Redis has a text under a key, which does not expire before a time: a SET that succeeded makes it
-- so for the time that it is given, a SET of another key leaves it so, and GET before that time, by
-- the server's clock `time`, finds the text. A Boolean, a UUID and a token pair are read back from
-- their texts; the text of a UUID has no colon.
pub record IsRedis {W : Type 0} (c : Client W) : Type 1 where
  pub time : W → Time
  pub Has : String → String → Time → W → Type 0
  pub set_get :
      (key value : String) (ttl : Duration) (w w1 : W)
      → c.set key value ttl w ≡ (ok tt, w1)
      → (c.get key w1).0 ≡ ok value
  pub set_has :
      (key value : String) (ttl : Duration) (w w1 : W)
      → c.set key value ttl w ≡ (ok tt, w1)
      → Has key value (time w + ttl) w1
  pub set_other :
      (key value other text : String) (end : Time) (ttl : Duration) (w : W)
      → key ≢ other
      → Has key value end w
      → Has key value end (c.set other text ttl w).1
  pub get_has :
      (key value : String) (end : Time) (w : W)
      → Has key value end w
      → time w < end
      → (c.get key w).0 ≡ ok value
  pub bool_text : (b : Bool) → c.parse_bool (c.bool_text b) ≡ ok b
  pub uuid_text : (u : Uuid) → c.parse_uuid (c.uuid_text u) ≡ ok u
  pub uuid_colon : (u : Uuid) → NoColon (c.uuid_text u)
  pub json :
      (pair : TokenPair) (text : String) → c.marshal pair ≡ ok text → c.unmarshal text ≡ ok pair

module _ {W : Type 0} (c : Client W) (redis : IsRedis c) where
  -- A SET that the storage reports as done was done.
  wrapped-ok :
      (m : String) (r : Result (Unit {0}) × W) {w1 : W}
      → wrapped m r ≡ (ok tt, w1)
      → r ≡ (ok tt, w1)
  wrapped-ok m (ok x, w) h = h
  wrapped-ok m (err e, w) h = cc

  -- The entries of the three storages.

  abbrev pub HasToken : Bytes → Identity → Time → W → Type 0
  HasToken hash i = redis.Has (access_token_key_prefix ++ hex_encode hash) (identity_text c i)

  abbrev pub HasSession : Uuid → Bool → Time → W → Type 0
  HasSession id active = redis.Has (session_key_prefix ++ c.uuid_text id) (c.bool_text active)

  abbrev pub HasResult : Bytes → TokenPair → Time → W → Type 0
  HasResult hash pair end w =
      (text : String) × (c.marshal pair ≡ ok text)
      × redis.Has (refresh_result_key_prefix ++ hex_encode hash) text end w

  -- An access token's text under its key, and what is read there.

  token_found :
      (hash : Bytes) (i : Identity) (w : W)
      → (c.get (access_token_key_prefix ++ hex_encode hash) w).0 ≡ ok (identity_text c i)
      → (get_access_token c hash w).0 ≡ ok i
  unfolding get_access_token identity_text
  token_found hash i w found =
      rw
        (
          found,
          cut-colon (c.uuid_text i.user_id) (c.uuid_text i.session_id) (redis.uuid_colon i.user_id),
          redis.uuid_text i.user_id,
          redis.uuid_text i.session_id,
        )
        refl

  pub access_token-set_get :
      (hash : Bytes) (i : Identity) (ttl : Duration) (w w1 : W)
      → store_access_token c hash i ttl w ≡ (ok tt, w1)
      → (get_access_token c hash w1).0 ≡ ok i
  unfolding store_access_token
  access_token-set_get hash i ttl w w1 h =
      token_found hash i w1 (redis.set_get _ _ ttl w w1 (wrapped-ok _ _ h))

  pub token_stored :
      (hash : Bytes) (i : Identity) (ttl : Duration) (w w1 : W)
      → store_access_token c hash i ttl w ≡ (ok tt, w1)
      → HasToken hash i (redis.time w + ttl) w1
  unfolding store_access_token
  token_stored hash i ttl w w1 h = redis.set_has _ _ ttl w w1 (wrapped-ok _ _ h)

  pub token_read :
      (hash : Bytes) (i : Identity) (end : Time) (w : W)
      → HasToken hash i end w
      → redis.time w < end
      → (get_access_token c hash w).0 ≡ ok i
  token_read hash i end w has soon = token_found hash i w (redis.get_has _ _ end w has soon)

  -- The state of a session.

  session_found :
      (id : Uuid) (active : Bool) (w : W)
      → (c.get (session_key_prefix ++ c.uuid_text id) w).0 ≡ ok (c.bool_text active)
      → (get_session c id w).0 ≡ ok active
  unfolding get_session
  session_found id active w found = rw (found, redis.bool_text active) refl

  pub session-set_get :
      (id : Uuid) (active : Bool) (ttl : Duration) (w w1 : W)
      → set_session c id active ttl w ≡ (ok tt, w1)
      → (get_session c id w1).0 ≡ ok active
  unfolding set_session
  session-set_get id active ttl w w1 h =
      session_found id active w1 (redis.set_get _ _ ttl w w1 (wrapped-ok _ _ h))

  pub session_stored :
      (id : Uuid) (active : Bool) (ttl : Duration) (w w1 : W)
      → set_session c id active ttl w ≡ (ok tt, w1)
      → HasSession id active (redis.time w + ttl) w1
  unfolding set_session
  session_stored id active ttl w w1 h = redis.set_has _ _ ttl w w1 (wrapped-ok _ _ h)

  pub session_read :
      (id : Uuid) (active : Bool) (end : Time) (w : W)
      → HasSession id active end w
      → redis.time w < end
      → (get_session c id w).0 ≡ ok active
  session_read id active end w has soon =
      session_found id active w (redis.get_has _ _ end w has soon)

  -- The answer of a refresh.

  result_stored_as :
      (hash : Bytes) (pair : TokenPair) (ttl : Duration) (w w1 : W) (text : Result String)
      → c.marshal pair ≡ text
      → stored c hash text ttl w ≡ (ok tt, w1)
      → HasResult hash pair (redis.time w + ttl) w1
  result_stored_as hash pair ttl w w1 (ok text) m h =
      (text, m, redis.set_has _ _ ttl w w1 (wrapped-ok _ _ h))
  result_stored_as hash pair ttl w w1 (err e) m h = cc

  pub result_stored :
      (hash : Bytes) (pair : TokenPair) (ttl : Duration) (w w1 : W)
      → store_refresh_result c hash pair ttl w ≡ (ok tt, w1)
      → HasResult hash pair (redis.time w + ttl) w1
  unfolding store_refresh_result
  result_stored hash pair ttl w w1 h = result_stored_as hash pair ttl w w1 (c.marshal pair) refl h

  pub result_read :
      (hash : Bytes) (pair : TokenPair) (end : Time) (w : W)
      → HasResult hash pair end w
      → redis.time w < end
      → (get_refresh_result c hash w).0 ≡ ok pair
  unfolding get_refresh_result
  result_read hash pair end w (text, m, has) soon =
      rw (redis.get_has _ _ end w has soon, redis.json pair text m) refl

  -- A write of one storage leaves what Redis has under any other key.

  module _ (key value : String) (end : Time) where
    pub has_beside_token :
        (hash : Bytes) (i : Identity) (ttl : Duration) (w : W)
        → key ≢ access_token_key_prefix ++ hex_encode hash
        → redis.Has key value end w
        → redis.Has key value end (store_access_token c hash i ttl w).1
    unfolding store_access_token
    has_beside_token hash i ttl w differ has = redis.set_other _ _ _ _ end ttl w differ has

    pub has_beside_session :
        (id : Uuid) (active : Bool) (ttl : Duration) (w : W)
        → key ≢ session_key_prefix ++ c.uuid_text id
        → redis.Has key value end w
        → redis.Has key value end (set_session c id active ttl w).1
    unfolding set_session
    has_beside_session id active ttl w differ has = redis.set_other _ _ _ _ end ttl w differ has

    has_beside_stored :
        (hash : Bytes) (text : Result String) (ttl : Duration) (w : W)
        → key ≢ refresh_result_key_prefix ++ hex_encode hash
        → redis.Has key value end w
        → redis.Has key value end (stored c hash text ttl w).1
    has_beside_stored hash (ok text) ttl w differ has = redis.set_other _ _ _ _ end ttl w differ has
    has_beside_stored hash (err e) ttl w differ has = has

    pub has_beside_result :
        (hash : Bytes) (pair : TokenPair) (ttl : Duration) (w : W)
        → key ≢ refresh_result_key_prefix ++ hex_encode hash
        → redis.Has key value end w
        → redis.Has key value end (store_refresh_result c hash pair ttl w).1
    unfolding store_refresh_result
    has_beside_result hash pair ttl w differ has =
        has_beside_stored hash (c.marshal pair) ttl w differ has
