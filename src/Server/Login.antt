-- ===== src/Server/Login.antt =====
-- `Login` of the server, and `Authenticate` with its access token.
use Prim.Native.String.{◌++◌}
use frimo_messenger.Base.{
  ◌+◌, ◌-◌, ◌<◌, ◌≡◌, refl, sym, ap, ◌∙◌, subst, String, Bytes, true, none, find, ==-refl, arith,
}
use frimo_messenger.Errors.{ok, err, sentinel, session_cache_miss}
use frimo_messenger.Domain.{
  Uuid, Duration, Identity, LoginInput, LoginUser, TokenPair, Session, RefreshToken, SessionState,
}
use frimo_messenger.Config.{Config}
use frimo_messenger.Postgres.Schema.{Db, insert_session, insert_refresh_token}
use frimo_messenger.Postgres.Link.{Faults, no_faults}
use frimo_messenger.Postgres.Auth as Auth
use frimo_messenger.Postgres.Sessions.{create_session, get_session_state}
use frimo_messenger.Postgres.Sessions.Steps.{with_session}
use frimo_messenger.Redis
use frimo_messenger.Redis.Laws.{IsRedis, access_token-set_get}
use frimo_messenger.Security.Token.{hash_token}
use frimo_messenger.Service.Ports.{session_cache_update_failed}
use frimo_messenger.Service.Chain.{reported-pure}
use frimo_messenger.Service.Validation.{trim_space}
use frimo_messenger.Service.Flows.{
  normalize_email, login, open_session, authenticate, authenticate_uncached, is_active,
}
use frimo_messenger.Service.Login.{login-ok}
use frimo_messenger.Service.Opening.{Opens, session_at, open_session-ok}
use frimo_messenger.Server.{Environment, ports}
use frimo_messenger.Server.Registration.{generate_token-ok}

create_session-ok :
    (f : Faults) (session : Session) (token : RefreshToken) (db : Db) {db' : Db}
    → create_session f session token db ≡ (ok tt, db')
    → db' ≡ with_session session token db
unfolding create_session insert_session insert_refresh_token
create_session-ok f session token db h = ground arith

-- The state of a session that was just created.
state-created :
    (session : Session) (token : RefreshToken) (db : Db)
    → get_session_state no_faults session.id (with_session session token db)
      ≡ ok (record { revoked_at = none; expires_at = session.expires_at })
unfolding get_session_state find
state-created session token db = rw (==-refl session.id) refl

module _ {S : Type 0} (env : Environment S) (cfg : Config) where
  -- An access token of an active session, of which the cache says nothing, is let in.
  uncached_lets_in :
      (raw : String) (i : Identity) (db : Db) (s : S) (state : SessionState)
      → Redis.get_access_token env.client (hash_token env.sha256 raw) s ≡ (ok i, s)
      → Redis.get_session env.client i.session_id s ≡ (err (sentinel session_cache_miss), s)
      → get_session_state (env.link s) i.session_id db ≡ ok state
      → is_active state (env.clock s).0 ≡ true
      → (authenticate (ports env cfg) raw (db, s)).0 ≡ ok i
  unfolding authenticate authenticate_uncached
  uncached_lets_in raw i db s state token missed row active =
      rw (token, missed, row, active)
        (reported-pure (ports env cfg) session_cache_update_failed
          ((ports env cfg).set_session i.session_id true (state.expires_at - (env.clock s).0)
            (db, (env.clock s).1))
          i)

-- Redis answers every SET, and a GET does not change it.
module _ {S : Type 0} (env : Environment S) (cfg : Config) (redis : IsRedis env.client)
    (takes : (key value : String) (ttl : Duration) (w : S)
      → (w1 : S) × (env.client.set key value ttl w ≡ (ok tt, w1)))
    (reads : (key : String) (w : S) → (env.client.get key w).1 ≡ w) where
  stores :
      (hash : Bytes) (i : Identity) (ttl : Duration) (w : S)
      → (w1 : S) × (Redis.store_access_token env.client hash i ttl w ≡ (ok tt, w1))
  unfolding Redis.store_access_token
  stores hash i ttl w =
      let (w1, done) =
        takes (Redis.access_token_key_prefix ++ Redis.hex_encode hash)
          (Redis.identity_text env.client i) ttl w in
      (w1, rw done refl)

  reads_token : (hash : Bytes) (w : S) → (Redis.get_access_token env.client hash w).1 ≡ w
  unfolding Redis.get_access_token
  reads_token hash w = reads _ w

  reads_session : (id : Uuid) (w : S) → (Redis.get_session env.client id w).1 ≡ w
  unfolding Redis.get_session
  reads_session id w = reads _ w

  -- The session that a login opens in the state `s`.
  abbrev pub opened_at : S → Uuid
  opened_at s = (env.new_uuid (env.clock s).1).0

  -- An opened session lets its access token in.
  opened_lets_in :
      (input : LoginInput) (user : LoginUser) (device_name : String) (db db1 : Db) (s s1 : S)
      (pair : TokenPair)
      → Opens (ports env cfg) input user device_name (db, s) pair (db1, s1)
      → (Redis.get_session env.client (opened_at s) s1).0 ≡ err (sentinel session_cache_miss)
      → env.link s1 ≡ no_faults
      → (env.clock s1).0 < (env.clock s).0 + cfg.login.refresh_token_ttl
      → (authenticate (ports env cfg) pair.access_token (db1, s1)).0
        ≡ ok (record { user_id = user.id; session_id = opened_at s })
  opened_lets_in input user device_name db db1 s s1 pair o missed up soon =
      let i : Identity = record { user_id = user.id; session_id = opened_at s } in
      let (s3, stored) = stores o.access_hash i cfg.login.access_token_ttl o.inserted.1 in
      let hash =
        generate_token-ok env.sha256 env.read_random _ (ap (λ x. (x.0, x.1.1)) o.generates) in
      let created =
        create_session-ok (env.link o.generated.1)
          (session_at (ports env cfg) input user device_name (db, s)) o.token o.generated.0
          (ap (λ x. (x.0, x.1.0)) o.creates) in
      let after : (db1, s1) ≡ (o.inserted.0, s3) = o.after ∙ rw stored refl in
      let token : (Redis.get_access_token env.client (hash_token env.sha256 pair.access_token) s1).0
          ≡ ok i =
        rw (ap (λ x. x.1) after, sym hash)
          (access_token-set_get env.client redis o.access_hash i cfg.login.access_token_ttl _ s3
            stored) in
      uncached_lets_in env cfg pair.access_token i db1 s1
        (record { revoked_at = none; expires_at = (env.clock s).0 + cfg.login.refresh_token_ttl })
        (λ k. (token k, reads_token (hash_token env.sha256 pair.access_token) s1 k))
        (λ k. (missed k, reads_session (opened_at s) s1 k))
        (rw (up, ap (λ x. x.0) after, created)
          (state-created (session_at (ports env cfg) input user device_name (db, s)) o.token
            o.generated.0))
        (ground (arith, soon))

  -- Let Redis keep what it is given, take every write and be left alone by a read. After a `Login`
  -- that succeeded, `Authenticate` with its access token gives the identity of the user with that
  -- email in the session that was opened, if the database is up, the session cache says nothing of
  -- that session, and the session's time has not passed.
  pub login_lets_in :
      (input : LoginInput) (db db1 : Db) (s s1 : S) (pair : TokenPair)
      → login (ports env cfg) input (db, s) ≡ (ok pair, (db1, s1))
      → (Redis.get_session env.client (opened_at s) s1).0 ≡ err (sentinel session_cache_miss)
      → env.link s1 ≡ no_faults
      → (env.clock s1).0 < (env.clock s).0 + cfg.login.refresh_token_ttl
      → (user : LoginUser) × (Auth.get_user_for_login
            (env.link s)
            (normalize_email (ports env cfg) input.email)
            db
          ≡ ok user)
        × ((authenticate (ports env cfg) pair.access_token (db1, s1)).0
            ≡ ok (record { user_id = user.id; session_id = opened_at s }))
  login_lets_in input db db1 s s1 pair h missed up soon =
      let (user, w1, may, opened) = login-ok (ports env cfg) input (db, s) h in
      let device_name = trim_space input.device_name in
      let opens =
        open_session-ok (ports env cfg) input user device_name (db, s)
          (subst (λ w. open_session (ports env cfg) input user device_name w ≡ (ok pair, (db1, s1)))
            (sym (ap (λ x. x.1) may.found)) opened) in
      (
        user,
        ap (λ x. x.0) may.found,
        opened_lets_in input user device_name db db1 s s1 pair opens missed up soon,
      )
