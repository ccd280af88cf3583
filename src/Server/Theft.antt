-- ===== src/Server/Theft.antt =====
-- `Refresh` of the server with a token that was used before: over PostgreSQL and Redis, the session
-- is revoked and its access tokens are refused.
use frimo_messenger.Base.{ℕ, String, Bytes, true, false, ◌≡◌, refl, ap, some, is_null}
use frimo_messenger.Errors.{Result, ok, err, sentinel, refresh_token_reuse, session_inactive}
use frimo_messenger.Domain.{Identity, RefreshInput, ExtendSessionInput}
use frimo_messenger.Config.{Config}
use frimo_messenger.Postgres.Schema.{Db, SessionRow, RefreshTokenRow}
use frimo_messenger.Postgres.Link.{no_faults}
use frimo_messenger.Postgres.Sessions.{is_inactive, same_request}
use frimo_messenger.Postgres.Sessions.Rotation.{Selects, identity_of, revoked}
use frimo_messenger.Postgres.Sessions.Theft.{reuse_revokes}
use frimo_messenger.Redis
use frimo_messenger.Redis.Laws.{IsRedis, session-set_get}
use frimo_messenger.Security.Base64.{encode, url_alphabet}
use frimo_messenger.Security.Token.{token_size, generate_token, hash_token}
use frimo_messenger.Service.Flows.{authenticate, refresh, after_extension}
use frimo_messenger.Service.Sessions.{IsCache, is_refused, reuse_locks_out}
use frimo_messenger.Server.{Environment, ports}

-- The token that `Generate` makes of random bytes.
abbrev pub raw_token_of : Bytes → String
raw_token_of bytes = encode url_alphabet bytes

generate_token-read :
    {W : Type 0} (sha256 : String → Bytes) (read_random : ℕ → W → Result Bytes × W) (bytes : Bytes)
    (w w1 : W)
    → read_random token_size w ≡ (ok bytes, w1)
    → generate_token sha256 read_random w
      ≡ (ok (raw_token_of bytes, hash_token sha256 (raw_token_of bytes)), w1)
unfolding generate_token
generate_token-read sha256 read_random bytes w w1 h = rw h refl

module _ {S : Type 0} (env : Environment S) (cfg : Config) where
  -- What `Refresh` asks of `ExtendSession` after it has read the random bytes, in the state `s`.
  abbrev pub request_at : RefreshInput → Bytes → S → ExtendSessionInput
  request_at input refresh_bytes s = record {
    operation_id = input.operation_id;
    old_refresh_token_hash = hash_token env.sha256 input.raw_refresh_token;
    new_refresh_token = record {
      id = (env.new_uuid (env.clock s).1).0;
      token_hash = hash_token env.sha256 (raw_token_of refresh_bytes);
      created_at = (env.clock s).0;
    };
    session_lifetime = cfg.login.refresh_token_ttl;
  }

  -- The state in which it asks.
  abbrev pub state_at : S → S
  state_at s = (env.new_uuid (env.clock s).1).1

  pub refresh-read :
      (input : RefreshInput) (refresh_bytes access_bytes : Bytes) (db : Db) (s s1 s2 : S)
      → env.read_random token_size s ≡ (ok refresh_bytes, s1)
      → env.read_random token_size s1 ≡ (ok access_bytes, s2)
      → refresh (ports env cfg) input (db, s)
        ≡ after_extension
            (ports env cfg)
            (hash_token env.sha256 input.raw_refresh_token)
            (hash_token env.sha256 (raw_token_of access_bytes))
            (record {
              access_token = raw_token_of access_bytes;
              refresh_token = raw_token_of refresh_bytes;
            })
            ((ports env cfg).extend_session (request_at input refresh_bytes s2) (db, state_at s2))
  unfolding refresh
  refresh-read input refresh_bytes access_bytes db s s1 s2 a b =
      rw
        (
          generate_token-read env.sha256 env.read_random refresh_bytes s s1 a,
          generate_token-read env.sha256 env.read_random access_bytes s1 s2 b,
        )
        refl

  pub reuse_extends :
      (input : RefreshInput) (refresh_bytes : Bytes) (db : Db) (s : S) (t : RefreshTokenRow)
      (row : SessionRow)
      → Selects (request_at input refresh_bytes s) db t row
      → is_inactive row (env.clock s).0 ≡ false
      → is_null t.used_at ≡ false
      → same_request t.request_id input.operation_id ≡ false
      → env.link (state_at s) ≡ no_faults
      → (ports env cfg).extend_session (request_at input refresh_bytes s) (db, state_at s) ≡ (
        (identity_of t row, some (sentinel refresh_token_reuse)),
        (revoked (request_at input refresh_bytes s) t db, state_at s),
      )
  reuse_extends input refresh_bytes db s t row found running used other up =
      rw (up, reuse_revokes (request_at input refresh_bytes s) db t row found running used other)
        refl

module _ {S : Type 0} (env : Environment S) (cfg : Config) (redis : IsRedis env.client) where
  pub ports-IsCache : IsCache (ports env cfg)
  ports-IsCache = record {
    set_get = λ id active ttl w w1 h.
        session-set_get env.client redis id active ttl w.1 w1.1 (ap (λ x. (x.0, x.1.1)) h);
  }

  -- Let Redis keep what it is given, the random bytes be read and the database be up. A refresh
  -- with a token that another operation has used, while its session runs, is answered by
  -- `ErrRefreshTokenReuse`, and leaves the session revoked in its table and inactive in the
  -- cache, if the cache takes that write; then an access token that Redis has for the session is
  -- refused with `ErrSessionInactive`.
  pub stolen_token_locks_out :
      (input : RefreshInput) (refresh_bytes access_bytes : Bytes) (db : Db) (s s1 s2 s3 : S)
      (t : RefreshTokenRow) (row : SessionRow) (raw_access_token : String) (held : Identity)
      → env.read_random token_size s ≡ (ok refresh_bytes, s1)
      → env.read_random token_size s1 ≡ (ok access_bytes, s2)
      → Selects (request_at env cfg input refresh_bytes s2) db t row
      → is_inactive row (env.clock s2).0 ≡ false
      → is_null t.used_at ≡ false
      → same_request t.request_id input.operation_id ≡ false
      → env.link (state_at env cfg s2) ≡ no_faults
      → Redis.set_session env.client t.session_id false cfg.login.refresh_token_ttl
          (state_at env cfg s2)
        ≡ (ok tt, s3)
      → Redis.get_access_token env.client (hash_token env.sha256 raw_access_token) s3
        ≡ (ok held, s3)
      → held.session_id ≡ t.session_id
      → let after = refresh (ports env cfg) input (db, s) in
        (is_refused after.0 refresh_token_reuse ≡ true)
        × (after.1 ≡ (revoked (request_at env cfg input refresh_bytes s2) t db, s3))
        × ((authenticate (ports env cfg) raw_access_token after.1).0
            ≡ err (sentinel session_inactive))
  stolen_token_locks_out input refresh_bytes access_bytes db s s1 s2 s3 t row raw held a b found
        running used other up cached got same =
      let tables = revoked (request_at env cfg input refresh_bytes s2) t db in
      let (refused, after, locked) =
        reuse_locks_out (ports env cfg) ports-IsCache
          (hash_token env.sha256 input.raw_refresh_token)
          (hash_token env.sha256 (raw_token_of access_bytes))
          (record {
            access_token = raw_token_of access_bytes;
            refresh_token = raw_token_of refresh_bytes;
          })
          (identity_of t row) (sentinel refresh_token_reuse) (tables, state_at env cfg s2)
          (tables, s3) refl refl (rw cached refl) raw held (rw got refl) same in
      let whole = refresh-read env cfg input refresh_bytes access_bytes db s s1 s2 a b in
      let extends =
        reuse_extends env cfg input refresh_bytes db s2 t row found running used other up in
      rw (whole, extends, after) (refused, refl, locked)
