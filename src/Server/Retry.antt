-- ===== src/Server/Retry.antt =====
-- `Refresh` of the server, asked twice: the second answer repeats the first.
use frimo_messenger.Base.{ℕ, String, Bytes, ◌<◌, ◌+◌, ◌≡◌, refl, ap, ◌∙◌, subst, arith}
use frimo_messenger.Errors.{Error, Result, ok}
use frimo_messenger.Domain.{Time, Identity, RefreshInput, TokenPair}
use frimo_messenger.Config.{Config}
use frimo_messenger.Postgres.Schema.{Db}
use frimo_messenger.Postgres.Link.{no_faults}
use frimo_messenger.Postgres.Sessions.{extended, retried, extend_session}
use frimo_messenger.Postgres.Sessions.Theft.{extend_session-retry}
use frimo_messenger.Redis
use frimo_messenger.Redis.Laws.{IsRedis, HasResult, result_read}
use frimo_messenger.Security.Token.{token_size, hash_token}
use frimo_messenger.Service.Flows.{refresh, after_extension, refresh_extended}
use frimo_messenger.Service.Sessions.{retried-answers}
use frimo_messenger.Service.Caches.{extended-answers}
use frimo_messenger.Server.Caches.{redis_ports_laws}
use frimo_messenger.Server.{Environment, ports}
use frimo_messenger.Server.Theft.{request_at, state_at, raw_token_of, refresh-read}

-- What the server calls beside Redis leaves what Redis has.
pub record IsApart {S : Type 0} (env : Environment S) (redis : IsRedis env.client) : Type 0 where
  pub reading :
      (key value : String) (end : Time) (n : ℕ) (s : S)
      → redis.Has key value end s
      → redis.Has key value end (env.read_random n s).1
  pub timing :
      (key value : String) (end : Time) (s : S)
      → redis.Has key value end s
      → redis.Has key value end (env.clock s).1
  pub naming :
      (key value : String) (end : Time) (s : S)
      → redis.Has key value end s
      → redis.Has key value end (env.new_uuid s).1
  pub logging :
      (key value : String) (end : Time) (m : String) (e : Error) (s : S)
      → redis.Has key value end s
      → redis.Has key value end (env.log_error m e s)

-- The tokens that are made of the bytes of the access token and of the refresh token.
abbrev pub pair_of : Bytes → Bytes → TokenPair
pair_of access_bytes refresh_bytes = record {
  access_token = raw_token_of access_bytes;
  refresh_token = raw_token_of refresh_bytes;
}

module _ {S : Type 0} (env : Environment S) (cfg : Config) (redis : IsRedis env.client)
    (apart : IsApart env redis) where
  extended_tables :
      (old_hash access_hash : Bytes) (pair : TokenPair) (i : Identity) (w : Db × S)
      → (refresh_extended (ports env cfg) old_hash access_hash pair i w).1.0 ≡ w.0
  unfolding refresh_extended
  extended_tables old_hash access_hash pair i w = ground arith

  -- What Redis has is still there after a refresh has read its random bytes.
  kept_before :
      (key value : String) (end : Time) (s s1 s2 : S) (a b : Result Bytes)
      → env.read_random token_size s ≡ (a, s1)
      → env.read_random token_size s1 ≡ (b, s2)
      → redis.Has key value end s
      → redis.Has key value end (state_at env cfg s2)
  kept_before key value end s s1 s2 a b first second has =
      apart.naming key value end (env.clock s2).1 (
        apart.timing key value end s2 (
          subst (redis.Has key value end) (ap (λ x. x.1) second) (
            apart.reading key value end token_size s1 (
              subst (redis.Has key value end) (ap (λ x. x.1) first)
                (apart.reading key value end token_size s has)))))

  -- A second refresh, whose answer is in the cache.
  repeats :
      (input : RefreshInput) (r a : Bytes) (db : Db) (s s1 s2 : S) (i : Identity) (pair : TokenPair)
      (end : Time)
      → env.read_random token_size s ≡ (ok r, s1)
      → env.read_random token_size s1 ≡ (ok a, s2)
      → env.link (state_at env cfg s2) ≡ no_faults
      → extend_session no_faults (request_at env cfg input r s2) db ≡ (retried i, db)
      → HasResult env.client redis (hash_token env.sha256 input.raw_refresh_token) pair end s
      → redis.time (state_at env cfg s2) < end
      → (refresh (ports env cfg) input (db, s)).0 ≡ ok pair
  unfolding after_extension
  repeats input r a db s s1 s2 i pair end h1 h2 up again (text, m, has) soon =
      let old = hash_token env.sha256 input.raw_refresh_token in
      let whole = refresh-read env cfg input r a db s s1 s2 h1 h2 in
      let kept =
        result_read env.client redis old pair end (state_at env cfg s2)
          (text, m, kept_before _ text end s s1 s2 (ok r) (ok a) h1 h2 has) soon in
      ap (λ x. x.0) whole
      ∙ rw (up, again) (retried-answers (ports env cfg) old i (db, state_at env cfg s2) pair kept)

  -- Let Redis keep what it is given for the time that it is given, and the rest of the server leave it
  -- alone. After a refresh that read its random bytes, for which the database rotated the token, and
  -- whose answer the cache took, the same operation asked again with the same token gets the same
  -- tokens as the first, if it reads its random bytes, the database is up, the session would still run,
  -- and, by the time of Redis, less than `RefreshRetryTTL` has passed since the call that stored
  -- the answer began.
  pub refresh_repeats :
      (input : RefreshInput) (r1 a1 r2 a2 : Bytes) (db db1 : Db) (s s1 s2 s3 t1 t2 : S)
      (i : Identity)
      → env.read_random token_size s ≡ (ok r1, s1)
      → env.read_random token_size s1 ≡ (ok a1, s2)
      → extend_session (env.link (state_at env cfg s2)) (request_at env cfg input r1 s2) db
        ≡ (extended i, db1)
      → Redis.store_refresh_result env.client
          (hash_token env.sha256 input.raw_refresh_token)
          (pair_of a1 r1)
          cfg.refresh_retry_ttl
          (state_at env cfg s2)
        ≡ (ok tt, s3)
      → env.read_random token_size (refresh (ports env cfg) input (db, s)).1.1 ≡ (ok r2, t1)
      → env.read_random token_size t1 ≡ (ok a2, t2)
      → env.link (state_at env cfg t2) ≡ no_faults
      → (env.clock t2).0 < (env.clock s2).0 + cfg.login.refresh_token_ttl
      → redis.time (state_at env cfg t2) < redis.time (state_at env cfg s2) + cfg.refresh_retry_ttl
      → ((refresh (ports env cfg) input (db, s)).0 ≡ ok (pair_of a1 r1))
        × ((refresh (ports env cfg) input (refresh (ports env cfg) input (db, s)).1).0
            ≡ ok (pair_of a1 r1))
  unfolding after_extension
  refresh_repeats input r1 a1 r2 a2 db db1 s s1 s2 s3 t1 t2 i h1 h2 rotated taken k1 k2 up soon
        early =
      let old = hash_token env.sha256 input.raw_refresh_token in
      let access = hash_token env.sha256 (raw_token_of a1) in
      let pair = pair_of a1 r1 in
      let whole : refresh (ports env cfg) input (db, s)
          ≡ refresh_extended (ports env cfg) old access pair i (db1, state_at env cfg s2) =
        refresh-read env cfg input r1 a1 db s s1 s2 h1 h2 ∙ rw rotated refl in
      let caches = redis_ports_laws env cfg redis apart.logging in
      let (answered, cached) =
        extended-answers (ports env cfg) (λ w. redis.time w.1) caches old access pair i
          (db1, state_at env cfg s2) (db1, s3) (rw taken refl) in
      let tables =
        ap (λ x. x.1.0) whole ∙ extended_tables old access pair i (db1, state_at env cfg s2) in
      let again =
        extend_session-retry (env.link (state_at env cfg s2)) (request_at env cfg input r1 s2)
          (request_at env cfg input r2 t2) db db1 i rotated refl refl soon in
      let first = refresh (ports env cfg) input (db, s) in
      (
        ap (λ x. x.0) whole ∙ answered,
        repeats input r2 a2 first.1.0 first.1.1 t1 t2 i pair
            (redis.time (state_at env cfg s2) + cfg.refresh_retry_ttl) k1 k2 up (rw tables again)
            (rw whole cached) early,
      )
