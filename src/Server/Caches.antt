-- ===== src/Server/Caches.antt =====
-- The three storages as the caches of the server's service.
use frimo_messenger.Base.{String, sym, ap}
use frimo_messenger.Errors.{Error}
use frimo_messenger.Domain.{Time}
use frimo_messenger.Config.{Config}
use frimo_messenger.Redis.{hex_encode}
use frimo_messenger.Redis.Keys.{
  refresh_differs-access, refresh_differs-session, session_differs-access, access_keys_differ,
}
use frimo_messenger.Redis.Laws.{
  IsRedis, HasToken, HasSession, HasResult, token_stored, token_read, session_stored, session_read,
  result_stored, result_read, has_beside_token, has_beside_session, has_beside_result,
}
use frimo_messenger.Logs.{observe}
use frimo_messenger.Service.Ports.{
  Observation, refresh_result_store_failed, access_token_store_failed, session_cache_update_failed,
  session_cache_read_failed,
}
use frimo_messenger.Service.Sessions.{IsCache}
use frimo_messenger.Service.Caches.{IsCaches}
use frimo_messenger.Server.{Environment, ports}
use frimo_messenger.Server.Theft.{ports-IsCache}

module _ {S : Type 0} (env : Environment S) (cfg : Config) (redis : IsRedis env.client)
    (logging : (key value : String) (end : Time) (m : String) (e : Error) (s : S)
      → redis.Has key value end s
      → redis.Has key value end (env.log_error m e s)) where
  -- Whatever the observer is told, it only logs.
  pub observe_keeps :
      (key value : String) (end : Time) (o : Observation) (s : S)
      → redis.Has key value end s
      → redis.Has key value end (observe env.log_error o s)
  observe_keeps key value end (refresh_result_store_failed e) s = logging key value end _ e s
  observe_keeps key value end (access_token_store_failed e) s = logging key value end _ e s
  observe_keeps key value end (session_cache_update_failed e) s = logging key value end _ e s
  observe_keeps key value end (session_cache_read_failed e) s = logging key value end _ e s

  abbrev pub redis_ports_laws : IsCaches (ports env cfg) (λ w. redis.time w.1)
  redis_ports_laws = record {
    HasToken = λ hash i end w. HasToken env.client redis hash i end w.1;
    HasSession = λ id active end w. HasSession env.client redis id active end w.1;
    HasResult = λ hash pair end w. HasResult env.client redis hash pair end w.1;
    token_stored = λ hash i ttl w w1 h.
        token_stored env.client redis hash i ttl w.1 w1.1 (ap (λ x. (x.0, x.1.1)) h);
    token_read = λ hash i end w. token_read env.client redis hash i end w.1;
    token_beside = λ hash other i j end ttl w small small' differ.
        has_beside_token env.client redis _ _ end other j ttl w.1
          (access_keys_differ hash other small small' differ);
    token_session = λ hash i end id active ttl w.
        has_beside_session env.client redis _ _ end id active ttl w.1
          (λ e. session_differs-access (env.client.uuid_text id) (hex_encode hash) (sym e));
    token_result = λ hash other i end pair ttl w.
        has_beside_result env.client redis _ _ end other pair ttl w.1
          (λ e. refresh_differs-access (hex_encode other) (hex_encode hash) (sym e));
    session_stored = λ id active ttl w w1 h.
        session_stored env.client redis id active ttl w.1 w1.1 (ap (λ x. (x.0, x.1.1)) h);
    session_read = λ id active end w. session_read env.client redis id active end w.1;
    session_token = λ id active end hash i ttl w.
        has_beside_token env.client redis _ _ end hash i ttl w.1
          (session_differs-access (env.client.uuid_text id) (hex_encode hash));
    session_result = λ id active end hash pair ttl w.
        has_beside_result env.client redis _ _ end hash pair ttl w.1
          (λ e. refresh_differs-session (hex_encode hash) (env.client.uuid_text id) (sym e));
    result_stored = λ hash pair ttl w w1 h.
        result_stored env.client redis hash pair ttl w.1 w1.1 (ap (λ x. (x.0, x.1.1)) h);
    result_read = λ hash pair end w. result_read env.client redis hash pair end w.1;
    result_token = λ hash other pair end i ttl w has.
        let (text, m, kept) = has in
        (
          text,
          m,
          has_beside_token env.client redis _ text end other i ttl w.1
              (refresh_differs-access (hex_encode hash) (hex_encode other)) kept,
        );
    result_session = λ hash pair end id active ttl w has.
        let (text, m, kept) = has in
        (
          text,
          m,
          has_beside_session env.client redis _ text end id active ttl w.1
              (refresh_differs-session (hex_encode hash) (env.client.uuid_text id)) kept,
        );
    result_observed = λ hash pair end o w has.
        let (text, m, kept) = has in (text, m, observe_keeps _ text end o w.1 kept);
  }

  -- Let Redis keep what it is given for the time that it is given, and the logger leave it alone. The
  -- storages of the server are the caches that the service relies on. The state of a session that was
  -- set is read right after. What was stored for an access token, for a session and for a refresh is
  -- read back until the time that it was stored with has passed since the call: an access token under
  -- a hash of bytes whatever the two other storages write and whichever tokens are stored under other
  -- such hashes, a session's state whatever the two other storages write, and a refresh's answer
  -- whatever these write and whatever the observer is told.
  pub redis_caches : IsCache (ports env cfg) × IsCaches (ports env cfg) (λ w. redis.time w.1)
  redis_caches = (ports-IsCache env cfg redis, redis_ports_laws)
