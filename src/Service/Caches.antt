-- ===== src/Service/Caches.antt =====
-- internal/service/auth/cache_repository.go: what the caches promise to the service, where an entry
-- lives for the time that it was stored with; and a refresh over them.
use frimo_messenger.Base.{◌+◌, ◌<◌, ◌≡◌, ◌≢◌, refl, ◌∙◌, Bool, true, Bytes, IsBytes}
use frimo_messenger.Errors.{Error, Result, ok, err}
use frimo_messenger.Domain.{Uuid, Time, Duration, Identity, TokenPair}
use frimo_messenger.Service.Ports.{
  Ports, Observation, report, pure, access_token_store_failed, session_cache_update_failed,
}
use frimo_messenger.Service.Chain.{reported-goes_on}
use frimo_messenger.Service.Flows.{refresh_extended}

-- The three caches, by the time of their server. `HasToken`, `HasSession` and `HasResult` say that a
-- cache has an entry which does not expire before a time: it is had from a write that succeeded, it is
-- what is read before that time, and no write of another entry and no report takes it away.
pub record IsCaches {W : Type 0} (p : Ports W) (time : W → Time) : Type 1 where
  pub HasToken : Bytes → Identity → Time → W → Type 0
  pub HasSession : Uuid → Bool → Time → W → Type 0
  pub HasResult : Bytes → TokenPair → Time → W → Type 0
  pub token_stored :
      (hash : Bytes) (i : Identity) (ttl : Duration) (w w1 : W)
      → p.store_access_token hash i ttl w ≡ (ok tt, w1)
      → HasToken hash i (time w + ttl) w1
  pub token_read :
      (hash : Bytes) (i : Identity) (end : Time) (w : W)
      → HasToken hash i end w
      → time w < end
      → (p.get_access_token hash w).0 ≡ ok i
  pub token_beside :
      (hash other : Bytes) (i j : Identity) (end : Time) (ttl : Duration) (w : W)
      → IsBytes hash
      → IsBytes other
      → hash ≢ other
      → HasToken hash i end w
      → HasToken hash i end (p.store_access_token other j ttl w).1
  pub token_session :
      (hash : Bytes) (i : Identity) (end : Time) (id : Uuid) (active : Bool) (ttl : Duration)
      (w : W)
      → HasToken hash i end w
      → HasToken hash i end (p.set_session id active ttl w).1
  pub token_result :
      (hash other : Bytes) (i : Identity) (end : Time) (pair : TokenPair) (ttl : Duration) (w : W)
      → HasToken hash i end w
      → HasToken hash i end (p.store_refresh_result other pair ttl w).1
  pub session_stored :
      (id : Uuid) (active : Bool) (ttl : Duration) (w w1 : W)
      → p.set_session id active ttl w ≡ (ok tt, w1)
      → HasSession id active (time w + ttl) w1
  pub session_read :
      (id : Uuid) (active : Bool) (end : Time) (w : W)
      → HasSession id active end w
      → time w < end
      → (p.get_session id w).0 ≡ ok active
  pub session_token :
      (id : Uuid) (active : Bool) (end : Time) (hash : Bytes) (i : Identity) (ttl : Duration)
      (w : W)
      → HasSession id active end w
      → HasSession id active end (p.store_access_token hash i ttl w).1
  pub session_result :
      (id : Uuid) (active : Bool) (end : Time) (hash : Bytes) (pair : TokenPair) (ttl : Duration)
      (w : W)
      → HasSession id active end w
      → HasSession id active end (p.store_refresh_result hash pair ttl w).1
  pub result_stored :
      (hash : Bytes) (pair : TokenPair) (ttl : Duration) (w w1 : W)
      → p.store_refresh_result hash pair ttl w ≡ (ok tt, w1)
      → HasResult hash pair (time w + ttl) w1
  pub result_read :
      (hash : Bytes) (pair : TokenPair) (end : Time) (w : W)
      → HasResult hash pair end w
      → time w < end
      → (p.get_refresh_result hash w).0 ≡ ok pair
  pub result_token :
      (hash other : Bytes) (pair : TokenPair) (end : Time) (i : Identity) (ttl : Duration) (w : W)
      → HasResult hash pair end w
      → HasResult hash pair end (p.store_access_token other i ttl w).1
  pub result_session :
      (hash : Bytes) (pair : TokenPair) (end : Time) (id : Uuid) (active : Bool) (ttl : Duration)
      (w : W)
      → HasResult hash pair end w
      → HasResult hash pair end (p.set_session id active ttl w).1
  pub result_observed :
      (hash : Bytes) (pair : TokenPair) (end : Time) (o : Observation) (w : W)
      → HasResult hash pair end w
      → HasResult hash pair end (p.observe o w)

module _ {W : Type 0} (p : Ports W) (time : W → Time) (caches : IsCaches p time) where
  reported-keeps :
      (hash : Bytes) (pair : TokenPair) (end : Time) (o : Error → Observation)
      (r : Result (Unit {0}) × W)
      → caches.HasResult hash pair end r.1
      → caches.HasResult hash pair end (report p o r).1
  reported-keeps hash pair end o (ok x, w) h = h
  reported-keeps hash pair end o (err e, w) h = caches.result_observed hash pair end (o e) w h

  -- A refresh that the database rotated and whose answer was stored returns it, and the cache then has
  -- it for the time of a retry.
  pub extended-answers :
      (old_hash access_hash : Bytes) (pair : TokenPair) (i : Identity) (w w1 : W)
      → p.store_refresh_result old_hash pair p.refresh_retry_ttl w ≡ (ok tt, w1)
      → let r = refresh_extended p old_hash access_hash pair i w in
        (r.0 ≡ ok pair) × caches.HasResult old_hash pair (time w + p.refresh_retry_ttl) r.1
  unfolding refresh_extended
  extended-answers old_hash access_hash pair i w w1 a =
      let stored = p.store_access_token access_hash i p.access_token_lifetime w1 in
      let w2 = (report p access_token_store_failed stored).1 in
      let set = p.set_session i.session_id true p.session_inactivity_timeout w2 in
      let end = time w + p.refresh_retry_ttl in
      let ends : refresh_extended p old_hash access_hash pair i w
          ≡ (ok pair, (report p session_cache_update_failed set).1) =
        rw (a) (
          reported-goes_on p access_token_store_failed stored _
          ∙ reported-goes_on p session_cache_update_failed set (pure pair)) in
      let kept = reported-keeps old_hash pair end session_cache_update_failed set (
        caches.result_session old_hash pair end i.session_id true p.session_inactivity_timeout w2 (
          reported-keeps old_hash pair end access_token_store_failed stored (
            caches.result_token old_hash access_hash pair end i p.access_token_lifetime w1
              (caches.result_stored old_hash pair p.refresh_retry_ttl w w1 a)))) in
      (rw (ends) refl, rw (ends) kept)
