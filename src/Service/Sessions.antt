-- ===== src/Service/Sessions.antt =====
-- `Authenticate` and `Refresh` of internal/service/auth/service.go over the two caches.
use frimo_messenger.Base.{
  ◌<◌, String, Bool, true, false, Bytes, none, some, if◌then◌else◌, ◌≡◌, ◌⊎◌, refl, sym, ◌-◌, ◌*◌,
  ◌∙◌, inl, inr, ap, arith,
}
use frimo_messenger.Errors.{
  Sentinel, Error, sentinel, is, Result, ok, err, refresh_retry, refresh_token_reuse,
  session_inactive, session_cache_miss,
}
use frimo_messenger.Domain.{Uuid, Duration, Identity, TokenPair, SessionState, minute}
use frimo_messenger.Service.Ports.{
  Ports, wrapping, pure, fail, access_token_store_failed, session_cache_update_failed,
  session_cache_read_failed,
}
use frimo_messenger.Service.Chain.{continue-ok, wrapping-ok, reported-goes_on}
use frimo_messenger.Service.Flows.{
  authenticate, authenticate_uncached, with_cache, is_active, after_extension, refresh_retried,
  refresh_reused,
}

-- The result is an error that `errors.Is` the sentinel.
abbrev pub is_refused : {A : Type 0} → Result A → Sentinel → Bool
is_refused (ok a) target = false
is_refused (err e) target = is e target

module _ {W : Type 0} where
  cached-inactive :
      (p : Ports W) (i : Identity) (r : Result Bool × W)
      → r.0 ≡ ok false
      → (with_cache p i r).0 ≡ err (sentinel session_inactive)
  cached-inactive p i (ok active, w) h = ground arith
  cached-inactive p i (err e, w) h = cc

module _ {W : Type 0} (p : Ports W) where
  -- The row of the identity's session, as it is read in this state, is unrevoked, and unexpired by the
  -- clock that is read next.
  pub record IsActiveRow (i : Identity) (before : W) : Type 0 where
    pub after : W
    pub state : SessionState
    pub read : p.get_session_state i.session_id before ≡ (ok state, after)
    pub unrevoked : state.revoked_at ≡ none
    pub unexpired : (p.now after).0 < state.expires_at

  gate :
      (b : Bool) (i j : Identity) (w : W) {w' : W}
      → (if b then pure i else fail (sentinel session_inactive)) w ≡ (ok j, w')
      → (j ≡ i) × (b ≡ true)
  gate true i j w h = ground arith
  gate false i j w h = cc

  uncached-ok :
      (i j : Identity) (w : W) {w' : W}
      → authenticate_uncached p i w ≡ (ok j, w')
      → (j ≡ i) × IsActiveRow i w
  unfolding authenticate_uncached
  uncached-ok i j w h =
      let (state, w1, a, h1) =
        continue-ok (wrapping "failed to get session state" (p.get_session_state i.session_id) w) _
          h in
      let now = p.now w1 in
      let state_active = is_active state now.0 in
      let stored =
        p.set_session i.session_id state_active
          (if state_active then state.expires_at - now.0 else 5 * minute) now.1 in
      let h2 = sym (reported-goes_on p session_cache_update_failed stored _) ∙ h1 in
      let (same, b) = gate state_active i j _ h2 in
      (
        same,
        record {
          after = w1;
          state = state;
          read = wrapping-ok _ _ a;
          unrevoked = ground arith;
          unexpired = ground arith;
        },
      )

  -- A session is active by what the session cache answered, or, if that was an error, by its row in
  -- the state that the cache left and in which the observer was told of any error but a miss.
  abbrev pub IsActiveBy : Identity → Result Bool × W → Type 0
  IsActiveBy i (answer, w) =
      (answer ≡ ok true)
      ⊎ ((e : Error) × (answer ≡ err e)
          × IsActiveRow i
              (if is e session_cache_miss then w else p.observe (session_cache_read_failed e) w))

  with_cache-ok :
      (i : Identity) (r : Result Bool × W) {j : Identity} {w' : W}
      → with_cache p i r ≡ (ok j, w')
      → (j ≡ i) × IsActiveBy i r
  with_cache-ok i (ok true, w) h = (ground arith, inl refl)
  with_cache-ok i (ok false, w) h = absurd (ground arith)
  with_cache-ok i (err e, w) h = let (a, b) = uncached-ok i _ _ h in (a, inr (e, refl, b))

  -- What lets an identity in: the access token is its own, and its session is active, as the session
  -- cache says or, where the cache gives an error, as the row of the session says that is read next.
  pub record IsLetIn (raw_access_token : String) (w : W) (i : Identity) (w1 : W) : Type 0 where
    pub token : p.get_access_token (p.hash_token raw_access_token) w ≡ (ok i, w1)
    pub active : IsActiveBy i (p.get_session i.session_id w1)

  -- Where an access token authenticates, the identity is the one stored for it, and its session is
  -- active by the session cache, or the cache gave an error and the row of the session, read right
  -- after that, is unrevoked and unexpired.
  pub authenticate-ok :
      (raw_access_token : String) (w : W) {i : Identity} {w' : W}
      → authenticate p raw_access_token w ≡ (ok i, w')
      → (w1 : W) × IsLetIn raw_access_token w i w1
  unfolding authenticate
  authenticate-ok raw w h =
      let (j, w1, a, h1) =
        continue-ok (wrapping "failed to authenticate" (p.get_access_token (p.hash_token raw)) w) _
          h in
      let (same, active) = with_cache-ok j (p.get_session j.session_id w1) h1 in
      (w1, record { token = rw (same) (wrapping-ok _ _ a); active = rw (same) active })

  -- What the cached answers promise to a client of the session cache: the last value that was set
  -- is the value that is read.
  pub record IsCache : Type 0 where
    pub set_get :
        (id : Uuid) (active : Bool) (ttl : Duration) (w w1 : W)
        → p.set_session id active ttl w ≡ (ok tt, w1)
        → (p.get_session id w1).0 ≡ ok active

  -- After `ExtendSession` answered that a token was reused and the session cache took the write, the
  -- refresh ends with that error, and an access token of the same session is then refused.
  pub reuse_locks_out :
      (cache : IsCache)
      → (old_hash access_hash : Bytes) (pair : TokenPair) (identity : Identity) (e : Error)
        (w w1 : W)
      → is e refresh_retry ≡ false
      → is e refresh_token_reuse ≡ true
      → p.set_session identity.session_id false p.session_inactivity_timeout w ≡ (ok tt, w1)
      → (raw_access_token : String) (held : Identity)
      → p.get_access_token (p.hash_token raw_access_token) w1 ≡ (ok held, w1)
      → held.session_id ≡ identity.session_id
      → (is_refused
            (after_extension p old_hash access_hash pair ((identity, some e), w)).0
            refresh_token_reuse
          ≡ true)
        × ((after_extension p old_hash access_hash pair ((identity, some e), w)).1 ≡ w1)
        × ((authenticate p raw_access_token w1).0 ≡ err (sentinel session_inactive))
  unfolding after_extension refresh_reused authenticate
  reuse_locks_out cache old_hash access_hash pair identity e w w1 a b c raw held d same = (
    rw (a, b, c) refl,
    rw (a, b, c) refl,
    rw (d) (cached-inactive p held _ (rw (same) (cache.set_get _ _ _ w w1 c))),
  )

  pub retried-answers :
      (old_hash : Bytes) (i : Identity) (w : W) (pair : TokenPair)
      → (p.get_refresh_result old_hash w).0 ≡ ok pair
      → (refresh_retried p old_hash i w).0 ≡ ok pair
  unfolding refresh_retried
  retried-answers old_hash i w pair h = rw (h) (
      ap (λ r. r.0)
        (reported-goes_on p access_token_store_failed
          (p.store_access_token (p.hash_token pair.access_token) i p.access_token_lifetime
            (p.get_refresh_result old_hash w).1)
          (pure pair)))
