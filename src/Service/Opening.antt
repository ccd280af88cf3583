-- ===== src/Service/Opening.antt =====
-- `open_session`, the last part of `Login`: what it has done where it returns tokens.
use frimo_messenger.Base.{◌+◌, ◌≡◌, sym, ◌∙◌, String, Bytes}
use frimo_messenger.Errors.{ok}
use frimo_messenger.Domain.{LoginInput, LoginUser, TokenPair, Session, RefreshToken}
use frimo_messenger.Service.Ports.{Ports, report, wrapping, access_token_store_failed}
use frimo_messenger.Service.Chain.{continue-ok, wrapping-ok, reported-goes_on, pure-ok}
use frimo_messenger.Service.Flows.{open_session}

module _ {W : Type 0} (p : Ports W) (input : LoginInput) (user : LoginUser)
    (device_name : String) where
  -- The session that is opened in the world `w`.
  abbrev pub session_at : W → Session
  session_at w = record {
    id = (p.new_uuid (p.now w).1).0;
    user_id = user.id;
    device_name = device_name;
    created_ip = input.ip;
    last_ip = input.ip;
    created_at = (p.now w).0;
    last_seen_at = (p.now w).0;
    expires_at = (p.now w).0 + p.session_inactivity_timeout;
  }

  -- The worlds are those before and after the access token was generated, and after the session was
  -- created.
  pub record Opens (w : W) (pair : TokenPair) (w' : W) : Type 0 where
    pub token : RefreshToken
    pub access_hash : Bytes
    pub before : W
    pub generated : W
    pub inserted : W
    pub generates : p.generate_token before ≡ (ok (pair.access_token, access_hash), generated)
    pub creates : p.create_session (session_at w) token generated ≡ (ok tt, inserted)
    pub after :
        w'
        ≡ (report p access_token_store_failed (
            p.store_access_token access_hash
              (record { user_id = user.id; session_id = (session_at w).id })
              p.access_token_lifetime
              inserted)).1

  pub open_session-ok :
      (w : W) {pair : TokenPair} {w' : W}
      → open_session p input user device_name w ≡ (ok pair, w')
      → Opens w pair w'
  unfolding open_session
  open_session-ok w h =
      let w1 = (p.new_uuid (p.now w).1).1 in
      let ((refresh, refresh_hash), w2, a, h1) =
        continue-ok (wrapping "failed generate refresh token" p.generate_token w1) _ h in
      let ((access, access_hash), w3, b, h2) =
        continue-ok (wrapping "failed generate access token" p.generate_token (p.new_uuid w2).1) _
          h1 in
      let made : RefreshToken = record {
        id = (p.new_uuid w2).0;
        token_hash = refresh_hash;
        created_at = (p.now w).0;
      } in
      let (x, w4, c, h3) =
        continue-ok (wrapping "failed create session" (p.create_session (session_at w) made) w3) _
          h2 in
      let stored =
        p.store_access_token access_hash
          (record { user_id = user.id; session_id = (session_at w).id }) p.access_token_lifetime
          w4 in
      let h4 = sym (reported-goes_on p access_token_store_failed stored _) ∙ h3 in
      let (pair_is, w'_is) = pure-ok _ (report p access_token_store_failed stored).1 h4 in
      record {
        token = made;
        access_hash = access_hash;
        before = (p.new_uuid w2).1;
        generated = w3;
        inserted = w4;
        generates = rw pair_is (wrapping-ok _ _ b);
        creates = wrapping-ok _ _ c;
        after = w'_is;
      }
