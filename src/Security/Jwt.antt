-- ===== src/Security/Jwt.antt =====
-- token/jwt.go: access tokens that are signed texts. No program uses them.
use Prim.Native.String.{◌++◌}
use frimo_messenger.Base.{
  ◌+◌, ◌≤◌, ◌<◌, ◌≡◌, ◌⊎◌, refl, String, Bytes, Bool, true, not, List, [], ◌∷◌, ltb, if◌then◌else◌,
  arith, Bool-cases, inl, inr,
}
use frimo_messenger.Errors.{
  Error, sentinel, wrap, is, Result, ok, err, jwt_invalid, jwt_expired, token_is_expired,
}
use frimo_messenger.Domain.{Uuid, Time, Duration, second}

-- The fields of `jwt.RegisteredClaims` that are set. A date is its time.
pub record Claims : Type 0 where
  pub subject : String
  pub issued_at : Time
  pub expires_at : Time

-- What is called of jwt, uuid and fmt. `sign` gets the name of the method, the claims and the key;
-- `parse` gets the valid methods, whether the claims must have the time of expiry, the key, the time
-- and the token. `numeric_date` is `jwt.NewNumericDate`, `text` an error's text.
pub record Jwt : Type 0 where
  pub sign : String → Claims → Bytes → Result String
  pub parse : List String → Bool → Bytes → Time → String → Result Claims
  pub numeric_date : Time → Time
  pub uuid_text : Uuid → String
  pub parse_uuid : String → Result Uuid
  pub text : Error → String

pub record JwtManager : Type 0 where
  pub secret : Bytes
  pub lifetime : Duration

abbrev signed_text : Result String → Result String
signed_text (ok token) = ok token
signed_text (err e) = err (wrap "failed signing token" e)

module _ (j : Jwt) (m : JwtManager) where
  abbrev pub claims_of : Uuid → Time → Claims
  claims_of user_id issued_at = record {
    subject = j.uuid_text user_id;
    issued_at = j.numeric_date issued_at;
    expires_at = j.numeric_date (issued_at + m.lifetime);
  }

  -- `Issue`.
  unfoldable pub issue : Uuid → Time → Result String
  issue user_id issued_at = signed_text (j.sign "HS256" (claims_of user_id issued_at) m.secret)

  -- The error of a token that is not accepted. `fmt.Errorf` with `%w: %v` puts the text after that of
  -- the sentinel.
  abbrev parse_error : Error → Error
  parse_error e =
      if is e token_is_expired
      then wrap (j.text e) (sentinel jwt_expired)
      else wrap (j.text e) (sentinel jwt_invalid)

  abbrev subject_of : Result Uuid → Result Uuid
  subject_of (ok user_id) = ok user_id
  subject_of (err e) = err (wrap ("invalid subject: " ++ j.text e) (sentinel jwt_invalid))

  abbrev claimed_by : Result Claims → Result Uuid
  claimed_by (ok claims) = subject_of (j.parse_uuid claims.subject)
  claimed_by (err e) = err (parse_error e)

  -- `Verify`, at the time that the parser reads.
  unfoldable pub verify : Time → String → Result Uuid
  verify now raw_token = claimed_by (j.parse ("HS256" ∷ []) true m.secret now raw_token)

-- What the libraries promise: a token that was signed with claims whose dates are cut off is parsed,
-- by its method and key, until it expires, and is then refused as expired; a date is its time, cut
-- off to seconds, and is not cut off twice; a UUID is parsed from its text.
pub record IsJwt (j : Jwt) : Type 0 where
  pub parse_signed :
      (method token : String) (claims : Claims) (key : Bytes) (now : Time)
      → j.sign method claims key ≡ ok token
      → j.numeric_date claims.issued_at ≡ claims.issued_at
      → j.numeric_date claims.expires_at ≡ claims.expires_at
      → now < claims.expires_at
      → j.parse (method ∷ []) true key now token ≡ ok claims
  pub parse_late :
      (method token : String) (claims : Claims) (key : Bytes) (now : Time)
      → j.sign method claims key ≡ ok token
      → j.numeric_date claims.expires_at ≡ claims.expires_at
      → claims.expires_at ≤ now
      → (e : Error) × (j.parse (method ∷ []) true key now token ≡ err e)
        × (is e token_is_expired ≡ true)
  pub date_cut : (t : Time) → j.numeric_date (j.numeric_date t) ≡ j.numeric_date t
  pub date_below : (t : Time) → j.numeric_date t ≤ t
  pub date_above : (t : Time) → t < j.numeric_date t + second
  pub parse_text : (id : Uuid) → j.parse_uuid (j.uuid_text id) ≡ ok id

module _ (j : Jwt) (m : JwtManager) where
  -- Every error of `Verify` is exactly one of ErrTokenExpired and ErrInvalidToken.
  verify-err :
      (now : Time) (raw : String) (e : Error)
      → verify j m now raw ≡ err e
      → is e jwt_expired ≡ not (is e jwt_invalid)
  unfolding verify
  verify-err now raw e h = ground arith

  module _ (laws : IsJwt j) (user_id : Uuid) (issued_at now : Time) (token : String)
      (issued : issue j m user_id issued_at ≡ ok token) where
    sign_ok : j.sign "HS256" (claims_of j m user_id issued_at) m.secret ≡ ok token
    unfolding issue
    sign_ok = ground arith

    verify_early : now < j.numeric_date (issued_at + m.lifetime) → verify j m now token ≡ ok user_id
    unfolding verify
    verify_early early =
        rw
          (
            laws.parse_signed "HS256" token (claims_of j m user_id issued_at) m.secret now sign_ok
                (laws.date_cut issued_at) (laws.date_cut (issued_at + m.lifetime)) early,
            laws.parse_text user_id,
          )
          refl

    verify_late :
        j.numeric_date (issued_at + m.lifetime) ≤ now
        → (e : Error) × (verify j m now token ≡ err e) × (is e jwt_expired ≡ true)
    unfolding verify
    verify_late late =
        let (e, parsed, expired) =
          laws.parse_late "HS256" token (claims_of j m user_id issued_at) m.secret now sign_ok
            (laws.date_cut (issued_at + m.lifetime)) late in
        (wrap (j.text e) (sentinel jwt_expired), rw (parsed, expired) refl, refl)

    -- With a jwt library that keeps its promises: a token that `Issue` has made gives its user back
    -- while its lifetime runs, and else, or in the last second of it, ErrTokenExpired.
    pub verify-issue :
        ((now < issued_at + m.lifetime) × (verify j m now token ≡ ok user_id))
        ⊎ ((issued_at + m.lifetime < now + second)
            × ((e : Error) × (verify j m now token ≡ err e) × (is e jwt_expired ≡ true)))
    verify-issue =
        let below = laws.date_below (issued_at + m.lifetime) in
        let above = laws.date_above (issued_at + m.lifetime) in
        elim (Bool-cases (ltb now (j.numeric_date (issued_at + m.lifetime)))) [
          | inl early ↦ inl (ground (arith, early, below), verify_early (ground (arith, early)))
          | inr late ↦ inr (ground (arith, late, above), verify_late (ground (arith, late)))
        ]
