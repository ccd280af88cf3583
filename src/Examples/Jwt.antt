-- ===== src/Examples/Jwt.antt =====
-- jwt.go over a library that knows one token.
use frimo_messenger.Base.{
  ◌+◌, ◌*◌, ◌/◌, ◌<◌, ◌≡◌, ◌⊎◌, refl, ap, Bool, true, ◌&&◌, ◌==◌, str_eq, eq_iff, ltb, [],
  if◌then◌else◌, arith,
}
use frimo_messenger.Errors.{Error, ok, err, plain, sentinel, is, jwt_expired, token_is_expired}
use frimo_messenger.Domain.{second, minute}
use frimo_messenger.Security.Jwt.{Claims, Jwt, JwtManager, IsJwt, issue, verify, verify-issue}
use frimo_messenger.Examples.Redis.{unary, tally, tally-unary}

-- User 3, for a quarter of an hour.
abbrev known : Claims
known = record { subject = "111"; issued_at = 0; expires_at = 15 * minute }

abbrev is_known : Claims → Bool
is_known c =
    str_eq c.subject known.subject
    && ((c.issued_at == known.issued_at) && (c.expires_at == known.expires_at))

abbrev one_token : Jwt
one_token = record {
  sign = λ method claims key. if is_known claims then ok "token" else err (plain "unknown");
  parse = λ methods expires key now token.
      if ltb now known.expires_at then ok known else err (sentinel token_is_expired);
  numeric_date = λ t. t / second * second;
  uuid_text = unary;
  parse_uuid = λ s. ok (tally s);
  text = λ e. "";
}

one_token-IsJwt : IsJwt one_token
one_token-IsJwt = record {
  parse_signed = λ method token claims key now h cut cut' early.
      ground (arith, eq_iff claims.subject known.subject);
  parse_late = λ method token claims key now h cut late.
      (sentinel token_is_expired, ground (arith, eq_iff claims.subject known.subject), refl);
  date_cut = λ t. omega arith;
  date_below = λ t. omega arith;
  date_above = λ t. omega arith;
  parse_text = λ id. ap ok (tally-unary id);
}

abbrev manager : JwtManager
manager = record { secret = []; lifetime = 15 * minute }

issues : issue one_token manager 3 0 ≡ ok "token"
unfolding issue
issues = refl

verify-issue_example :
    ((minute < 0 + 15 * minute) × (verify one_token manager minute "token" ≡ ok 3))
    ⊎ ((0 + 15 * minute < minute + second)
        × ((e : Error) × (verify one_token manager minute "token" ≡ err e)
            × (is e jwt_expired ≡ true)))
verify-issue_example = verify-issue one_token manager one_token-IsJwt 3 0 minute "token" issues
