-- ===== src/Postgres/Sessions.antt =====
-- session_repository.go: sessions and the refresh tokens that extend them.
pub mod Rotation
pub mod Theft
pub mod Steps
pub mod LiveTokens
use frimo_messenger.Base.{
  ◌+◌, Bool, false, ◌||◌, not, Option, none, some, List, bytes_eq, is_null, ltb, ◌==◌, find, update,
  if◌then◌else◌,
}
use frimo_messenger.Errors.{
  Error, sentinel, Result, ok, err, ◌>>=◌, context, session_not_found, session_inactive,
  refresh_token_not_found, refresh_token_reuse, refresh_retry,
}
use frimo_messenger.Domain.{
  Uuid, Time, Identity, Session, RefreshToken, SessionState, ExtendSessionInput,
}
use frimo_messenger.Postgres.Schema.{
  Db, SessionRow, RefreshTokenRow, insert_session, insert_refresh_token,
}
use frimo_messenger.Postgres.Link.{Faults, reply, finish, query_row, or_no_rows}

abbrev pub session_row : Session → SessionRow
session_row s = record {
  id = s.id;
  user_id = s.user_id;
  device_name = s.device_name;
  created_ip = s.created_ip;
  last_ip = s.last_ip;
  created_at = s.created_at;
  last_seen_at = s.last_seen_at;
  expires_at = s.expires_at;
  revoked_at = none;
}

abbrev pub refresh_token_row : Uuid → RefreshToken → RefreshTokenRow
refresh_token_row session_id t = record {
  id = t.id;
  session_id = session_id;
  token_hash = t.token_hash;
  created_at = t.created_at;
  used_at = none;
  request_id = none;
}

unfoldable pub create_session_body : Faults → Session → RefreshToken → Db → Result (Unit {0} × Db)
create_session_body f session token db = do
  begun ← context "failed to create transaction" (reply (f 0) (ok db))
  with_session ←
      context "failed to insert session" (reply (f 1) (insert_session (session_row session) begun))
  with_token ←
      context "failed to insert refresh token"
        (reply (f 2) (insert_refresh_token (refresh_token_row session.id token) with_session))
  ok (tt, with_token)

unfoldable pub create_session : Faults → Session → RefreshToken → Db → Result (Unit {0}) × Db
unfolding create_session_body
create_session f session token db =
    finish (f 3) "failed to commit transaction" db (create_session_body f session token db)

unfoldable pub get_session_state : Faults → Uuid → Db → Result SessionState
get_session_state f session_id db = do
  s ←
      or_no_rows session_not_found "failed to select session state"
        (query_row (f 0) (find (λ s. s.id == session_id) db.sessions))
  ok (record { revoked_at = s.revoked_at; expires_at = s.expires_at })

-- `ExtendSession` returns an identity beside two of its errors. `extended` is its result without
-- an error; `retried` and `reused` are the identity with `ErrRefreshRetry` and with
-- `ErrRefreshTokenReuse`; `failed` is the empty identity with another error.
pub data Extension : Type 0 where
  extended retried reused : Identity → Extension
  failed : Error → Extension

-- The error that the caller inspects.
abbrev pub error_of : Extension → Option Error
error_of (extended i) = none
error_of (retried i) = some (sentinel refresh_retry)
error_of (reused i) = some (sentinel refresh_token_reuse)
error_of (failed e) = some e

-- `requestID != nil && *requestID == input.OperationID`.
abbrev pub same_request : Option Uuid → Uuid → Bool
same_request none operation_id = false
same_request (some r) operation_id = r == operation_id

-- `revokedAt != nil || !expiresAt.After(now)`.
abbrev pub is_inactive : SessionRow → Time → Bool
is_inactive s now = not (is_null s.revoked_at) || not (ltb now s.expires_at)

abbrev pub revoke_session : Uuid → Time → List SessionRow → List SessionRow
revoke_session session_id now =
    update (λ s. s.id == session_id) (λ s. record s { revoked_at = some now })

abbrev pub use_refresh_token : Uuid → Uuid → Time → List RefreshTokenRow → List RefreshTokenRow
use_refresh_token token_id operation_id now =
    update (λ t. t.id == token_id)
      (λ t. record t { used_at = some now; request_id = some operation_id })

abbrev pub prolong_session : Uuid → Time → List SessionRow → List SessionRow
prolong_session session_id expires_at =
    update (λ s. s.id == session_id) (λ s. record s { expires_at = expires_at })

abbrev to_extension : (Identity → Extension) → Result Identity × Db → Extension × Db
to_extension c (ok i, db) = (c i, db)
to_extension c (err e, db) = (failed e, db)

-- The revocation of a session whose used token came back; round trips 3 and 4.
unfoldable pub revoke_reused : Faults → Time → Identity → Db → Result (Identity × Db)
revoke_reused f now identity db = do
  revoked ←
      context "failed to revoke session"
        (reply (f 3) (ok (revoke_session identity.session_id now db.sessions)))
  ok (identity, record db { sessions = revoked })

-- The rotation of the token; round trips 3 to 6.
unfoldable pub rotate_token :
    Faults → Time → ExtendSessionInput → Uuid → Identity → Db → Result (Identity × Db)
rotate_token f now input token_id identity db = do
  used ←
      context "failed to update refresh token"
        (reply (f 3) (ok (use_refresh_token token_id input.operation_id now db.refresh_tokens)))
  with_token ← context "failed to insert refresh token" (
      reply (f 4) (
        insert_refresh_token (refresh_token_row identity.session_id input.new_refresh_token)
          (record db { refresh_tokens = used })))
  prolonged ← context "failed to update session" (
      reply (f 5) (
        ok
          (prolong_session identity.session_id (now + input.session_lifetime) with_token.sessions)))
  ok (identity, record with_token { sessions = prolonged })

-- The two queries: the token with the hash that was sent, and its session.
unfoldable pub select_token :
    Faults → ExtendSessionInput → Db → Result (RefreshTokenRow × SessionRow)
select_token f input db = do
  begun ← context "failed to create transaction" (reply (f 0) (ok db))
  token ← or_no_rows refresh_token_not_found "failed to select refresh token" (
      query_row (f 1)
        (find (λ t. bytes_eq t.token_hash input.old_refresh_token_hash) begun.refresh_tokens))
  session ←
      or_no_rows session_not_found "failed to select session"
        (query_row (f 2) (find (λ s. s.id == token.session_id) begun.sessions))
  ok (token, session)

-- The decision on the rows that the queries returned.
unfoldable pub extend_selected :
    Faults → ExtendSessionInput → RefreshTokenRow → SessionRow → Db → Extension × Db
unfolding revoke_reused rotate_token
extend_selected f input token session db =
    let now = input.new_refresh_token.created_at in
    let identity : Identity = record { user_id = session.user_id; session_id = token.session_id } in
    if is_inactive session now
    then (failed (sentinel session_inactive), db)
    else if not (is_null token.used_at)
    then (if same_request token.request_id input.operation_id
        then (retried identity, db)
        else to_extension reused
            (finish (f 4) "failed to commit transaction" db (revoke_reused f now identity db)))
    else to_extension extended (
        finish (f 6) "failed to commit transaction" db
          (rotate_token f now input token.id identity db))

abbrev pub extend_found :
    Faults → ExtendSessionInput → Result (RefreshTokenRow × SessionRow) → Db → Extension × Db
extend_found f input (ok (token, session)) db = extend_selected f input token session db
extend_found f input (err e) db = (failed e, db)

unfoldable pub extend_session : Faults → ExtendSessionInput → Db → Extension × Db
unfolding select_token extend_selected
extend_session f input db = extend_found f input (select_token f input db) db
