-- ===== src/Postgres/Auth.antt =====
-- auth_repository.go: users and their email verifications. Each function takes the faults of its
-- round trips in the order in which the code makes them.
pub mod Registration
pub mod Confirmation
pub mod Resend
pub mod Silence
use frimo_messenger.Base.{
  ℕ, ◌-◌, String, Bool, true, false, ◌&&◌, ◌||◌, not, Option, none, some, List, [], ◌∷◌, Bytes,
  bytes_eq, str_eq, is_null, ltb, leb, ◌==◌, find, count, update, if◌then◌else◌,
}
use frimo_messenger.Errors.{
  Error, sentinel, plain, wrap, is, as_pg, Result, ok, err, ◌>>=◌, context, email_already_exists,
  user_not_found, already_verified, resend_cooldown, resend_hourly_limit, invalid_token,
  expired_token, used_token, revoked_token, delivery_not_found, delivery_inactive, no_rows,
}
use frimo_messenger.Domain.{
  Uuid, Time, minute, hour, User, Event, VerificationInput, CreateUserInput,
  ResendVerificationInput, LoginUser, DeliveryData,
}
use frimo_messenger.Postgres.Schema.{
  Db, UserRow, VerificationRow, OutboxRow, unique_violation_code, users_email_unique_idx,
  insert_user, insert_verification, insert_outbox,
}
use frimo_messenger.Postgres.Link.{Faults, reply, finish, query_row, or_no_rows}

unfoldable pub get_user_for_login : Faults → String → Db → Result LoginUser
get_user_for_login f email db = elim (query_row (f 0) (find (λ u. str_eq u.email email) db.users)) [
  | ok u ↦
      ok (record { id = u.id; password_hash = u.password_hash; verified_at = u.email_verified_at })
  | err e ↦ if is e no_rows then err (sentinel user_not_found) else err e
]

abbrev is_email_index : Option (String × String) → Bool
is_email_index none = false
is_email_index (some (code, constraint)) =
    str_eq code unique_violation_code && str_eq constraint users_email_unique_idx

unfoldable pub is_email_unique_violation : Error → Bool
is_email_unique_violation e = is_email_index (as_pg e)

abbrev pub user_row : CreateUserInput → UserRow
user_row input = record {
  id = input.id;
  email = input.email;
  password_hash = input.password_hash;
  email_verified_at = none;
  created_at = input.created_at;
}

abbrev pub verification_row : Uuid → Time → VerificationInput → VerificationRow
verification_row user_id created_at v = record {
  id = v.id;
  user_id = user_id;
  token_hash = v.token_hash;
  token_ciphertext = some v.token_ciphertext;
  expires_at = v.expires_at;
  used_at = none;
  revoked_at = none;
  created_at = created_at;
}

-- The columns that the INSERT leaves out take their defaults.
abbrev pub outbox_row : Event → OutboxRow
outbox_row e = record {
  id = e.id;
  event_type = e.event_type;
  payload = e.payload;
  created_at = e.created_at;
  available_at = e.available_at;
  locked_at = none;
  lock_id = none;
  processed_at = none;
  failed_at = none;
  attempts = 0;
  last_error = none;
}

user_insert_error : Result Db → Result Db
unfolding is_email_unique_violation
user_insert_error (ok db) = ok db
user_insert_error (err e) =
    if is_email_unique_violation e
    then err (sentinel email_already_exists)
    else err (wrap "insert user" e)

unfoldable pub create_user_body :
    (String → String) → Faults → CreateUserInput → Db → Result (User × Db)
unfolding user_insert_error
create_user_body lower f input db = do
  begun ← context "create transaction" (reply (f 0) (ok db))
  with_user ← user_insert_error (reply (f 1) (insert_user lower (user_row input) begun))
  with_verification ← context "insert verification" (
      reply (f 2) (
        insert_verification (verification_row input.id input.created_at input.verification)
          with_user))
  with_event ←
      context "insert outbox event"
        (reply (f 3) (insert_outbox (outbox_row input.outbox_event) with_verification))
  ok (record { id = input.id; email = input.email; created_at = input.created_at }, with_event)

unfoldable pub create_user : (String → String) → Faults → CreateUserInput → Db → Result User × Db
unfolding create_user_body
create_user lower f input db =
    finish (f 4) "commit transaction" db (create_user_body lower f input db)

-- The checks of `ConfirmEmail` on what the three queries returned, in the code's order.
abbrev confirm_checks : Time → VerificationRow → Option Time → Result (Unit {0})
confirm_checks confirmed_at v email_verified_at =
    if not (is_null v.used_at)
    then err (sentinel used_token)
    else if not (is_null v.revoked_at)
    then err (sentinel revoked_token)
    else if not (ltb confirmed_at v.expires_at)
    then err (sentinel expired_token)
    else if not (is_null email_verified_at)
    then err (sentinel already_verified)
    else ok tt

abbrev pub use_token : Bytes → Time → List VerificationRow → List VerificationRow
use_token token_hash confirmed_at =
    update (λ v. bytes_eq v.token_hash token_hash)
      (λ v. record v { used_at = some confirmed_at; token_ciphertext = none })

abbrev pub verify_user : Uuid → Time → List UserRow → List UserRow
verify_user user_id confirmed_at =
    update (λ u. u.id == user_id) (λ u. record u { email_verified_at = some confirmed_at })

-- `RowsAffected() != 1`.
abbrev one_row : ℕ → Error → Result (Unit {0})
one_row n e = if n == 1 then ok tt else err e

unfoldable pub confirm_email_body : Faults → Bytes → Time → Db → Result (Unit {0} × Db)
confirm_email_body f token_hash confirmed_at db = do
  begun ← context "failed begin email verification transaction" (reply (f 0) (ok db))
  owner ←
      or_no_rows invalid_token "failed select verification token"
        (query_row (f 1) (find (λ v. bytes_eq v.token_hash token_hash) begun.verifications))
  user ←
      context "failed select verification time"
        (query_row (f 2) (find (λ u. u.id == owner.user_id) begun.users))
  v ← or_no_rows invalid_token "failed select verification token" (
      query_row (f 3) (
        find (λ v. bytes_eq v.token_hash token_hash && (v.user_id == owner.user_id))
          begun.verifications))
  checked ← confirm_checks confirmed_at v user.email_verified_at
  used ←
      context "failed update user email verification"
        (reply (f 4) (ok (use_token token_hash confirmed_at begun.verifications)))
  verified ←
      context "failed mark user email verified"
        (reply (f 5) (ok (verify_user owner.user_id confirmed_at begun.users)))
  affected ←
      one_row (count (λ u. u.id == owner.user_id) begun.users)
        (plain "failed mark user email verified: user not found")
  ok (tt, record begun { verifications = used; users = verified })

unfoldable pub confirm_email : Faults → Bytes → Time → Db → Result (Unit {0}) × Db
unfolding confirm_email_body
confirm_email f token_hash confirmed_at db =
    finish (f 6) "failed commit email verification transaction" db
      (confirm_email_body f token_hash confirmed_at db)

-- The rows that the first limit counts.
abbrev pub in_last_hour : Uuid → Time → VerificationRow → Bool
in_last_hour user_id requested_at v =
    (v.user_id == user_id)
    && (leb (requested_at - hour) v.created_at && leb v.created_at requested_at)

abbrev later : Option Time → Time → Option Time
later none t = some t
later (some s) t = if ltb s t then some t else some s

-- `SELECT MAX(created_at)`.
unfoldable pub last_created : Uuid → List VerificationRow → Option Time
last_created user_id [] = none
last_created user_id (v ∷ vs) =
    let rest = last_created user_id vs in
    if v.user_id == user_id then later rest v.created_at else rest

abbrev cooling_down : Time → Option Time → Bool
cooling_down requested_at none = false
cooling_down requested_at (some created_at) = ltb (requested_at - created_at) minute

-- A token of the user that could still be confirmed at `now`.
abbrev pub is_usable : Uuid → Time → VerificationRow → Bool
is_usable user_id now v =
    (v.user_id == user_id) && (is_null v.used_at && (is_null v.revoked_at && ltb now v.expires_at))

abbrev pub revoke_usable : Uuid → Time → List VerificationRow → List VerificationRow
revoke_usable user_id now = update (is_usable user_id now) (λ v. record v { revoked_at = some now })

unfoldable pub resend_verification_body :
    Faults → ResendVerificationInput → Db → Result (Unit {0} × Db)
unfolding last_created
resend_verification_body f input db = do
  begun ← context "failed begin resend verification token transaction" (reply (f 0) (ok db))
  user ←
      or_no_rows user_not_found "failed select user for resend verification token"
        (query_row (f 1) (find (λ u. str_eq u.email input.email) begun.users))
  unverified ←
      (if not (is_null user.email_verified_at)
        then err (sentinel already_verified)
        else ok (tt {0}))
  recent ←
      context "failed counting verification tokens"
        (reply (f 2) (ok (count (in_last_hour user.id input.requested_at) begun.verifications)))
  -- the second limit is read only when the first one is met
  within_hour ← (if leb 5 recent then err (sentinel resend_hourly_limit) else ok (tt {0}))
  last ←
      context "failed selecting last created verification token"
        (reply (f 3) (ok (last_created user.id begun.verifications)))
  cooled ←
      (if cooling_down input.requested_at last then err (sentinel resend_cooldown) else ok (tt {0}))
  revoked ←
      context "failed revoke email verification"
        (reply (f 4) (ok (revoke_usable user.id input.requested_at begun.verifications)))
  with_verification ← context "failed insert verification" (
      reply (f 5) (
        insert_verification (verification_row user.id input.requested_at input.verification)
          (record begun { verifications = revoked })))
  with_event ←
      context "failed insert outbox event"
        (reply (f 6) (insert_outbox (outbox_row input.outbox_event) with_verification))
  ok (tt, with_event)

unfoldable pub resend_verification : Faults → ResendVerificationInput → Db → Result (Unit {0}) × Db
unfolding resend_verification_body
resend_verification f input db =
    finish (f 7) "failed commit transaction" db (resend_verification_body f input db)

abbrev pub bytes_of : Option Bytes → Bytes
bytes_of none = []
bytes_of (some b) = b

abbrev pub is_empty : Bytes → Bool
is_empty [] = true
is_empty (x ∷ xs) = false

unfoldable pub get_for_delivery : Faults → Uuid → Db → Result DeliveryData
get_for_delivery f verification_id db = do
  v ←
      or_no_rows delivery_not_found "failed to get email verification for delivery"
        (query_row (f 0) (find (λ v. v.id == verification_id) db.verifications))
  if not (is_null v.used_at)
        || (not (is_null v.revoked_at) || is_empty (bytes_of v.token_ciphertext))
      then err (sentinel delivery_inactive)
      else ok (record {
        id = v.id;
        token_ciphertext = bytes_of v.token_ciphertext;
        expires_at = v.expires_at;
      })
