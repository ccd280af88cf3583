-- ===== src/Examples/Accounts.antt =====
-- auth_repository.go on a registration, its confirmation and a second token.
use frimo_messenger.Base.{
  String, false, if◌then◌else◌, ◌≡◌, ◌≢◌, ◌≤◌, refl, [], ◌∷◌, some, find, update, exists, bytes_eq,
  count, arith, ltb, All, ◌==◌, str_eq, ◌*◌,
}
use frimo_messenger.Errors.{ok, err, sentinel, email_already_exists}
use frimo_messenger.Domain.{minute, hour}
use frimo_messenger.Postgres.Schema.{
  Db, UserRow, VerificationRow, insert_user, insert_verification, insert_outbox,
}
use frimo_messenger.Postgres.Link.{no_faults}
use frimo_messenger.Postgres.Auth.{
  create_user, create_user_body, confirm_email, confirm_email_body, resend_verification,
  resend_verification_body, get_user_for_login, user_row, verification_row, last_created,
  in_last_hour, is_usable,
}
use frimo_messenger.Postgres.Auth.Registration.{
  registered, created, IsAllOrNone, create_user_atomic, create_user_decides,
}
use frimo_messenger.Postgres.Auth.Confirmation.{confirmed, has_hash, register_confirm_login}
use frimo_messenger.Postgres.Auth.Resend.{
  IsOld, resend_verification_limits, resend_verification_one_usable, resend_verification_replaces,
}
use frimo_messenger.Http.{Request, write_json, verify_email_response}
use frimo_messenger.Http.Routes.{handler}
use frimo_messenger.Server.{Environment}
use frimo_messenger.Server.Web.{services}
use frimo_messenger.Server.Verify.{verified, verify_email_answered}
use frimo_messenger.Examples.Http.{decoders}
use frimo_messenger.Examples.Login.{request, not_found}
use frimo_messenger.Examples.Service.{World, start}
use frimo_messenger.Examples.Server.{env}
use frimo_messenger.Examples.Config.{cfg}
use frimo_messenger.Examples.{ann_db, bob, bob_user, bob_again, bob_token}

-- The database's `lower`, on texts that are in lower case.
abbrev as_is : String → String
as_is s = s

abbrev bob_db : Db
bob_db = registered bob ann_db

registers : create_user as_is no_faults bob ann_db ≡ (ok bob_user, bob_db)
unfolding create_user create_user_body insert_user insert_verification insert_outbox exists bytes_eq
registers = refl

create_user_atomic_example : IsAllOrNone bob ann_db (create_user as_is no_faults bob ann_db)
create_user_atomic_example = create_user_atomic as_is no_faults bob ann_db

new_user : exists (λ r. r.id == bob.id) ann_db.users ≡ false
unfolding exists
new_user = refl

new_rows :
    (exists (λ v. v.id == bob.verification.id) ann_db.verifications ≡ false)
    × (exists (λ v. bytes_eq v.token_hash bob.verification.token_hash) ann_db.verifications ≡ false)
    × (exists (λ o. o.id == bob.outbox_event.id) ann_db.outbox ≡ false)
unfolding exists
new_rows = (refl, refl, refl)

create_user_decides_example : create_user as_is no_faults bob ann_db ≡ (
    if exists (λ r. str_eq (as_is r.email) (as_is bob.email)) ann_db.users
    then (err (sentinel email_already_exists), ann_db)
    else (ok (created bob), registered bob ann_db))
create_user_decides_example =
    create_user_decides as_is bob ann_db new_user new_rows.0 new_rows.1 new_rows.2

abbrev bob_row : UserRow
bob_row = user_row bob

abbrev token_row : VerificationRow
token_row = verification_row 2 100 bob_token

abbrev confirmed_db : Db
confirmed_db = confirmed 2 (9 ∷ 1 ∷ []) 200 bob_db

token_is_found : find (has_hash (9 ∷ 1 ∷ [])) bob_db.verifications ≡ some token_row
unfolding find bytes_eq
token_is_found = refl

owner_is_found : find (λ r. r.id == 2) bob_db.users ≡ some bob_row
unfolding find
owner_is_found = refl

one_owner : count (λ r. r.id == 2) bob_db.users ≡ 1
unfolding count
one_owner = refl

confirms : confirm_email no_faults (9 ∷ 1 ∷ []) 200 bob_db ≡ (ok tt, confirmed_db)
unfolding confirm_email confirm_email_body find count update bytes_eq
confirms = refl

register_confirm_login_example :
    (confirm_email no_faults (9 ∷ 1 ∷ []) 200 bob_db ≡ (ok tt, confirmed_db))
    × (get_user_for_login no_faults "bob@example.org" confirmed_db
        ≡ ok (record { id = 2; password_hash = "hash"; verified_at = some 200 }))
register_confirm_login_example =
    register_confirm_login as_is no_faults bob 200 ann_db bob_db bob_user registers (omega arith)

abbrev again_db : Db
again_db = (resend_verification no_faults bob_again bob_db).1

sends_again : resend_verification no_faults bob_again bob_db ≡ (ok tt, again_db)
unfolding resend_verification resend_verification_body insert_verification insert_outbox exists find
    count update bytes_eq last_created
sends_again = refl

resend_verification_limits_example :
    (u : UserRow) × (find (λ r. str_eq r.email bob_again.email) bob_db.users ≡ some u)
    × (count (in_last_hour u.id bob_again.requested_at) again_db.verifications ≤ 5)
    × All (IsOld u.id bob_again.requested_at) bob_db.verifications
resend_verification_limits_example =
    resend_verification_limits no_faults bob_again bob_db again_db sends_again

resend_verification_one_usable_example :
    (u : UserRow) × (find (λ r. str_eq r.email bob_again.email) bob_db.users ≡ some u)
    × (count (is_usable u.id hour) again_db.verifications
        ≡ (if ltb hour bob_again.verification.expires_at then 1 else 0))
resend_verification_one_usable_example =
    resend_verification_one_usable no_faults bob_again bob_db again_db sends_again hour
      (omega arith)

bob_is_found : find (λ r. str_eq r.email bob_again.email) bob_db.users ≡ some bob_row
unfolding find
bob_is_found = refl

other_hash : bytes_eq bob_again.verification.token_hash (9 ∷ 1 ∷ []) ≡ false
unfolding bytes_eq
other_hash = refl

resend_verification_replaces_example :
    confirm_email no_faults (9 ∷ 1 ∷ []) (3 * minute) again_db ≢ (ok tt, again_db)
resend_verification_replaces_example =
    resend_verification_replaces no_faults bob_again bob_db again_db sends_again no_faults
      (9 ∷ 1 ∷ []) (3 * minute) again_db bob_row token_row bob_is_found token_is_found refl
      other_hash (omega arith)

-- A server where every text has the hash of bob's token.
abbrev at_bob : Environment World
at_bob = record env { sha256 = λ s. 9 ∷ 1 ∷ [] }

abbrev link : Request
link = record request { token_parameter = "token" }

verify_email_answered_example :
    let out =
      handler
        (services at_bob cfg)
        decoders
        not_found
        (record link { method = "GET"; path = "/auth/verify-email" })
        (bob_db, start) in
    (out.0.ops ≡ write_json 200 (verify_email_response "email_verified"))
    × (out.0.world.0 ≡ confirmed 2 (9 ∷ 1 ∷ []) 100 bob_db)
verify_email_answered_example =
    verify_email_answered at_bob cfg decoders not_found link bob_db start
      (write_json 200 (verify_email_response "email_verified"))
      (confirmed 2 (9 ∷ 1 ∷ []) 100 bob_db) refl refl
      (verified token_row bob_row
        (record { token = token_is_found; owner = owner_is_found; one = one_owner }) refl refl
        (refl) refl)
