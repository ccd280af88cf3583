-- ===== src/Examples/Sessions.antt =====
-- session_repository.go on a user with one session.
use frimo_messenger.Base.{◌≡◌, ◌≢◌, refl, some, find, update, exists, bytes_eq, count, arith}
use frimo_messenger.Postgres.Schema.{Db, insert_session, insert_refresh_token}
use frimo_messenger.Postgres.Link.{no_faults}
use frimo_messenger.Postgres.Sessions.{
  create_session, create_session_body, extend_session, select_token, extend_selected, revoke_reused,
  rotate_token, extended, retried, reused, revoke_session,
}
use frimo_messenger.Postgres.Sessions.Rotation.{identity_in}
use frimo_messenger.Postgres.Sessions.Theft.{extend_session-reuse}
use frimo_messenger.Postgres.Sessions.Steps.{
  Steps, here, next, creates, extends, reuse_ends_session,
}
use frimo_messenger.Postgres.Sessions.LiveTokens.{IsRotating, Steps-IsRotating}
use frimo_messenger.Examples.{
  ann_db, laptop, first_token, first_refresh, stolen_refresh, repeated_refresh, laptop_identity,
  phone, phone_token, phone_refresh, phone_identity,
}

-- After the login, after the refresh, and after the theft.
abbrev login_db : Db
login_db = (create_session no_faults laptop first_token ann_db).1

abbrev refreshed_db : Db
refreshed_db = (extend_session no_faults first_refresh login_db).1

abbrev stolen_db : Db
stolen_db = (extend_session no_faults stolen_refresh refreshed_db).1

refreshes :
    extend_session no_faults first_refresh login_db ≡ (extended laptop_identity, refreshed_db)
unfolding create_session create_session_body insert_session insert_refresh_token extend_session
    select_token extend_selected revoke_reused rotate_token find update exists bytes_eq
refreshes = refl

reuse_is_found :
    extend_session no_faults stolen_refresh refreshed_db ≡ (reused laptop_identity, stolen_db)
unfolding create_session create_session_body insert_session insert_refresh_token extend_session
    select_token extend_selected revoke_reused rotate_token find update exists bytes_eq
reuse_is_found = refl

repeat_is_told_apart :
    extend_session no_faults repeated_refresh refreshed_db ≡ (retried laptop_identity, refreshed_db)
unfolding create_session create_session_body insert_session insert_refresh_token extend_session
    select_token extend_selected revoke_reused rotate_token find update exists bytes_eq
repeat_is_told_apart = refl

extend_session-reuse_example : extend_session no_faults stolen_refresh refreshed_db ≡ (
  reused laptop_identity,
  record refreshed_db { sessions = revoke_session 10 300 refreshed_db.sessions },
)
extend_session-reuse_example =
    extend_session-reuse no_faults first_refresh stolen_refresh login_db refreshed_db
      laptop_identity refreshes refl (omega arith) (omega arith)

-- After the theft the user logs in on a phone and refreshes there.
abbrev phone_db : Db
phone_db = (create_session no_faults phone phone_token stolen_db).1

abbrev relogin : Steps stolen_db phone_db
relogin = next here (creates no_faults phone phone_token)

phone_refreshes :
    identity_in (extend_session no_faults phone_refresh phone_db).0 ≡ some phone_identity
unfolding create_session create_session_body insert_session insert_refresh_token extend_session
    select_token extend_selected revoke_reused rotate_token find update exists bytes_eq
phone_refreshes = refl

reuse_ends_session_example : phone_identity.session_id ≢ laptop_identity.session_id
reuse_ends_session_example =
    reuse_ends_session no_faults no_faults stolen_refresh phone_refresh refreshed_db stolen_db
      phone_db laptop_identity phone_identity reuse_is_found relogin phone_refreshes

ann_db-IsRotating : IsRotating ann_db
unfolding count
ann_db-IsRotating = record { sessions_exist = tt; one_live = λ k. omega arith }

abbrev all_steps : Steps ann_db phone_db
all_steps =
    next
      (next
        (next (next here (creates no_faults laptop first_token)) (extends no_faults first_refresh))
        (extends no_faults stolen_refresh))
      (creates no_faults phone phone_token)

Steps-IsRotating_example : IsRotating phone_db
Steps-IsRotating_example = Steps-IsRotating all_steps ann_db-IsRotating
