-- ===== src/Postgres/Checks.antt =====
-- The CHECK constraints of migrations/postgres, under every call that changes the tables.
use frimo_messenger.Base.{
  ◌≡◌, refl, ap, ◌⊎◌, inl, inr, Bool, true, ◌&&◌, ◌||◌, not, Option, is_null, ◌∷◌, All, update,
  arith, String, Bytes,
}
use frimo_messenger.Base.Table.Laws.{All-update}
use frimo_messenger.Errors.{Result, ok, err}
use frimo_messenger.Domain.{
  Uuid, Time, User, Event, CreateUserInput, ResendVerificationInput, Session, RefreshToken,
  ExtendSessionInput,
}
use frimo_messenger.Postgres.Schema.{
  insert_verification, insert_outbox, Db, OutboxRow, RefreshTokenRow,
}
use frimo_messenger.Postgres.Link.{Fault, Faults}
use frimo_messenger.Postgres.Auth.{
  confirm_email_body, resend_verification_body, create_user, confirm_email, resend_verification,
  outbox_row,
}
use frimo_messenger.Postgres.Auth.Registration.{IsAllOrNone, create_user_atomic}
use frimo_messenger.Postgres.Sessions.{create_session, extend_session}
use frimo_messenger.Postgres.Sessions.Rotation.{rotated, extend_session_cases}
use frimo_messenger.Postgres.Sessions.Steps.{create_session_cases}
use frimo_messenger.Postgres.Outbox.{
  claim_next, mark_processed, schedule_retry, mark_failed, claim_row, process_row, retry_row,
  fail_row,
}
use frimo_messenger.Postgres.Outbox.Claims.{claim_next_cases}
use frimo_messenger.Postgres.Outbox.Actions.{affected_cases}

-- Both columns are NULL, or neither is.
abbrev both_or_none {ℓ κ} : {A : Type ℓ} {B : Type κ} → Option A → Option B → Bool
both_or_none a b = is_null a && is_null b || (not (is_null a) && not (is_null b))

-- `outbox_events_lock_consistency`.
abbrev pub lock_consistency : OutboxRow → Bool
lock_consistency o = both_or_none o.locked_at o.lock_id

-- The CHECK of refresh_tokens.
abbrev pub use_consistency : RefreshTokenRow → Bool
use_consistency t = both_or_none t.used_at t.request_id

-- The rows satisfy the CHECKs of their tables. `attempts >= 0` holds of every ℕ.
pub record IsChecked (db : Db) : Type 0 where
  pub locks : All (λ o. lock_consistency o ≡ true) db.outbox
  pub uses : All (λ t. use_consistency t ≡ true) db.refresh_tokens

-- A call of the repositories that changes the tables.
pub data Change (db : Db) : Db → Type 0 where
  creates_user :
      (lower : String → String) (f : Faults) (input : CreateUserInput)
      → Change db (create_user lower f input db).1
  confirms : (f : Faults) (hash : Bytes) (now : Time) → Change db (confirm_email f hash now db).1
  resends :
      (f : Faults) (input : ResendVerificationInput) → Change db (resend_verification f input db).1
  creates_session :
      (f : Faults) (session : Session) (token : RefreshToken)
      → Change db (create_session f session token db).1
  extends : (f : Faults) (input : ExtendSessionInput) → Change db (extend_session f input db).1
  claims :
      (busy : Uuid → Bool) (f : Fault) (lock_id : Uuid) (now before : Time)
      → Change db (claim_next busy f lock_id now before db).1
  processes :
      (f : Fault) (event_id lock_id : Uuid) (now : Time)
      → Change db (mark_processed f event_id lock_id now db).1
  retries :
      (f : Fault) (event_id lock_id : Uuid) (at : Time) (message : String)
      → Change db (schedule_retry f event_id lock_id at message db).1
  fails :
      (f : Fault) (event_id lock_id : Uuid) (now : Time) (message : String)
      → Change db (mark_failed f event_id lock_id now message db).1

pub data Changes (db : Db) : Db → Type 0 where
  here : Changes db db
  next : {u v : Db} → Changes db u → Change u v → Changes db v

update-locks :
    (p : OutboxRow → Bool) (g : OutboxRow → OutboxRow) (db : Db)
    → ((o : OutboxRow) → lock_consistency (g o) ≡ true)
    → IsChecked db
    → IsChecked (record db { outbox = update p g db.outbox })
update-locks p g db step v = record {
  locks = All-update p g db.outbox (λ o hit l. step o) v.locks;
  uses = v.uses;
}

-- What the calls of auth_repository.go leave of the two tables.
abbrev Queues : Db → Db → Type 0
Queues db db' =
    (db'.refresh_tokens ≡ db.refresh_tokens)
    × ((db'.outbox ≡ db.outbox) ⊎ ((e : Event) × (db'.outbox ≡ outbox_row e ∷ db.outbox)))

queued-IsChecked : (db db' : Db) → Queues db db' → IsChecked db → IsChecked db'
queued-IsChecked db db' (tokens, inl same) v = record {
  locks = rw same v.locks;
  uses = rw tokens v.uses;
}
queued-IsChecked db db' (tokens, inr (e, added)) v = record {
  locks = rw added (refl, v.locks);
  uses = rw tokens v.uses;
}

create_user-Queues :
    (lower : String → String) (f : Faults) (input : CreateUserInput) (db : Db)
    (r : Result User × Db)
    → IsAllOrNone input db r
    → Queues db r.1
create_user-Queues lower f input db (ok u, db') (a, b) =
    (ap (λ d. d.refresh_tokens) b, inr (input.outbox_event, ap (λ d. d.outbox) b))
create_user-Queues lower f input db (err e, db') (inl b) =
    (ap (λ d. d.refresh_tokens) b, inl (ap (λ d. d.outbox) b))
create_user-Queues lower f input db (err e, db') (inr b) =
    (ap (λ d. d.refresh_tokens) b, inr (input.outbox_event, ap (λ d. d.outbox) b))

pub confirm_email-Queues :
    (f : Faults) (hash : Bytes) (now : Time) (db : Db)
    → ((confirm_email f hash now db).1.refresh_tokens ≡ db.refresh_tokens)
      × ((confirm_email f hash now db).1.outbox ≡ db.outbox)
unfolding confirm_email confirm_email_body
confirm_email-Queues f hash now db = (ground arith, ground arith)

resend_verification-tokens :
    (f : Faults) (input : ResendVerificationInput) (db : Db)
    → (resend_verification f input db).1.refresh_tokens ≡ db.refresh_tokens
unfolding resend_verification resend_verification_body insert_verification insert_outbox
resend_verification-tokens f input db = ground arith

resend_verification-outbox :
    (f : Faults) (input : ResendVerificationInput) (db : Db)
    → ((resend_verification f input db).1.outbox ≡ db.outbox)
      ⊎ ((resend_verification f input db).1.outbox ≡ outbox_row input.outbox_event ∷ db.outbox)
unfolding resend_verification resend_verification_body insert_verification insert_outbox
resend_verification-outbox f input db = ground arith

rotated-IsChecked :
    (input : ExtendSessionInput) (t : RefreshTokenRow) (db : Db)
    → IsChecked db
    → IsChecked (rotated input t db)
rotated-IsChecked input t db v = record {
  locks = v.locks;
  uses = (refl, All-update _ _ db.refresh_tokens (λ r hit h. refl) v.uses);
}

Change-IsChecked : {db db' : Db} → Change db db' → IsChecked db → IsChecked db'
unfolding mark_processed schedule_retry mark_failed
Change-IsChecked {db} (creates_user lower f input) v =
    queued-IsChecked db _
      (create_user-Queues lower f input db (create_user lower f input db)
        (create_user_atomic lower f input db))
      v
Change-IsChecked {db} (confirms f hash now) v =
    let (tokens, outbox) = confirm_email-Queues f hash now db in
    queued-IsChecked db _ (tokens, inl outbox) v
Change-IsChecked {db} (resends f input) v = elim (resend_verification-outbox f input db) [
  | inl same ↦ queued-IsChecked db _ (resend_verification-tokens f input db, inl same) v
  | inr added ↦
      queued-IsChecked db _ (resend_verification-tokens f input db, inr (input.outbox_event, added))
        v
]
Change-IsChecked {db} (creates_session f session token) v =
    create_session_cases IsChecked f session token db v
      (λ free. record { locks = v.locks; uses = (refl, v.uses) })
Change-IsChecked {db} (extends f input) v =
    extend_session_cases IsChecked f input db v (λ t s x a u n. rotated-IsChecked input t db v)
      (λ t s x a u n. record { locks = v.locks; uses = v.uses })
Change-IsChecked {db} (claims busy f lock_id now before) v =
    claim_next_cases IsChecked busy f lock_id now before db v
      (λ o found c. update-locks _ (claim_row lock_id now) db (λ r. refl) v)
Change-IsChecked {db} (processes f event_id lock_id now) v =
    affected_cases IsChecked "mark outbox event processed" f db _ (process_row now) v
      (update-locks _ (process_row now) db (λ r. refl) v)
Change-IsChecked {db} (retries f event_id lock_id at message) v =
    affected_cases IsChecked "schedule outbox retry" f db _ (retry_row at message) v
      (update-locks _ (retry_row at message) db (λ r. refl) v)
Change-IsChecked {db} (fails f event_id lock_id now message) v =
    affected_cases IsChecked "mark outbox event failed" f db _ (fail_row now message) v
      (update-locks _ (fail_row now message) db (λ r. refl) v)

-- Whatever calls of the repositories change the tables, with whatever faults, the rows of the queue
-- have both a lock and its time or neither, and the refresh tokens have both a time of use and an
-- operation or neither, if they had before: the CHECKs that the schema has for them.
pub Changes-IsChecked : {db db' : Db} → Changes db db' → IsChecked db → IsChecked db'
Changes-IsChecked here v = v
Changes-IsChecked (next r c) v = Change-IsChecked c (Changes-IsChecked r v)
