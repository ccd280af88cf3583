-- ===== src/Postgres/Auth/Silence.antt =====
-- `ResendVerification` with the database up: the outcomes that a client must not tell apart.
use frimo_messenger.Base.{
  ◌≡◌, refl, ◌∙◌, true, false, find, count, exists, leb, str_eq, bytes_eq, ◌==◌, ==-refl, none,
  some, is_null, Bool-cases, Option-cases, inl, inr,
}
use frimo_messenger.Base.Table.Laws.{exists-update_same, exists-of_find, find_also}
use frimo_messenger.Errors.{
  Result, ok, err, sentinel, user_not_found, already_verified, resend_hourly_limit, resend_cooldown,
}
use frimo_messenger.Domain.{ResendVerificationInput}
use frimo_messenger.Postgres.Schema.{
  Db, UserRow, VerificationRow, insert_verification, insert_outbox,
}
use frimo_messenger.Postgres.Link.{no_faults}
use frimo_messenger.Postgres.Auth.{
  resend_verification, resend_verification_body, is_usable, in_last_hour, last_created,
  cooling_down,
}
use frimo_messenger.Postgres.Auth.Resend.{resent}

-- The owner of the email, who has not confirmed it.
pub record IsUnconfirmed (input : ResendVerificationInput) (db : Db) (u : UserRow) : Type 0 where
  pub owner : find (λ r. str_eq r.email input.email) db.users ≡ some u
  pub unverified : is_null u.email_verified_at ≡ true

-- The result and the tables, by what is known of the email.
pub data Outcome (input : ResendVerificationInput) (db : Db) : Result (Unit {0}) → Db → Type 0 where
  unknown :
      find (λ r. str_eq r.email input.email) db.users ≡ none
      → Outcome input db (err (sentinel user_not_found)) db
  confirmed :
      (u : UserRow)
      → find (λ r. str_eq r.email input.email) db.users ≡ some u
      → is_null u.email_verified_at ≡ false
      → Outcome input db (err (sentinel already_verified)) db
  limited :
      (u : UserRow)
      → IsUnconfirmed input db u
      → leb 5 (count (in_last_hour u.id input.requested_at) db.verifications) ≡ true
      → Outcome input db (err (sentinel resend_hourly_limit)) db
  cooling :
      (u : UserRow)
      → IsUnconfirmed input db u
      → leb 5 (count (in_last_hour u.id input.requested_at) db.verifications) ≡ false
      → cooling_down input.requested_at (last_created u.id db.verifications) ≡ true
      → Outcome input db (err (sentinel resend_cooldown)) db
  scheduled :
      (u : UserRow)
      → IsUnconfirmed input db u
      → leb 5 (count (in_last_hour u.id input.requested_at) db.verifications) ≡ false
      → cooling_down input.requested_at (last_created u.id db.verifications) ≡ false
      → Outcome input db (ok tt) (resent input u.id db)

module _ (input : ResendVerificationInput) (db : Db)
    (new_id : exists (λ v. v.id == input.verification.id) db.verifications ≡ false)
    (new_hash : exists (λ v. bytes_eq v.token_hash input.verification.token_hash) db.verifications
      ≡ false)
    (new_event : exists (λ o. o.id == input.outbox_event.id) db.outbox ≡ false) where
  abbrev pub Decided : Type 0
  Decided =
      (x : Result (Unit {0})) × (db' : Db) × (resend_verification no_faults input db ≡ (x, db'))
      × Outcome input db x db'

  inserted :
      (u : UserRow)
      → IsUnconfirmed input db u
      → leb 5 (count (in_last_hour u.id input.requested_at) db.verifications) ≡ false
      → cooling_down input.requested_at (last_created u.id db.verifications) ≡ false
      → Decided
  unfolding resend_verification resend_verification_body insert_verification insert_outbox
  inserted u un few cooled =
      let (row, found) =
        find_also (λ r. str_eq r.email input.email) (λ r. r.id == u.id) db.users u un.owner
          (==-refl u.id) in
      (
        _,
        _,
        rw
            (
              un.owner,
              un.unverified,
              few,
              cooled,
              exists-update_same (λ (v : VerificationRow). v.id == input.verification.id)
                    (is_usable u.id input.requested_at)
                    (λ (v : VerificationRow). record v { revoked_at = some input.requested_at })
                    db.verifications (λ v. refl)
                  ∙ new_id,
              exists-update_same
                    (λ (v : VerificationRow). bytes_eq v.token_hash input.verification.token_hash)
                    (is_usable u.id input.requested_at)
                    (λ (v : VerificationRow). record v { revoked_at = some input.requested_at })
                    db.verifications (λ v. refl)
                  ∙ new_hash,
              exists-of_find (λ r. r.id == u.id) db.users row found,
              new_event,
            )
            refl,
        scheduled u un few cooled,
      )

  unconfirmed : (u : UserRow) → IsUnconfirmed input db u → Decided
  unfolding resend_verification resend_verification_body
  unconfirmed u un =
      elim (Bool-cases (leb 5 (count (in_last_hour u.id input.requested_at) db.verifications))) [
        | inl many ↦ (_, _, rw (un.owner, un.unverified, many) refl, limited u un many)
        | inr few ↦
            elim (Bool-cases
              (cooling_down input.requested_at (last_created u.id db.verifications))) [
                | inl soon ↦
                    (_, _, rw (un.owner, un.unverified, few, soon) refl, cooling u un few soon)
                | inr cooled ↦ inserted u un few cooled
              ]
      ]

  pub resend_verification-decided : Decided
  unfolding resend_verification resend_verification_body
  resend_verification-decided =
      elim (Option-cases (find (λ r. str_eq r.email input.email) db.users)) [
        | inl missing ↦ (_, _, rw missing refl, unknown missing)
        | inr (u, owner) ↦ elim (Bool-cases (is_null u.email_verified_at)) [
          | inl waiting ↦ unconfirmed u (record { owner = owner; unverified = waiting })
          | inr done ↦ (_, _, rw (owner, done) refl, confirmed u owner done)
        ]
      ]
