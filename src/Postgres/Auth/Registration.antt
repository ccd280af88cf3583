-- ===== src/Postgres/Auth/Registration.antt =====
-- `CreateUser`: the user, the verification and the event are written together or not at all.
use frimo_messenger.Base.{
  String, ◌≡◌, ◌⊎◌, false, if◌then◌else◌, ◌∷◌, str_eq, bytes_eq, ◌==◌, exists, ==-refl, arith,
}
use frimo_messenger.Errors.{Result, ok, err, sentinel, email_already_exists}
use frimo_messenger.Domain.{User, CreateUserInput}
use frimo_messenger.Postgres.Schema.{Db, insert_user, insert_verification, insert_outbox}
use frimo_messenger.Postgres.Link.{Faults, no_faults}
use frimo_messenger.Postgres.Auth.{create_user, user_row, verification_row, outbox_row}

-- The tables after a registration.
abbrev pub registered : CreateUserInput → Db → Db
registered input db = record db {
  users = user_row input ∷ db.users;
  verifications = verification_row input.id input.created_at input.verification ∷ db.verifications;
  outbox = outbox_row input.outbox_event ∷ db.outbox;
}

abbrev pub created : CreateUserInput → User
created input = record { id = input.id; email = input.email; created_at = input.created_at }

-- A result stands for all three rows, an error for all or none.
abbrev pub IsAllOrNone : CreateUserInput → Db → Result User × Db → Type 0
IsAllOrNone input db (ok u, db') = (u ≡ created input) × (db' ≡ registered input db)
IsAllOrNone input db (err e, db') = (db' ≡ db) ⊎ (db' ≡ registered input db)

module _ (lower : String → String) where
  -- What a registration that succeeded met and did.
  pub create_user-ok :
      (f : Faults) (input : CreateUserInput) (db db' : Db) (u : User)
      → create_user lower f input db ≡ (ok u, db')
      → (u ≡ created input)
        × (db' ≡ registered input db)
        × (exists (λ r. r.id == input.id) db.users ≡ false)
        × (exists (λ r. str_eq (lower r.email) (lower input.email)) db.users ≡ false)
        × (exists (λ v. bytes_eq v.token_hash input.verification.token_hash) db.verifications
            ≡ false)
  unfolding create_user insert_user insert_verification insert_outbox
  create_user-ok f input db db' u h = ground arith

  -- Whatever the faults, `CreateUser` adds all three rows or none: with a result it added them, and
  -- the result is the user; with an error it may have done either, since the answer to the commit
  -- can be lost.
  pub create_user_atomic :
      (f : Faults) (input : CreateUserInput) (db : Db)
      → IsAllOrNone input db (create_user lower f input db)
  unfolding create_user insert_user insert_verification insert_outbox
  create_user_atomic f input db = ground arith

  -- With the server up, and identifiers and a token hash that are not there yet, `CreateUser` refuses
  -- exactly an email that some row has in any case, and else adds the three rows.
  pub create_user_decides :
      (input : CreateUserInput) (db : Db)
      → exists (λ r. r.id == input.id) db.users ≡ false
      → exists (λ v. v.id == input.verification.id) db.verifications ≡ false
      → exists (λ v. bytes_eq v.token_hash input.verification.token_hash) db.verifications ≡ false
      → exists (λ o. o.id == input.outbox_event.id) db.outbox ≡ false
      → create_user lower no_faults input db ≡ (
          if exists (λ r. str_eq (lower r.email) (lower input.email)) db.users
          then (err (sentinel email_already_exists), db)
          else (ok (created input), registered input db))
  unfolding create_user insert_user insert_verification insert_outbox exists
  create_user_decides input db a b c d = ground (arith, ==-refl input.id)
