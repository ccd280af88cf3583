-- ===== src/Postgres/Schema.antt =====
-- The tables of migrations/postgres that the repositories read and write, a record for each row,
-- and what an INSERT checks. A row that is inserted stands in front.
use frimo_messenger.Base.{
  ℕ, String, Bool, Option, List, ◌∷◌, Bytes, bytes_eq, str_eq, ◌==◌, exists, if◌then◌else◌,
}
use frimo_messenger.Errors.{pg, Result, ok, err}
use frimo_messenger.Domain.{Uuid, Time, Address, Payload}

pub record UserRow : Type 0 where
  pub id : Uuid
  pub email : String
  pub password_hash : String
  pub email_verified_at : Option Time
  pub created_at : Time

pub record VerificationRow : Type 0 where
  pub id : Uuid
  pub user_id : Uuid
  pub token_hash : Bytes
  pub token_ciphertext : Option Bytes
  pub expires_at : Time
  pub used_at : Option Time
  pub revoked_at : Option Time
  pub created_at : Time

pub record OutboxRow : Type 0 where
  pub id : Uuid
  pub event_type : String
  pub payload : Payload
  pub created_at : Time
  pub available_at : Time
  pub locked_at : Option Time
  pub lock_id : Option Uuid
  pub processed_at : Option Time
  pub failed_at : Option Time
  pub attempts : ℕ
  pub last_error : Option String

pub record SessionRow : Type 0 where
  pub id : Uuid
  pub user_id : Uuid
  pub device_name : String
  pub created_ip : Address
  pub last_ip : Address
  pub created_at : Time
  pub last_seen_at : Time
  pub expires_at : Time
  pub revoked_at : Option Time

pub record RefreshTokenRow : Type 0 where
  pub id : Uuid
  pub session_id : Uuid
  pub token_hash : Bytes
  pub created_at : Time
  pub used_at : Option Time
  pub request_id : Option Uuid

pub record Db : Type 0 where
  pub users : List UserRow
  pub verifications : List VerificationRow
  pub outbox : List OutboxRow
  pub sessions : List SessionRow
  pub refresh_tokens : List RefreshTokenRow

-- The codes of a unique and of a foreign key violation.
abbrev pub unique_violation_code : String
unique_violation_code = "23505"

abbrev pub foreign_key_violation_code : String
foreign_key_violation_code = "23503"

abbrev pub users_email_unique_idx : String
users_email_unique_idx = "users_email_unique_idx"

abbrev unique {ℓ} : {A : Type ℓ} → Bool → String → Result A → Result A
unique taken constraint next = if taken then err (pg unique_violation_code constraint) else next

abbrev references {ℓ} : {A : Type ℓ} → Bool → String → Result A → Result A
references there constraint next =
    if there then next else err (pg foreign_key_violation_code constraint)

-- The index on users is on `lower(email)`, so it compares by the database's `lower`.
unfoldable pub insert_user : (String → String) → UserRow → Db → Result Db
insert_user lower row db = unique (exists (λ u. u.id == row.id) db.users) "users_pkey" (
    unique (exists (λ u. str_eq (lower u.email) (lower row.email)) db.users) users_email_unique_idx
      (ok (record db { users = row ∷ db.users })))

unfoldable pub insert_verification : VerificationRow → Db → Result Db
insert_verification row db =
    unique (exists (λ v. v.id == row.id) db.verifications) "email_verifications_pkey" (
      unique (exists (λ v. bytes_eq v.token_hash row.token_hash) db.verifications)
        "email_verifications_token_hash_key"
        (references (exists (λ u. u.id == row.user_id) db.users) "email_verifications_user_id_fkey"
          (ok (record db { verifications = row ∷ db.verifications }))))

unfoldable pub insert_outbox : OutboxRow → Db → Result Db
insert_outbox row db =
    unique (exists (λ o. o.id == row.id) db.outbox) "outbox_events_pkey"
      (ok (record db { outbox = row ∷ db.outbox }))

unfoldable pub insert_session : SessionRow → Db → Result Db
insert_session row db = unique (exists (λ s. s.id == row.id) db.sessions) "auth_sessions_pkey" (
    references (exists (λ u. u.id == row.user_id) db.users) "auth_sessions_user_id_fkey"
      (ok (record db { sessions = row ∷ db.sessions })))

unfoldable pub insert_refresh_token : RefreshTokenRow → Db → Result Db
insert_refresh_token row db =
    unique (exists (λ t. t.id == row.id) db.refresh_tokens) "refresh_tokens_pkey" (
      unique (exists (λ t. bytes_eq t.token_hash row.token_hash) db.refresh_tokens)
        "refresh_tokens_token_hash_key"
        (references (exists (λ s. s.id == row.session_id) db.sessions)
          "refresh_tokens_session_id_fkey"
          (ok (record db { refresh_tokens = row ∷ db.refresh_tokens }))))
