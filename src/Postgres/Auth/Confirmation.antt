-- ===== src/Postgres/Auth/Confirmation.antt =====
-- `ConfirmEmail`: which tokens confirm an address, and that a token does so once.
use frimo_messenger.Base.{
  String, suc, ◌<◌, ◌≡◌, ◌≢◌, inl, inr, Bool, false, if◌then◌else◌, bytes_eq, ◌==◌, exists, refl,
  arith, eq_iff, some, none, find, count, Bytes, is_null, ltb, not, ◌∙◌, Option-cases, ==-refl,
  bytes_eq_refl, ap, ◌&&◌, update,
}
use frimo_messenger.Base.Table.Laws.{
  find-update, find_sound, count-zero, count-cons_hit, find-cons_hit, find-and,
}
use frimo_messenger.Errors.{
  Result, ok, err, sentinel, used_token, revoked_token, expired_token, already_verified,
}
use frimo_messenger.Domain.{Uuid, Time, User, CreateUserInput}
use frimo_messenger.Postgres.Schema.{Db, UserRow, VerificationRow}
use frimo_messenger.Postgres.Link.{Faults, no_faults}
use frimo_messenger.Postgres.Auth.{
  confirm_email, create_user, get_user_for_login, use_token, verify_user, verification_row,
  user_row,
}
use frimo_messenger.Postgres.Auth.Registration.{registered, create_user-ok}

-- The tables after a confirmation.
abbrev pub confirmed : Uuid → Bytes → Time → Db → Db
confirmed user_id token_hash now db = record db {
  verifications = use_token token_hash now db.verifications;
  users = verify_user user_id now db.users;
}

abbrev pub has_hash : Bytes → VerificationRow → Bool
has_hash token_hash v = bytes_eq v.token_hash token_hash

-- The token and its owner are there, and the token may confirm the owner's address at `now`.
pub record Confirms (token_hash : Bytes) (now : Time) (db : Db) (v : VerificationRow) (u : UserRow)
    : Type 0 where
  pub token : find (has_hash token_hash) db.verifications ≡ some v
  pub owner : find (λ r. r.id == v.user_id) db.users ≡ some u
  pub unused : v.used_at ≡ none
  pub unrevoked : v.revoked_at ≡ none
  pub unexpired : now < v.expires_at
  pub unverified : u.email_verified_at ≡ none

module _ (f : Faults) (token_hash : Bytes) (now : Time) (db : Db) where
  module _ (v : VerificationRow)
      (token : find (has_hash token_hash) db.verifications ≡ some v) where
    -- The second query by the hash, which also names the owner, finds the row of the first.
    abbrev found_again :
        find (λ r. has_hash token_hash r && (r.user_id == v.user_id)) db.verifications ≡ some v
    found_again = find-and _ (λ r. r.user_id == v.user_id) _ v token (==-refl v.user_id)

    has_owner :
        (db' : Db)
        → confirm_email f token_hash now db ≡ (ok tt, db')
        → (u : UserRow) × (find (λ r. r.id == v.user_id) db.users ≡ some u)
    unfolding confirm_email
    has_owner db' h = elim (Option-cases (find (λ r. r.id == v.user_id) db.users)) [
      | inr there ↦ there
      | inl e ↦ absurd (ground (arith, token, e))
    ]

    found-ok :
        (db' : Db) (u : UserRow)
        → find (λ r. r.id == v.user_id) db.users ≡ some u
        → confirm_email f token_hash now db ≡ (ok tt, db')
        → Confirms token_hash now db v u × (db' ≡ confirmed v.user_id token_hash now db)
    unfolding confirm_email
    found-ok db' u owner h = ground (arith, token, found_again)

  has_token :
      (db' : Db)
      → confirm_email f token_hash now db ≡ (ok tt, db')
      → (v : VerificationRow) × (find (has_hash token_hash) db.verifications ≡ some v)
  unfolding confirm_email
  has_token db' h = elim (Option-cases (find (has_hash token_hash) db.verifications)) [
    | inr there ↦ there
    | inl e ↦ absurd (ground (arith, e))
  ]

  -- A confirmation that succeeds met a token that may confirm, and changed nothing but the token and
  -- its owner.
  pub confirm_email-ok :
      (db' : Db)
      → confirm_email f token_hash now db ≡ (ok tt, db')
      → (v : VerificationRow) × (u : UserRow) × Confirms token_hash now db v u
        × (db' ≡ confirmed v.user_id token_hash now db)
  confirm_email-ok db' h =
      let (v, token) = has_token db' h in
      let (u, owner) = has_owner v token db' h in
      let (c, e) = found-ok v token db' u owner h in (v, u, c, e)

-- The answer to a token that is there, with the server up: the first of its faults, in this order.
abbrev pub verdict : Time → VerificationRow → UserRow → Result (Unit {0})
verdict now v u =
    if not (is_null v.used_at)
    then err (sentinel used_token)
    else if not (is_null v.revoked_at)
    then err (sentinel revoked_token)
    else if not (ltb now v.expires_at)
    then err (sentinel expired_token)
    else if is_null u.email_verified_at
    then ok tt
    else err (sentinel already_verified)

-- With the server up, the token, its owner and the time decide the answer; the tables change only
-- on success. Users have distinct identifiers.
pub confirm_email_decides :
    (token_hash : Bytes) (now : Time) (db : Db) (v : VerificationRow) (u : UserRow)
    → find (has_hash token_hash) db.verifications ≡ some v
    → find (λ r. r.id == v.user_id) db.users ≡ some u
    → count (λ r. r.id == v.user_id) db.users ≡ 1
    → confirm_email no_faults token_hash now db ≡ (
      verdict now v u,
      elim (verdict now v u) [ ok x ↦ confirmed v.user_id token_hash now db | err e ↦ db ],
    )
unfolding confirm_email
confirm_email_decides token_hash now db v u token owner one =
    ground (arith, found_again no_faults token_hash now db v token)

-- A token confirms at most once: after it did, no later call with it succeeds, whatever the time and
-- the faults.
pub confirm_email_once :
    (f g : Faults) (token_hash : Bytes) (now later : Time) (db db' db'' : Db)
    → confirm_email f token_hash now db ≡ (ok tt, db')
    → confirm_email g token_hash later db' ≢ (ok tt, db'')
confirm_email_once f g token_hash now later db db' db'' h h' =
    let (v, u, c, e) = confirm_email-ok f token_hash now db db' h in
    let (v', u', c', e') = confirm_email-ok g token_hash later db' db'' h' in
    let after : find (has_hash token_hash) db'.verifications
        ≡ some (record v { used_at = some now; token_ciphertext = none }) =
      rw e (
        find-update (has_hash token_hash) (has_hash token_hash)
          (λ r. record r { used_at = some now; token_ciphertext = none }) db.verifications
          (λ r. refl) v c.token
        ∙ ground (arith, find_sound (has_hash token_hash) db.verifications v c.token)) in
    cc (after, c'.token, c'.unused)

module _ (input : CreateUserInput) (now : Time) (db : Db) where
  abbrev token_of : Bytes
  token_of = input.verification.token_hash

  confirm-registered :
      exists (λ r. r.id == input.id) db.users ≡ false
      → now < input.verification.expires_at
      → confirm_email no_faults token_of now (registered input db)
        ≡ (ok tt, confirmed input.id token_of now (registered input db))
  confirm-registered free soon =
      confirm_email_decides token_of now (registered input db)
        (verification_row input.id input.created_at input.verification) (user_row input)
        (find-cons_hit _ _ _ (bytes_eq_refl token_of)) (find-cons_hit _ _ _ (==-refl input.id))
        (count-cons_hit _ _ _ (==-refl input.id) ∙ ap suc (count-zero _ db.users free))
      ∙ ground arith

  login-confirmed :
      get_user_for_login no_faults input.email
        (confirmed input.id token_of now (registered input db))
      ≡ ok (record { id = input.id; password_hash = input.password_hash; verified_at = some now })
  unfolding get_user_for_login find update
  login-confirmed = ground (arith, eq_iff input.email input.email, ==-refl input.id)

-- After a registration that succeeded, under any faults, and with the server up for the calls that
-- follow: `ConfirmEmail` with the token of the registration, before it expires, on the tables as
-- the registration left them, verifies the user, and `GetUserForLogin` by the address then finds that
-- user as verified.
pub register_confirm_login :
    (lower : String → String) (f : Faults) (input : CreateUserInput) (now : Time) (db db' : Db)
    (u : User)
    → create_user lower f input db ≡ (ok u, db')
    → now < input.verification.expires_at
    → (confirm_email no_faults input.verification.token_hash now db'
        ≡ (ok tt, confirmed input.id input.verification.token_hash now db'))
      × (get_user_for_login no_faults input.email
            (confirmed input.id input.verification.token_hash now db')
          ≡ ok (record {
            id = input.id;
            password_hash = input.password_hash;
            verified_at = some now;
          }))
register_confirm_login lower f input now db db' u h soon =
    let (e, d, free, email, hash) = create_user-ok lower f input db db' u h in
    rw d (confirm-registered input now db free soon, login-confirmed input now db)
