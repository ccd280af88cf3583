-- ===== src/Postgres/Auth/Resend.antt =====
-- `ResendVerification`: its limits, and that a new token replaces the old ones.
use frimo_messenger.Base.{
  ◌≤◌, ◌<◌, ◌+◌, ◌≡◌, ◌≢◌, inl, inr, false, if◌then◌else◌, ◌∷◌, str_eq, bytes_eq, refl, arith,
  Option, some, none, find, count, update, Bytes, ltb, ◌∙◌, ==-refl, Option-cases, List, [], All,
}
use frimo_messenger.Base.Table.Laws.{find-update, count-update_same, find-cons_miss}
use frimo_messenger.Errors.{ok}
use frimo_messenger.Domain.{Uuid, Time, minute, ResendVerificationInput}
use frimo_messenger.Postgres.Schema.{
  Db, UserRow, VerificationRow, insert_verification, insert_outbox,
}
use frimo_messenger.Postgres.Link.{Faults}
use frimo_messenger.Postgres.Auth.{
  resend_verification, is_usable, revoke_usable, in_last_hour, last_created, cooling_down,
  verification_row, outbox_row, confirm_email,
}
use frimo_messenger.Postgres.Auth.Confirmation.{has_hash, confirm_email-ok}

-- The tables after a token was sent again.
abbrev pub resent : ResendVerificationInput → Uuid → Db → Db
resent input user_id db = record db {
  verifications =
      verification_row user_id input.requested_at input.verification
      ∷ revoke_usable user_id input.requested_at db.verifications;
  outbox = outbox_row input.outbox_event ∷ db.outbox;
}

-- What a request for a new token that succeeded met.
pub record Resends (input : ResendVerificationInput) (db : Db) (u : UserRow) : Type 0 where
  pub owner : find (λ r. str_eq r.email input.email) db.users ≡ some u
  pub unverified : u.email_verified_at ≡ none
  pub below_limit : count (in_last_hour u.id input.requested_at) db.verifications < 5
  pub cooled : cooling_down input.requested_at (last_created u.id db.verifications) ≡ false

module _ (f : Faults) (input : ResendVerificationInput) (db db' : Db)
    (sent : resend_verification f input db ≡ (ok tt, db')) where
  has_owner : (u : UserRow) × (find (λ r. str_eq r.email input.email) db.users ≡ some u)
  unfolding resend_verification
  has_owner = elim (Option-cases (find (λ r. str_eq r.email input.email) db.users)) [
    | inr there ↦ there
    | inl e ↦ absurd (ground (arith, e))
  ]

  found-ok :
      (u : UserRow)
      → find (λ r. str_eq r.email input.email) db.users ≡ some u
      → Resends input db u × (db' ≡ resent input u.id db)
  unfolding resend_verification insert_verification insert_outbox
  found-ok u owner = ground (arith, owner)

  pub resend_verification-ok : (u : UserRow) × Resends input db u × (db' ≡ resent input u.id db)
  resend_verification-ok = let (u, owner) = has_owner in let (r, e) = found-ok u owner in (u, r, e)

-- No row that the update leaves is usable at that time or later.
revoke_usable-none :
    (user_id : Uuid) (now later : Time) (vs : List VerificationRow)
    → now ≤ later
    → count (is_usable user_id later) (revoke_usable user_id now vs) ≡ 0
unfolding count update
revoke_usable-none user_id now later [] h = refl
revoke_usable-none user_id now later (v ∷ vs) h =
    ground (arith, revoke_usable-none user_id now later vs h)

-- The hour's count does not depend on the revocation.
in_last_hour-revoke :
    (user_id : Uuid) (now : Time) (vs : List VerificationRow)
    → count (in_last_hour user_id now) (revoke_usable user_id now vs)
      ≡ count (in_last_hour user_id now) vs
in_last_hour-revoke user_id now vs = count-update_same _ _ _ vs (λ v. refl)

-- The row was made at least a minute before `now`, if it is the user's.
abbrev pub IsOld : Uuid → Time → VerificationRow → Type 0
IsOld user_id now v = v.user_id ≡ user_id → v.created_at + minute ≤ now

abbrev IsOldTime : Option Time → Time → Type 0
IsOldTime none now = Unit
IsOldTime (some t) now = t + minute ≤ now

-- `MAX(created_at)` stands for every row of the user.
last_created-IsOld :
    (user_id : Uuid) (now : Time) (vs : List VerificationRow)
    → IsOldTime (last_created user_id vs) now
    → All (IsOld user_id now) vs
unfolding last_created
last_created-IsOld user_id now [] h = tt
last_created-IsOld user_id now (v ∷ vs) h =
    (λ e. ground arith, last_created-IsOld user_id now vs (ground arith))

cooled-IsOldTime : (now : Time) (o : Option Time) → cooling_down now o ≡ false → IsOldTime o now
cooled-IsOldTime now none h = tt
cooled-IsOldTime now (some t) h = ground arith

module _ (f : Faults) (input : ResendVerificationInput) (db db' : Db)
    (sent : resend_verification f input db ≡ (ok tt, db')) where
  -- After a request that succeeded, the user of the email has at most five tokens that were made
  -- within the last hour, and each that was there before was made at least a minute earlier.
  pub resend_verification_limits :
      (u : UserRow) × (find (λ r. str_eq r.email input.email) db.users ≡ some u)
      × (count (in_last_hour u.id input.requested_at) db'.verifications ≤ 5)
      × All (IsOld u.id input.requested_at) db.verifications
  unfolding count
  resend_verification_limits =
      let (u, r, e) = resend_verification-ok f input db db' sent in
      (
        u,
        r.owner,
        rw e (
            ground
              (arith, r.below_limit, in_last_hour-revoke u.id input.requested_at db.verifications)),
        last_created-IsOld u.id input.requested_at db.verifications
            (cooled-IsOldTime input.requested_at (last_created u.id db.verifications) r.cooled),
      )

  -- A request that succeeded leaves the user at most one usable token, now and later: the new one.
  pub resend_verification_one_usable :
      (later : Time)
      → input.requested_at ≤ later
      → (u : UserRow) × (find (λ r. str_eq r.email input.email) db.users ≡ some u)
        × (count (is_usable u.id later) db'.verifications
            ≡ (if ltb later input.verification.expires_at then 1 else 0))
  unfolding count
  resend_verification_one_usable later h =
      let (u, r, e) = resend_verification-ok f input db db' sent in
      (
        u,
        r.owner,
        rw e (
            ground (
              arith,
              ==-refl u.id,
              revoke_usable-none u.id input.requested_at later db.verifications h,
            )),
      )

  -- It replaces the tokens from before: none of the user's confirms any more, whenever it is sent.
  pub resend_verification_replaces :
      (g : Faults) (token_hash : Bytes) (later : Time) (last : Db) (u : UserRow)
      (v : VerificationRow)
      → find (λ r. str_eq r.email input.email) db.users ≡ some u
      → find (has_hash token_hash) db.verifications ≡ some v
      → v.user_id ≡ u.id
      → bytes_eq input.verification.token_hash token_hash ≡ false
      → input.requested_at ≤ later
      → confirm_email g token_hash later db' ≢ (ok tt, last)
  resend_verification_replaces g token_hash later last u v owner token own other h confirms =
      let (u', r, e) = resend_verification-ok f input db db' sent in
      let same : u' ≡ u = ground (arith, owner, r.owner) in
      let (v', w, c, _) = confirm_email-ok g token_hash later db' last confirms in
      let after : find (has_hash token_hash) db'.verifications
          ≡ some (
              if is_usable u'.id input.requested_at v
              then record v { revoked_at = some input.requested_at }
              else v) =
        rw e (
          find-cons_miss _ _ _ other
          ∙ find-update (has_hash token_hash) (is_usable u'.id input.requested_at)
              (λ r. record r { revoked_at = some input.requested_at }) db.verifications (λ r. refl)
              v token) in
      ground (arith, after, c.token, c.unused, c.unrevoked, c.unexpired, own, same)
