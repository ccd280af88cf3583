-- ===== src/Postgres/Sessions/Rotation.antt =====
-- `ExtendSession`: what each outcome says of the tables.
use frimo_messenger.Base.{
  ◌+◌, Option, ◌≡◌, refl, Bool, true, false, none, some, ◌∷◌, bytes_eq, ◌==◌, is_null, find, exists,
  arith, not,
}
use frimo_messenger.Errors.{Result, ok, err}
use frimo_messenger.Domain.{Identity, ExtendSessionInput}
use frimo_messenger.Postgres.Schema.{Db, SessionRow, RefreshTokenRow, insert_refresh_token}
use frimo_messenger.Postgres.Link.{Faults}
use frimo_messenger.Postgres.Sessions.{
  Extension, extend_found, extended, retried, reused, failed, select_token, extend_selected,
  extend_session, is_inactive, use_refresh_token, refresh_token_row, prolong_session, same_request,
  revoke_session,
}

-- The rows that the call finds: the token with the hash that was sent, and its session.
pub record Selects (input : ExtendSessionInput) (db : Db) (t : RefreshTokenRow) (s : SessionRow)
    : Type 0 where
  pub token :
      find (λ r. bytes_eq r.token_hash input.old_refresh_token_hash) db.refresh_tokens ≡ some t
  pub session : find (λ r. r.id == t.session_id) db.sessions ≡ some s

pub select_token-Selects :
    (f : Faults) (input : ExtendSessionInput) (db : Db) (t : RefreshTokenRow) (s : SessionRow)
    → select_token f input db ≡ ok (t, s)
    → Selects input db t s
unfolding select_token
select_token-Selects f input db t s h = ground arith

abbrev pub identity_of : RefreshTokenRow → SessionRow → Identity
identity_of t s = record { user_id = s.user_id; session_id = t.session_id }

-- The tables after a rotation: the old token is used by the operation, the new one stands in front
-- of it, and the session ends later.
abbrev pub rotated : ExtendSessionInput → RefreshTokenRow → Db → Db
rotated input t db = record db {
  refresh_tokens =
      refresh_token_row t.session_id input.new_refresh_token
      ∷ use_refresh_token t.id input.operation_id input.new_refresh_token.created_at
          db.refresh_tokens;
  sessions =
      prolong_session t.session_id (input.new_refresh_token.created_at + input.session_lifetime)
        db.sessions;
}

-- The tables after a used token came back.
abbrev pub revoked : ExtendSessionInput → RefreshTokenRow → Db → Db
revoked input t db = record db {
  sessions = revoke_session t.session_id input.new_refresh_token.created_at db.sessions;
}

abbrev pub is_fresh : ExtendSessionInput → RefreshTokenRow → Db → Bool
is_fresh input t db = not (
    exists (λ r. bytes_eq r.token_hash input.new_refresh_token.token_hash)
      (use_refresh_token t.id input.operation_id input.new_refresh_token.created_at
        db.refresh_tokens))

-- Whatever the faults, the tables are as before, rotated or revoked.
extend_selected_cases {ℓ} :
    (P : Db → Type ℓ) (f : Faults) (input : ExtendSessionInput) (t : RefreshTokenRow)
    (s : SessionRow) (db : Db)
    → P db
    → (is_inactive s input.new_refresh_token.created_at ≡ false
        → t.used_at ≡ none
        → is_fresh input t db ≡ true
        → P (rotated input t db))
    → (is_inactive s input.new_refresh_token.created_at ≡ false
        → is_null t.used_at ≡ false
        → same_request t.request_id input.operation_id ≡ false
        → P (revoked input t db))
    → P (extend_selected f input t s db).1
unfolding extend_selected insert_refresh_token
extend_selected_cases P f input t s db same rotates revokes = ground arith

extend_selected-extended :
    (f : Faults) (input : ExtendSessionInput) (t : RefreshTokenRow) (s : SessionRow) (db db' : Db)
    (i : Identity)
    → extend_selected f input t s db ≡ (extended i, db')
    → (is_inactive s input.new_refresh_token.created_at ≡ false)
      × (t.used_at ≡ none)
      × (is_fresh input t db ≡ true)
      × (i ≡ identity_of t s)
      × (db' ≡ rotated input t db)
unfolding extend_selected insert_refresh_token
extend_selected-extended f input t s db db' i h = ground arith

extend_selected-reused :
    (f : Faults) (input : ExtendSessionInput) (t : RefreshTokenRow) (s : SessionRow) (db db' : Db)
    (i : Identity)
    → extend_selected f input t s db ≡ (reused i, db')
    → (is_inactive s input.new_refresh_token.created_at ≡ false)
      × (is_null t.used_at ≡ false)
      × (same_request t.request_id input.operation_id ≡ false)
      × (i ≡ identity_of t s)
      × (db' ≡ revoked input t db)
unfolding extend_selected insert_refresh_token
extend_selected-reused f input t s db db' i h = ground arith

module _ {ℓ} (P : Db → Type ℓ) (f : Faults) (input : ExtendSessionInput) (db : Db)
    (same : P db) where
  extend_found_cases :
      (r : Result (RefreshTokenRow × SessionRow))
      → ((t : RefreshTokenRow) (s : SessionRow)
          → r ≡ ok (t, s)
          → is_inactive s input.new_refresh_token.created_at ≡ false
          → t.used_at ≡ none
          → is_fresh input t db ≡ true
          → P (rotated input t db))
      → ((t : RefreshTokenRow) (s : SessionRow)
          → r ≡ ok (t, s)
          → is_inactive s input.new_refresh_token.created_at ≡ false
          → is_null t.used_at ≡ false
          → same_request t.request_id input.operation_id ≡ false
          → P (revoked input t db))
      → P (extend_found f input r db).1
  extend_found_cases (ok (t, s)) rotates revokes =
      extend_selected_cases P f input t s db same (rotates t s refl) (revokes t s refl)
  extend_found_cases (err e) rotates revokes = same

  -- Whatever the faults, the tables after the call are those before it, rotated or revoked.
  pub extend_session_cases :
      ((t : RefreshTokenRow) (s : SessionRow)
        → Selects input db t s
        → is_inactive s input.new_refresh_token.created_at ≡ false
        → t.used_at ≡ none
        → is_fresh input t db ≡ true
        → P (rotated input t db))
      → ((t : RefreshTokenRow) (s : SessionRow)
          → Selects input db t s
          → is_inactive s input.new_refresh_token.created_at ≡ false
          → is_null t.used_at ≡ false
          → same_request t.request_id input.operation_id ≡ false
          → P (revoked input t db))
      → P (extend_session f input db).1
  unfolding extend_session
  extend_session_cases rotates revokes =
      extend_found_cases (select_token f input db)
        (λ t s e. rotates t s (select_token-Selects f input db t s e))
        (λ t s e. revokes t s (select_token-Selects f input db t s e))

module _ (f : Faults) (input : ExtendSessionInput) (db db' : Db) (i : Identity) where
  found-extended :
      (r : Result (RefreshTokenRow × SessionRow))
      → extend_found f input r db ≡ (extended i, db')
      → (t : RefreshTokenRow) × (s : SessionRow) × (r ≡ ok (t, s))
        × (extend_selected f input t s db ≡ (extended i, db'))
  found-extended (ok (t, s)) h = (t, s, refl, h)
  found-extended (err e) h = cc

  found-reused :
      (r : Result (RefreshTokenRow × SessionRow))
      → extend_found f input r db ≡ (reused i, db')
      → (t : RefreshTokenRow) × (s : SessionRow) × (r ≡ ok (t, s))
        × (extend_selected f input t s db ≡ (reused i, db'))
  found-reused (ok (t, s)) h = (t, s, refl, h)
  found-reused (err e) h = cc

  -- What a call that extended its session found and did.
  pub record Extends (t : RefreshTokenRow) (s : SessionRow) : Type 0 where
    pub selects : Selects input db t s
    pub active : is_inactive s input.new_refresh_token.created_at ≡ false
    pub unused : t.used_at ≡ none
    pub fresh : is_fresh input t db ≡ true
    pub identity : i ≡ identity_of t s
    pub tables : db' ≡ rotated input t db

  pub extend_session-Extends :
      extend_session f input db ≡ (extended i, db')
      → (t : RefreshTokenRow) × (s : SessionRow) × Extends t s
  unfolding extend_session
  extend_session-Extends h =
      let (t, s, e, g) = found-extended (select_token f input db) h in
      let (a, u, n, d, b) = extend_selected-extended f input t s db db' i g in
      (
        t,
        s,
        record {
          selects = select_token-Selects f input db t s e;
          active = a;
          unused = u;
          fresh = n;
          identity = d;
          tables = b;
        },
      )

  -- What a call that revoked its session found and did.
  pub record Revokes (t : RefreshTokenRow) (s : SessionRow) : Type 0 where
    pub selects : Selects input db t s
    pub active : is_inactive s input.new_refresh_token.created_at ≡ false
    pub used : is_null t.used_at ≡ false
    pub other : same_request t.request_id input.operation_id ≡ false
    pub identity : i ≡ identity_of t s
    pub tables : db' ≡ revoked input t db

  pub extend_session-Revokes :
      extend_session f input db ≡ (reused i, db')
      → (t : RefreshTokenRow) × (s : SessionRow) × Revokes t s
  unfolding extend_session
  extend_session-Revokes h =
      let (t, s, e, g) = found-reused (select_token f input db) h in
      let (a, u, n, d, b) = extend_selected-reused f input t s db db' i g in
      (
        t,
        s,
        record {
          selects = select_token-Selects f input db t s e;
          active = a;
          used = u;
          other = n;
          identity = d;
          tables = b;
        },
      )

-- The identity that a call returns, with or without an error.
abbrev pub identity_in : Extension → Option Identity
identity_in (extended i) = some i
identity_in (retried i) = some i
identity_in (reused i) = some i
identity_in (failed e) = none

extend_selected-identity :
    (f : Faults) (input : ExtendSessionInput) (t : RefreshTokenRow) (s : SessionRow) (db : Db)
    (i : Identity)
    → identity_in (extend_selected f input t s db).0 ≡ some i
    → (is_inactive s input.new_refresh_token.created_at ≡ false) × (i ≡ identity_of t s)
unfolding extend_selected insert_refresh_token
extend_selected-identity f input t s db i h = ground arith

module _ (f : Faults) (input : ExtendSessionInput) (db : Db) (i : Identity) where
  found-identity :
      (r : Result (RefreshTokenRow × SessionRow))
      → identity_in (extend_found f input r db).0 ≡ some i
      → (t : RefreshTokenRow) × (s : SessionRow) × (r ≡ ok (t, s))
        × (is_inactive s input.new_refresh_token.created_at ≡ false)
        × (i ≡ identity_of t s)
  found-identity (ok (t, s)) h =
      let (a, e) = extend_selected-identity f input t s db i h in (t, s, refl, a, e)
  found-identity (err e) h = cc

  -- A call returns an identity only for an active session, the one of the token that was sent.
  pub extend_session-identity :
      identity_in (extend_session f input db).0 ≡ some i
      → (t : RefreshTokenRow) × (s : SessionRow) × Selects input db t s
        × (is_inactive s input.new_refresh_token.created_at ≡ false)
        × (i ≡ identity_of t s)
  unfolding extend_session
  extend_session-identity h =
      let (t, s, e, a, d) = found-identity (select_token f input db) h in
      (t, s, select_token-Selects f input db t s e, a, d)
