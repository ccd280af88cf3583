-- ===== src/Postgres/Sessions/Theft.antt =====
-- Reuse detection of `ExtendSession`: what becomes of a refresh token after it was used.
use frimo_messenger.Base.{
  ◌+◌, ◌<◌, ◌≡◌, ◌≢◌, refl, true, false, some, bytes_eq, bytes_eq_iff, ◌==◌, is_null, find, exists,
  arith, inl, inr, Bool-cases, ◌∙◌, subst, ==-refl,
}
use frimo_messenger.Base.Table.Laws.{find-exists, find-update, find_sound, find-cons_miss}
use frimo_messenger.Errors.{ok, sentinel, session_inactive}
use frimo_messenger.Domain.{Identity, ExtendSessionInput}
use frimo_messenger.Postgres.Schema.{Db, SessionRow, RefreshTokenRow}
use frimo_messenger.Postgres.Link.{Faults, no_faults}
use frimo_messenger.Postgres.Sessions.{
  extended, retried, reused, failed, select_token, extend_selected, extend_session, is_inactive,
  same_request, revoke_session, use_refresh_token,
}
use frimo_messenger.Postgres.Sessions.Rotation.{
  Selects, identity_of, rotated, revoked, is_fresh, extend_session-Extends,
}

-- With the server up, the rows that are found decide the outcome.
module _ (input : ExtendSessionInput) (db : Db) (t : RefreshTokenRow) (s : SessionRow)
    (found : Selects input db t s) where
  pub select_token-Selected : select_token no_faults input db ≡ ok (t, s)
  unfolding select_token
  select_token-Selected = ground arith

  pub reuse_revokes :
      is_inactive s input.new_refresh_token.created_at ≡ false
      → is_null t.used_at ≡ false
      → same_request t.request_id input.operation_id ≡ false
      → extend_session no_faults input db ≡ (reused (identity_of t s), revoked input t db)
  unfolding extend_session extend_selected
  reuse_revokes a u o = rw select_token-Selected (ground arith)

  retry_keeps :
      is_inactive s input.new_refresh_token.created_at ≡ false
      → is_null t.used_at ≡ false
      → same_request t.request_id input.operation_id ≡ true
      → extend_session no_faults input db ≡ (retried (identity_of t s), db)
  unfolding extend_session extend_selected
  retry_keeps a u o = rw select_token-Selected (ground arith)

  pub inactive_refuses :
      is_inactive s input.new_refresh_token.created_at ≡ true
      → extend_session no_faults input db ≡ (failed (sentinel session_inactive), db)
  unfolding extend_session extend_selected
  inactive_refuses a = rw select_token-Selected (ground arith)

-- The token after its use by an operation, and the session after it was prolonged.
abbrev used_by : ExtendSessionInput → RefreshTokenRow → RefreshTokenRow
used_by a t = record t {
  used_at = some a.new_refresh_token.created_at;
  request_id = some a.operation_id;
}

abbrev prolonged : ExtendSessionInput → SessionRow → SessionRow
prolonged a s = record s { expires_at = a.new_refresh_token.created_at + a.session_lifetime }

module _ (a b : ExtendSessionInput) (db : Db) (t : RefreshTokenRow) (s : SessionRow)
    (found : Selects a db t s)
    (same_hash : b.old_refresh_token_hash ≡ a.old_refresh_token_hash) where
  token-updated :
      find
        (λ r. bytes_eq r.token_hash b.old_refresh_token_hash)
        (use_refresh_token t.id a.operation_id a.new_refresh_token.created_at db.refresh_tokens)
      ≡ some (used_by a t)
  token-updated = rw same_hash (
      find-update (λ r. bytes_eq r.token_hash a.old_refresh_token_hash) (λ r. r.id == t.id)
        (λ r. used_by a r) db.refresh_tokens (λ r. refl) t found.token
      ∙ ground (arith, ==-refl t.id))

  session-updated :
      find (λ r. r.id == t.session_id) (rotated a t db).sessions ≡ some (prolonged a s)
  session-updated =
      find-update (λ r. r.id == t.session_id) (λ r. r.id == t.session_id) (λ r. prolonged a r)
        db.sessions (λ r. refl) s found.session
      ∙ ground
          (arith, find_sound (λ (r : SessionRow). r.id == t.session_id) db.sessions s found.session)

  new_hash_differs :
      is_fresh a t db ≡ true
      → bytes_eq a.new_refresh_token.token_hash b.old_refresh_token_hash ≡ false
  new_hash_differs fresh =
      elim (Bool-cases (bytes_eq a.new_refresh_token.token_hash b.old_refresh_token_hash)) [
        | inr miss ↦ miss
        | inl hit ↦
            let same : a.new_refresh_token.token_hash ≡ b.old_refresh_token_hash =
              (bytes_eq_iff _ _).0 hit in
            cc (
              token-updated,
              find-exists (λ r. bytes_eq r.token_hash b.old_refresh_token_hash)
                  (use_refresh_token t.id a.operation_id a.new_refresh_token.created_at
                    db.refresh_tokens)
                  (subst
                    (λ h.
                      exists (λ r. bytes_eq r.token_hash h)
                        (use_refresh_token t.id a.operation_id a.new_refresh_token.created_at
                          db.refresh_tokens)
                      ≡ false)
                    same (ground arith)),
            )
      ]

  -- After a rotation the old hash still finds the old token, now used, and its session.
  Selects-rotated :
      is_fresh a t db ≡ true → Selects b (rotated a t db) (used_by a t) (prolonged a s)
  Selects-rotated fresh = record {
    token = find-cons_miss _ _ _ (new_hash_differs fresh) ∙ token-updated;
    session = session-updated;
  }

-- Reuse detection: after a refresh that succeeded, under any faults, a second one with the old token
-- and another operation, with the server up and before the end of the time that the first gave to the
-- session, is answered by `ErrRefreshTokenReuse` and revokes the session.
pub extend_session-reuse :
    (f : Faults) (a b : ExtendSessionInput) (db db' : Db) (i : Identity)
    → extend_session f a db ≡ (extended i, db')
    → b.old_refresh_token_hash ≡ a.old_refresh_token_hash
    → b.operation_id ≢ a.operation_id
    → b.new_refresh_token.created_at < a.new_refresh_token.created_at + a.session_lifetime
    → extend_session no_faults b db' ≡ (
      reused i,
      record db' {
        sessions = revoke_session i.session_id b.new_refresh_token.created_at db'.sessions;
      },
    )
extend_session-reuse f a b db db' i h same other soon =
    let (t, s, x) = extend_session-Extends f a db db' i h in
    rw (x.tables, x.identity)
      (reuse_revokes b (rotated a t db) (used_by a t) (prolonged a s)
        (Selects-rotated a b db t s x.selects same x.fresh) (ground (arith, x.active)) refl
        (ground arith))

-- After a refresh, a second refresh with the old token and the same operation, while the session
-- would still run, gets the same identity with `ErrRefreshRetry`, and changes nothing.
pub extend_session-retry :
    (f : Faults) (a b : ExtendSessionInput) (db db' : Db) (i : Identity)
    → extend_session f a db ≡ (extended i, db')
    → b.old_refresh_token_hash ≡ a.old_refresh_token_hash
    → b.operation_id ≡ a.operation_id
    → b.new_refresh_token.created_at < a.new_refresh_token.created_at + a.session_lifetime
    → extend_session no_faults b db' ≡ (retried i, db')
extend_session-retry f a b db db' i h same again soon =
    let (t, s, x) = extend_session-Extends f a db db' i h in
    rw (x.tables, x.identity)
      (retry_keeps b (rotated a t db) (used_by a t) (prolonged a s)
        (Selects-rotated a b db t s x.selects same x.fresh) (ground (arith, x.active)) refl
        (ground arith))
