-- ===== src/Postgres/Sessions/LiveTokens.antt =====
-- A session has at most one refresh token that was not used: the invariant that makes the reuse of
-- a token a sign of theft.
use frimo_messenger.Base.{
  ℕ, ◌≤◌, ◌<◌, ◌≡◌, refl, Bool, true, false, none, List, [], ◌∷◌, ◌==◌, ◌&&◌, is_null, exists,
  count, All, arith, ==→≡, ◌∙◌, ap, subst, Bool-cases, inl, inr, bytes_eq, ==-refl,
}
use frimo_messenger.Base.Table.Laws.{
  count-update_le, count-update_lt, exists-of_find, exists-update_same, All-update, All-map,
}
use frimo_messenger.Domain.{Uuid, Session, RefreshToken, ExtendSessionInput}
use frimo_messenger.Postgres.Schema.{Db, SessionRow, RefreshTokenRow}
use frimo_messenger.Postgres.Sessions.{use_refresh_token}
use frimo_messenger.Postgres.Sessions.Rotation.{Selects, rotated, revoked, extend_session_cases}
use frimo_messenger.Postgres.Sessions.Steps.{
  with_session, create_session_cases, Step, creates, extends, Steps, here, next,
}

abbrev pub is_live : Uuid → RefreshTokenRow → Bool
is_live session_id t = (t.session_id == session_id) && is_null t.used_at

abbrev pub live_tokens : Uuid → Db → ℕ
live_tokens session_id db = count (is_live session_id) db.refresh_tokens

-- The foreign key of `refresh_tokens`.
abbrev pub HasSession : Db → RefreshTokenRow → Type 0
HasSession db t = exists (λ s. s.id == t.session_id) db.sessions ≡ true

pub record IsRotating (db : Db) : Type 0 where
  pub sessions_exist : All (HasSession db) db.refresh_tokens
  pub one_live : (session_id : Uuid) → live_tokens session_id db ≤ 1

-- A new session has no tokens yet.
no_tokens :
    (session_id : Uuid) (sessions : List SessionRow) (tokens : List RefreshTokenRow)
    → All (λ (t : RefreshTokenRow). exists (λ s. s.id == t.session_id) sessions ≡ true) tokens
    → exists (λ s. s.id == session_id) sessions ≡ false
    → count (is_live session_id) tokens ≡ 0
unfolding count
no_tokens session_id sessions [] all free = refl
no_tokens session_id sessions (t ∷ ts) all free = elim (Bool-cases (t.session_id == session_id)) [
  | inr miss ↦ rw miss (no_tokens session_id sessions ts all.1 free)
  | inl hit ↦ cc (
    all.0,
    free,
    ap (λ k. exists (λ (s : SessionRow). s.id == k) sessions) (==→≡ t.session_id session_id hit),
  )
]

with_session-IsRotating :
    (session : Session) (token : RefreshToken) (db : Db)
    → IsRotating db
    → exists (λ s. s.id == session.id) db.sessions ≡ false
    → IsRotating (with_session session token db)
unfolding count exists
with_session-IsRotating session token db v free = record {
  sessions_exist = (
    ground arith,
    All-map (HasSession db) (HasSession (with_session session token db)) db.refresh_tokens
        (λ t h. ground arith) v.sessions_exist,
  );
  one_live = λ k. ground (
    arith,
    v.one_live k,
    no_tokens session.id db.sessions db.refresh_tokens v.sessions_exist free,
    ==→≡ session.id k,
  );
}

-- Sessions keep their identifiers, so the tokens keep their sessions.
revoked-IsRotating :
    (input : ExtendSessionInput) (t : RefreshTokenRow) (db : Db)
    → IsRotating db
    → IsRotating (revoked input t db)
revoked-IsRotating input t db v = record {
  sessions_exist =
      All-map (HasSession db) (HasSession (revoked input t db)) db.refresh_tokens
        (λ r h.
          exists-update_same (λ (s : SessionRow). s.id == r.session_id) _ _ db.sessions (λ s. refl)
          ∙ h)
        v.sessions_exist;
  one_live = v.one_live;
}

module _ (input : ExtendSessionInput) (db : Db) (t : RefreshTokenRow) (s : SessionRow)
    (found : Selects input db t s) (unused : t.used_at ≡ none) (v : IsRotating db) where
  abbrev after_use : List RefreshTokenRow
  after_use =
      use_refresh_token t.id input.operation_id input.new_refresh_token.created_at db.refresh_tokens

  live-use-le : (k : Uuid) → count (is_live k) after_use ≤ live_tokens k db
  live-use-le k = count-update_le _ _ _ db.refresh_tokens (λ r. ground arith)

  live-use-lt : count (is_live t.session_id) after_use < live_tokens t.session_id db
  live-use-lt =
      count-update_lt _ _ (λ r. bytes_eq r.token_hash input.old_refresh_token_hash) _
        db.refresh_tokens t (λ r. ground arith) found.token (==-refl t.id)
        (ground (arith, unused, ==-refl t.session_id))

  -- The rotation uses the session's live token before it adds the new one.
  rotated-live : (k : Uuid) → live_tokens k (rotated input t db) ≤ 1
  unfolding count
  rotated-live k = elim (Bool-cases (t.session_id == k)) [
    | inl hit ↦ rw hit (
        let e : t.session_id ≡ k = ==→≡ t.session_id k hit in
        let lt : count (is_live k) after_use < live_tokens k db =
          subst (λ j. count (is_live j) after_use < live_tokens j db) e live-use-lt in
        omega (arith, v.one_live k))
    | inr miss ↦ rw miss (omega (arith, v.one_live k, live-use-le k))
  ]

  HasSession-rotated : (r : RefreshTokenRow) → HasSession db r → HasSession (rotated input t db) r
  HasSession-rotated r h =
      exists-update_same (λ (s : SessionRow). s.id == r.session_id) _ _ db.sessions (λ s. refl) ∙ h

  rotated-IsRotating : IsRotating (rotated input t db)
  rotated-IsRotating = record {
    sessions_exist = (
      exists-update_same (λ (s : SessionRow). s.id == t.session_id) _ _ db.sessions (λ s. refl)
          ∙ exists-of_find _ db.sessions s found.session,
      All-update _ _ db.refresh_tokens (λ r hit h. h)
          (All-map (HasSession db) (HasSession (rotated input t db)) db.refresh_tokens
            HasSession-rotated v.sessions_exist),
    );
    one_live = rotated-live;
  }

Step-IsRotating : {db db' : Db} → Step db db' → IsRotating db → IsRotating db'
Step-IsRotating {db} (creates f session token) v =
    create_session_cases IsRotating f session token db v
      (with_session-IsRotating session token db v)
Step-IsRotating {db} (extends f input) v =
    extend_session_cases IsRotating f input db v
      (λ t s x a u n. rotated-IsRotating input db t s x u v)
      (λ t s x a u n. revoked-IsRotating input t db v)

-- Whatever sessions are created and extended, and whatever faults this meets, it stays so that a
-- session has at most one refresh token that was not used, and every refresh token has its session.
pub Steps-IsRotating : {db db' : Db} → Steps db db' → IsRotating db → IsRotating db'
Steps-IsRotating here v = v
Steps-IsRotating (next r st) v = Step-IsRotating st (Steps-IsRotating r v)
