-- ===== src/Postgres/Sessions/Steps.antt =====
-- The session tables under any sequence of `CreateSession` and `ExtendSession`, each with any
-- faults: what a proof by induction on the sequence needs, and that a revocation lasts.
use frimo_messenger.Base.{
  ◌≡◌, ◌≢◌, refl, Bool, false, some, ◌∷◌, ◌==◌, is_null, find, update, exists, arith, ==→≡, ◌∙◌,
  sym, ap, subst, Bool-cases, inl, inr, if◌then◌else◌,
}
use frimo_messenger.Base.Table.Laws.{find-exists, find-update, find-cons_miss, find_sound}
use frimo_messenger.Domain.{Uuid, Identity, Session, RefreshToken, ExtendSessionInput}
use frimo_messenger.Postgres.Schema.{Db, SessionRow, insert_session, insert_refresh_token}
use frimo_messenger.Postgres.Link.{Faults}
use frimo_messenger.Postgres.Sessions.{
  reused, extend_session, create_session, session_row, refresh_token_row,
}
use frimo_messenger.Postgres.Sessions.Rotation.{
  identity_in, extend_session-identity, extend_session-Revokes, extend_session_cases,
}

abbrev pub with_session : Session → RefreshToken → Db → Db
with_session session token db = record db {
  sessions = session_row session ∷ db.sessions;
  refresh_tokens = refresh_token_row session.id token ∷ db.refresh_tokens;
}

-- Whatever the faults, the tables are as before, or have both new rows, of which the identifiers
-- were free.
pub create_session_cases {ℓ} :
    (P : Db → Type ℓ) (f : Faults) (session : Session) (token : RefreshToken) (db : Db)
    → P db
    → (exists (λ s. s.id == session.id) db.sessions ≡ false → P (with_session session token db))
    → P (create_session f session token db).1
unfolding create_session insert_session insert_refresh_token
create_session_cases P f session token db same added = ground arith

pub data Step (db : Db) : Db → Type 0 where
  creates :
      (f : Faults) (session : Session) (token : RefreshToken)
      → Step db (create_session f session token db).1
  extends : (f : Faults) (input : ExtendSessionInput) → Step db (extend_session f input db).1

pub data Steps (db : Db) : Db → Type 0 where
  here : Steps db db
  next : {u v : Db} → Steps db u → Step u v → Steps db v

-- The session is there, and was revoked.
pub record IsRevoked (session_id : Uuid) (db : Db) : Type 0 where
  pub row : SessionRow
  pub there : find (λ s. s.id == session_id) db.sessions ≡ some row
  pub revoked_at : is_null row.revoked_at ≡ false

module _ (session_id : Uuid) where
  with_session-IsRevoked :
      (session : Session) (token : RefreshToken) (db : Db)
      → IsRevoked session_id db
      → exists (λ s. s.id == session.id) db.sessions ≡ false
      → IsRevoked session_id (with_session session token db)
  with_session-IsRevoked session token db v free = record {
    row = v.row;
    there = find-cons_miss _ _ _ differs ∙ v.there;
    revoked_at = v.revoked_at;
  }
    where
      differs : (session.id == session_id) ≡ false
      differs = elim (Bool-cases (session.id == session_id)) [
        | inr miss ↦ miss
        | inl hit ↦ cc (
          v.there,
          find-exists (λ s. s.id == session_id) db.sessions
              (subst (λ k. exists (λ (s : SessionRow). s.id == k) db.sessions ≡ false)
                (==→≡ session.id session_id hit) free),
        )
      ]

  update-IsRevoked :
      (p : SessionRow → Bool) (g : SessionRow → SessionRow) (db db' : Db)
      → ((s : SessionRow) → (g s).id ≡ s.id)
      → ((s : SessionRow) → is_null s.revoked_at ≡ false → is_null (g s).revoked_at ≡ false)
      → db'.sessions ≡ update p g db.sessions
      → IsRevoked session_id db
      → IsRevoked session_id db'
  update-IsRevoked p g db db' keep stay e v = record {
    row = if p v.row then g v.row else v.row;
    there =
        rw e
          (find-update (λ s. s.id == session_id) p g db.sessions (λ s. rw (keep s)) v.row v.there);
    revoked_at = ground (arith, stay v.row v.revoked_at, v.revoked_at);
  }

  Step-IsRevoked : {db db' : Db} → Step db db' → IsRevoked session_id db → IsRevoked session_id db'
  Step-IsRevoked {db} (creates f session token) v =
      create_session_cases (IsRevoked session_id) f session token db v
        (with_session-IsRevoked session token db v)
  Step-IsRevoked {db} (extends f input) v =
      extend_session_cases (IsRevoked session_id) f input db v
        (λ t s x a u n. update-IsRevoked _ _ db _ (λ s. refl) (λ s h. h) refl v)
        (λ t s x a u n. update-IsRevoked _ _ db _ (λ s. refl) (λ s h. refl) refl v)

  Steps-IsRevoked :
      {db db' : Db} → Steps db db' → IsRevoked session_id db → IsRevoked session_id db'
  Steps-IsRevoked here v = v
  Steps-IsRevoked (next r st) v = Step-IsRevoked st (Steps-IsRevoked r v)

-- A refresh of a revoked session returns no identity of it.
revoked_returns_none :
    (session_id : Uuid) (db : Db) (f : Faults) (input : ExtendSessionInput) (i : Identity)
    → IsRevoked session_id db
    → identity_in (extend_session f input db).0 ≡ some i
    → i.session_id ≢ session_id
revoked_returns_none session_id db f input i v h same =
    let (t, s, x, a, d) = extend_session-identity f input db i h in
    let e : t.session_id ≡ session_id = ap (λ (j : Identity). j.session_id) (sym d) ∙ same in
    let found : some s ≡ some v.row =
      sym x.session ∙ ap (λ k. find (λ (r : SessionRow). r.id == k) db.sessions) e ∙ v.there in
    ground (arith, found, a, v.revoked_at)

Revokes-IsRevoked :
    (f : Faults) (input : ExtendSessionInput) (db db' : Db) (i : Identity)
    → extend_session f input db ≡ (reused i, db')
    → IsRevoked i.session_id db'
Revokes-IsRevoked f input db db' i h =
    let (t, s, x) = extend_session-Revokes f input db db' i h in
    rw (x.identity, x.tables)
      (record {
        row = record s { revoked_at = some input.new_refresh_token.created_at };
        there =
            find-update (λ r. r.id == t.session_id) (λ r. r.id == t.session_id)
              (λ r. record r { revoked_at = some input.new_refresh_token.created_at }) db.sessions
              (λ r. refl) s x.selects.session
            ∙ ground (
              arith,
              find_sound (λ (r : SessionRow). r.id == t.session_id) db.sessions s x.selects.session,
            );
        revoked_at = refl;
      })

-- A token that comes back under another operation ends its session for good: whatever calls follow,
-- with whatever faults, no later refresh returns an identity of that session.
pub reuse_ends_session :
    (f g : Faults) (input later : ExtendSessionInput) (db revoked_db last : Db) (i j : Identity)
    → extend_session f input db ≡ (reused i, revoked_db)
    → Steps revoked_db last
    → identity_in (extend_session g later last).0 ≡ some j
    → j.session_id ≢ i.session_id
reuse_ends_session f g input later db revoked_db last i j h steps =
    revoked_returns_none i.session_id last g later j
      (Steps-IsRevoked i.session_id steps (Revokes-IsRevoked f input db revoked_db i h))
