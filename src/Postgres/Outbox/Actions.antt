-- ===== src/Postgres/Outbox/Actions.antt =====
-- What may happen to the queue between two calls of one worker: the statements of the others and
-- the inserts of registrations, in any order and with any faults.
use frimo_messenger.Base.{
  ◌≤◌, ◌≡◌, ◌≢◌, refl, Bool, true, false, ◌&&◌, ◌∷◌, ◌==◌, update, count, exists, All, arith,
  String, Bool-cases, inl, inr, ==→≡, ==-refl, subst, ap, sym, ◌∙◌, is_null,
}
use frimo_messenger.Base.Table.Laws.{All-update, count-update_same, count-zero}
use frimo_messenger.Errors.{ok}
use frimo_messenger.Domain.{Uuid, Time}
use frimo_messenger.Postgres.Schema.{Db, OutboxRow, insert_outbox}
use frimo_messenger.Postgres.Link.{Fault, statement}
use frimo_messenger.Postgres.Outbox.{
  held_by, claim_row, claim_next, mark_processed, schedule_retry, mark_failed, is_held, is_pending,
  affected, process_row, retry_row, fail_row, is_claimable, update_outbox,
}
use frimo_messenger.Postgres.Outbox.Claims.{claim_next_cases, first_by_time-All}

-- The workers act under locks other than `held`, and take over only locks from before `since`. Both
-- are free: of a sequence that says nothing of them, `held` is a lock that it does not use and
-- `since` a time after all of its own.
pub data Action (held : Uuid) (since : Time) (db : Db) : Db → Type 0 where
  claims :
      (busy : Uuid → Bool) (f : Fault) (lock_id : Uuid) (now before : Time)
      → before ≤ since
      → Action held since db (claim_next busy f lock_id now before db).1
  processes :
      (f : Fault) (event_id lock_id : Uuid) (now : Time)
      → lock_id ≢ held
      → Action held since db (mark_processed f event_id lock_id now db).1
  retries :
      (f : Fault) (event_id lock_id : Uuid) (at : Time) (message : String)
      → lock_id ≢ held
      → Action held since db (schedule_retry f event_id lock_id at message db).1
  fails :
      (f : Fault) (event_id lock_id : Uuid) (now : Time) (message : String)
      → lock_id ≢ held
      → Action held since db (mark_failed f event_id lock_id now message db).1
  inserts : (row : OutboxRow) (db' : Db) → insert_outbox row db ≡ ok db' → Action held since db db'

pub data Actions (held : Uuid) (since : Time) (db : Db) : Db → Type 0 where
  here : Actions held since db db
  next : {u v : Db} → Actions held since db u → Action held since u v → Actions held since db v

-- There is one row of the identifier, and it satisfies `Q`.
pub record Keeps (event_id : Uuid) (Q : OutboxRow → Type 0) (db : Db) : Type 0 where
  pub one : count (λ o. o.id == event_id) db.outbox ≡ 1
  pub rows : All (λ o. o.id ≡ event_id → Q o) db.outbox

-- An UPDATE of the queue leaves it as it was, or updates it.
pub affected_cases {ℓ} :
    (P : Db → Type ℓ) (message : String) (f : Fault) (db : Db) (p : OutboxRow → Bool)
    (g : OutboxRow → OutboxRow)
    → P db
    → P (record db { outbox = update p g db.outbox })
    → P (affected message (statement f db (update_outbox p g db))).1
affected_cases P message f db p g same updated = ground arith

-- A row of the others: they can claim it, or hold it.
module _ (held : Uuid) (since : Time) (Q : OutboxRow → Type 0)
    (unclaimable : (now before : Time) (o : OutboxRow)
      → before ≤ since
      → is_claimable now before o ≡ true
      → Q o
      → ⊥)
    (unheld : (lock_id : Uuid) (o : OutboxRow)
      → lock_id ≢ held
      → (held_by lock_id o && is_null o.processed_at) ≡ true
      → Q o
      → ⊥)
    (event_id : Uuid) where
  update-Keeps :
      (p : OutboxRow → Bool) (g : OutboxRow → OutboxRow) (db : Db)
      → ((o : OutboxRow) → (g o).id ≡ o.id)
      → ((o : OutboxRow) → p o ≡ true → (o.id ≡ event_id → Q o) → o.id ≢ event_id)
      → Keeps event_id Q db
      → Keeps event_id Q (record db { outbox = update p g db.outbox })
  update-Keeps p g db keep other v = record {
    one = count-update_same _ p g db.outbox (λ o. rw (keep o)) ∙ v.one;
    rows = All-update p g db.outbox (λ o hit l e. absurd (other o hit l (sym (keep o) ∙ e))) v.rows;
  }

  held_differs :
      (other_id lock_id : Uuid) (o : OutboxRow)
      → lock_id ≢ held
      → is_held other_id lock_id o ≡ true
      → (o.id ≡ event_id → Q o)
      → o.id ≢ event_id
  held_differs other_id lock_id o differs h l same =
      unheld lock_id o differs (ground (arith, h)) (l same)

  pending_differs :
      (other_id lock_id : Uuid) (o : OutboxRow)
      → lock_id ≢ held
      → is_pending other_id lock_id o ≡ true
      → (o.id ≡ event_id → Q o)
      → o.id ≢ event_id
  pending_differs other_id lock_id o differs h l same =
      unheld lock_id o differs (ground (arith, h)) (l same)

  insert-Keeps :
      (row : OutboxRow) (db db' : Db)
      → insert_outbox row db ≡ ok db'
      → Keeps event_id Q db
      → Keeps event_id Q db'
  unfolding insert_outbox count
  insert-Keeps row db db' e v = elim (Bool-cases (row.id == event_id)) [
    | inl hit ↦ absurd (
        omega (
          arith,
          v.one,
          count-zero (λ o. o.id == event_id) db.outbox
              (subst (λ k. exists (λ (o : OutboxRow). o.id == k) db.outbox ≡ false)
                (==→≡ row.id event_id hit) (ground arith)),
        ))
    | inr miss ↦
        let outbox : db'.outbox ≡ row ∷ db.outbox = ground arith in
        record {
          one = rw outbox (rw miss v.one);
          rows =
              rw outbox (λ same. cc (miss, ==-refl event_id, ap (λ k. k == event_id) same), v.rows);
        }
  ]

  Action-Keeps :
      {db db' : Db} → Action held since db db' → Keeps event_id Q db → Keeps event_id Q db'
  unfolding mark_processed schedule_retry mark_failed
  Action-Keeps {db} (claims busy f lock_id now before le) v =
      claim_next_cases (Keeps event_id Q) busy f lock_id now before db v λ o found c.
        let l = first_by_time-All (λ r. r.id ≡ event_id → Q r) _ db.outbox o v.rows found in
        update-Keeps _ (claim_row lock_id now) db (λ r. refl)
          (λ r hit _ same. unclaimable now before o le c (l (sym (==→≡ r.id o.id hit) ∙ same))) v
  Action-Keeps {db} (processes f other_id lock_id now differs) v =
      affected_cases (Keeps event_id Q) "mark outbox event processed" f db _ (process_row now) v (
        update-Keeps _ (process_row now) db (λ r. refl)
          (λ r. held_differs other_id lock_id r differs) v)
  Action-Keeps {db} (retries f other_id lock_id at message differs) v =
      affected_cases (Keeps event_id Q) "schedule outbox retry" f db _ (retry_row at message) v (
        update-Keeps _ (retry_row at message) db (λ r. refl)
          (λ r. pending_differs other_id lock_id r differs) v)
  Action-Keeps {db} (fails f other_id lock_id now message differs) v =
      affected_cases (Keeps event_id Q) "mark outbox event failed" f db _ (fail_row now message) v (
        update-Keeps _ (fail_row now message) db (λ r. refl)
          (λ r. held_differs other_id lock_id r differs) v)
  Action-Keeps {db} (inserts row db' e) v = insert-Keeps row db db' e v

  pub Actions-Keeps :
      {db db' : Db} → Actions held since db db' → Keeps event_id Q db → Keeps event_id Q db'
  Actions-Keeps here v = v
  Actions-Keeps (next r a) v = Action-Keeps a (Actions-Keeps r v)
