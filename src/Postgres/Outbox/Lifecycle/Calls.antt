-- ===== src/Postgres/Outbox/Lifecycle/Calls.antt =====
-- Every call of the repositories moves the rows of the queue along the life of an event.
use frimo_messenger.Base.{
  ℕ, ◌≡◌, ◌⊎◌, refl, Bool, true, false, List, ◌∷◌, ◌==◌, is_null, update, All, exists, arith,
  String, Option-cases, inl, inr,
}
use frimo_messenger.Domain.{Uuid, Time, Event, CreateUserInput, ResendVerificationInput}
use frimo_messenger.Postgres.Schema.{Db, OutboxRow, insert_user, insert_verification, insert_outbox}
use frimo_messenger.Postgres.Link.{Faults}
use frimo_messenger.Postgres.Auth.{
  create_user, create_user_body, resend_verification, resend_verification_body, outbox_row,
}
use frimo_messenger.Postgres.Sessions.Rotation.{extend_session_cases}
use frimo_messenger.Postgres.Sessions.Steps.{create_session_cases}
use frimo_messenger.Postgres.Outbox.{
  mark_processed, schedule_retry, mark_failed, claim_row, process_row, retry_row, fail_row,
  is_claimable, is_held, is_pending,
}
use frimo_messenger.Postgres.Outbox.Claims.{claim_next_cases, is_ready}
use frimo_messenger.Base.Table.Laws.{All-map}
use frimo_messenger.Postgres.Outbox.Actions.{affected_cases}
use frimo_messenger.Postgres.Checks.{
  Change, Changes, here, next, creates_user, confirms, resends, creates_session, extends, claims,
  processes, retries, fails, confirm_email-Queues,
}
use frimo_messenger.Postgres.Outbox.Lifecycle.{
  Status, waiting, leased, delivered, abandoned, Move, takes, takes_over, ends, gives_up, puts_back,
  stays, status, is_released, Evolves, added, Evolves-same, Distinct, IsMoved, Evolves-update,
  Distinct-update, selected_only, every_row,
}

-- A row with a lock that is not at its end.
held_moves :
    (g : OutboxRow → OutboxRow) (b : ℕ → Status)
    → ((worker : Uuid) (n : ℕ) → Move (leased worker n) (b n))
    → (o : OutboxRow) → is_null o.lock_id ≡ false
    → is_null o.processed_at ≡ true
    → is_null o.failed_at ≡ true
    → status (g o) ≡ b o.attempts
    → Move (status o) (status (g o))
held_moves g b ends_in o locked unprocessed unfailed after = elim (Option-cases o.lock_id) [
  | inl none_held ↦ absurd (ground (arith, none_held, locked))
  | inr (l, held) ↦ rw (after, unprocessed, unfailed, held) (ends_in l o.attempts)
]

claim-IsMoved :
    (worker : Uuid) (now at before : Time) (o : OutboxRow)
    → is_claimable at before o ≡ true
    → Move (status o) (status (claim_row worker now o))
      × (is_released (claim_row worker now o) ≡ true)
claim-IsMoved worker now at before o claimable =
    let unprocessed : is_null o.processed_at ≡ true = ground arith in
    let unfailed : is_null o.failed_at ≡ true = ground arith in
    (
      elim (Option-cases o.lock_id) [
        | inl free ↦ rw (unprocessed, unfailed, free) (takes o.attempts worker)
        | inr (l, held) ↦ rw (unprocessed, unfailed, held) (takes_over l worker o.attempts)
      ],
      ground arith,
    )

process-IsMoved :
    (id worker : Uuid) (now : Time) (o : OutboxRow)
    → IsMoved (is_held id worker) (process_row now) o
process-IsMoved id worker now o hit released = (
  held_moves (process_row now) (λ _. delivered) ends o (ground arith) (ground arith) (ground arith)
      refl,
  refl,
)

fail-IsMoved :
    (id worker : Uuid) (now : Time) (m : String) (o : OutboxRow)
    → IsMoved (is_held id worker) (fail_row now m) o
fail-IsMoved id worker now m o hit released = (
  held_moves (fail_row now m) (λ _. abandoned) gives_up o (ground arith) (ground arith)
      (ground arith) (ground arith),
  refl,
)

retry-IsMoved :
    (id worker : Uuid) (at : Time) (m : String) (o : OutboxRow)
    → IsMoved (is_pending id worker) (retry_row at m) o
retry-IsMoved id worker at m o hit released = (
  held_moves (retry_row at m) waiting puts_back o (ground arith) (ground arith) (ground arith)
      (ground arith),
  refl,
)

-- The queue is as before, or has one new row in front, whose identifier was free.
abbrev Inserts : Event → Db → Db → Type 0
Inserts e db db' =
    (db'.outbox ≡ db.outbox)
    ⊎ ((db'.outbox ≡ outbox_row e ∷ db.outbox) × (exists (λ r. r.id == e.id) db.outbox ≡ false))

create_user-Inserts :
    (lower : String → String) (f : Faults) (input : CreateUserInput) (db : Db)
    → Inserts input.outbox_event db (create_user lower f input db).1
unfolding create_user create_user_body insert_user insert_verification insert_outbox
create_user-Inserts lower f input db = ground arith

resend_verification-Inserts :
    (f : Faults) (input : ResendVerificationInput) (db : Db)
    → Inserts input.outbox_event db (resend_verification f input db).1
unfolding resend_verification resend_verification_body insert_verification insert_outbox
resend_verification-Inserts f input db = ground arith

-- The queue has evolved from `os`, and its identifiers are distinct.
pub record IsEvolved (os : List OutboxRow) (db : Db) : Type 0 where
  pub evolves : Evolves os db.outbox
  pub distinct : Distinct db.outbox

update-IsEvolved :
    (os : List OutboxRow) (p : OutboxRow → Bool) (g : OutboxRow → OutboxRow) (db : Db)
    → ((o : OutboxRow) → ((g o).id ≡ o.id) × ((g o).event_type ≡ o.event_type))
    → All (IsMoved p g) db.outbox
    → IsEvolved os db
    → IsEvolved os (record db { outbox = update p g db.outbox })
update-IsEvolved os p g db same all v = record {
  evolves = Evolves-update p g same v.evolves all;
  distinct = Distinct-update p g same db.outbox v.distinct;
}

inserted-IsEvolved :
    (os : List OutboxRow) (e : Event) (db db' : Db)
    → Inserts e db db'
    → IsEvolved os db
    → IsEvolved os db'
inserted-IsEvolved os e db db' (inl same) v = record {
  evolves = rw same v.evolves;
  distinct = rw same v.distinct;
}
inserted-IsEvolved os e db db' (inr (more, fresh)) v = record {
  evolves = rw more (added (outbox_row e) v.evolves stays refl);
  distinct = rw more (fresh, v.distinct);
}

Change-IsEvolved :
    (os : List OutboxRow) {db db' : Db} → Change db db' → IsEvolved os db → IsEvolved os db'
unfolding mark_processed schedule_retry mark_failed
Change-IsEvolved os {db} (creates_user lower f input) v =
    inserted-IsEvolved os input.outbox_event db _ (create_user-Inserts lower f input db) v
Change-IsEvolved os {db} (confirms f hash now) v =
    let same = (confirm_email-Queues f hash now db).1 in
    record { evolves = rw same v.evolves; distinct = rw same v.distinct }
Change-IsEvolved os {db} (resends f input) v =
    inserted-IsEvolved os input.outbox_event db _ (resend_verification-Inserts f input db) v
Change-IsEvolved os {db} (creates_session f session token) v =
    create_session_cases (IsEvolved os) f session token db v
      (λ free. record { evolves = v.evolves; distinct = v.distinct })
Change-IsEvolved os {db} (extends f input) v =
    extend_session_cases (IsEvolved os) f input db v
      (λ t s x a u n. record { evolves = v.evolves; distinct = v.distinct })
      (λ t s x a u n. record { evolves = v.evolves; distinct = v.distinct })
Change-IsEvolved os {db} (claims busy f lock_id now before) v =
    claim_next_cases (IsEvolved os) busy f lock_id now before db v (λ o found c.
      update-IsEvolved os (λ r. r.id == o.id) (claim_row lock_id now) db (λ r. (refl, refl))
        (All-map _ _ db.outbox
          (λ r own hit released. claim-IsMoved lock_id now now before r (ground (arith, own hit)))
          (selected_only (is_ready busy now before) db.outbox o v.distinct found))
        v)
Change-IsEvolved os {db} (processes f event_id lock_id now) v =
    affected_cases (IsEvolved os) "mark outbox event processed" f db _ (process_row now) v (
      update-IsEvolved os _ (process_row now) db (λ r. (refl, refl))
        (every_row _ (process-IsMoved event_id lock_id now) db.outbox) v)
Change-IsEvolved os {db} (retries f event_id lock_id at message) v =
    affected_cases (IsEvolved os) "schedule outbox retry" f db _ (retry_row at message) v (
      update-IsEvolved os _ (retry_row at message) db (λ r. (refl, refl))
        (every_row _ (retry-IsMoved event_id lock_id at message) db.outbox) v)
Change-IsEvolved os {db} (fails f event_id lock_id now message) v =
    affected_cases (IsEvolved os) "mark outbox event failed" f db _ (fail_row now message) v (
      update-IsEvolved os _ (fail_row now message) db (λ r. (refl, refl))
        (every_row _ (fail-IsMoved event_id lock_id now message) db.outbox) v)

Changes-IsEvolved :
    (os : List OutboxRow) {db db' : Db} → Changes db db' → IsEvolved os db → IsEvolved os db'
Changes-IsEvolved os here v = v
Changes-IsEvolved os (next r c) v = Change-IsEvolved os c (Changes-IsEvolved os r v)

-- The queue implements the life of an event. Let identifiers be distinct and the rows at their end
-- have no lock. Whatever calls of the repositories change the tables, with whatever faults, each
-- row stays in its place and the same event, and has only made moves: it was taken, with one more
-- attempt, by a worker's lock; taken over from one; done, given up or put back by one; and nothing
-- after it was done or given up. The new rows stand in front and have started as waiting events
-- without an attempt. Identifiers stay distinct, and rows at their end stay without a lock.
pub queue_refines :
    {db db' : Db}
    → Changes db db'
    → Distinct db.outbox
    → All (λ o. is_released o ≡ true) db.outbox
    → IsEvolved db.outbox db'
queue_refines {db} changes distinct released =
    Changes-IsEvolved db.outbox changes
      (record { evolves = Evolves-same db.outbox released; distinct = distinct })
