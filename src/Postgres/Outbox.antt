-- ===== src/Postgres/Outbox.antt =====
-- outbox_repository.go: the queue of events as a table. Each function is one SQL statement.
pub mod Claims
pub mod Actions
pub mod Leases
pub mod Marks
pub mod Lifecycle
pub mod Order
use frimo_messenger.Base.{
  ℕ, zero, suc, ◌+◌, String, Bool, true, false, ◌&&◌, ◌||◌, not, Option, none, some, List, [], ◌∷◌,
  is_null, ltb, leb, ◌==◌, count, update, if◌then◌else◌,
}
use frimo_messenger.Errors.{sentinel, wrap, is, Result, ok, err, lease_lost, no_events, no_rows}
use frimo_messenger.Domain.{Uuid, Time, Event, empty_object}
use frimo_messenger.Postgres.Schema.{Db, OutboxRow}
use frimo_messenger.Postgres.Link.{Fault, statement}

abbrev pub locked_before : Option Time → Time → Bool
locked_before none t = true
locked_before (some l) t = ltb l t

-- The WHERE clause of the candidate.
abbrev pub is_claimable : Time → Time → OutboxRow → Bool
is_claimable now lock_expired_before o =
    is_null o.processed_at
    && (is_null o.failed_at
        && (leb o.available_at now && locked_before o.locked_at lock_expired_before))

-- `ORDER BY available_at, created_at`: whether `a` comes strictly before `b`.
abbrev pub comes_before : OutboxRow → OutboxRow → Bool
comes_before a b =
    ltb a.available_at b.available_at
    || ((a.available_at == b.available_at) && ltb a.created_at b.created_at)

abbrev pub earlier : OutboxRow → Option OutboxRow → OutboxRow
earlier a none = a
earlier a (some b) = if comes_before b a then b else a

-- `LIMIT 1` of the rows that pass `p`, in that order.
unfoldable pub first_by_time : (OutboxRow → Bool) → List OutboxRow → Option OutboxRow
first_by_time p [] = none
first_by_time p (o ∷ os) =
    let rest = first_by_time p os in if p o then some (earlier o rest) else rest

abbrev pub to_event : OutboxRow → Event
to_event o = record {
  id = o.id;
  event_type = o.event_type;
  payload = o.payload;
  created_at = o.created_at;
  available_at = o.available_at;
  attempts = o.attempts;
}

abbrev pub claim_row : Uuid → Time → OutboxRow → OutboxRow
claim_row lock_id now o = record o {
  lock_id = some lock_id;
  locked_at = some now;
  attempts = o.attempts + 1;
  last_error = none;
}

-- The statement of `ClaimNext`. `busy` tells the rows that statements of other connections hold
-- at that moment, which SKIP LOCKED passes over.
unfoldable pub claim : (Uuid → Bool) → Uuid → Time → Time → Db → Option Event × Db
unfolding first_by_time
claim busy lock_id now lock_expired_before db =
    elim (first_by_time (λ o. is_claimable now lock_expired_before o && not (busy o.id))
      db.outbox) [
        | none ↦ (none, db)
        | some o ↦ (
          some (to_event (claim_row lock_id now o)),
          record db { outbox = update (λ r. r.id == o.id) (claim_row lock_id now) db.outbox },
        )
      ]

abbrev claimed : Result (Option Event) → Result Event
claimed (ok (some e)) = ok e
claimed (ok none) = err (sentinel no_events)
claimed (err e) =
    if is e no_rows then err (sentinel no_events) else err (wrap "claim next outbox event" e)

unfoldable pub claim_next : (Uuid → Bool) → Fault → Uuid → Time → Time → Db → Result Event × Db
unfolding claim
claim_next busy f lock_id now lock_expired_before db =
    let (r, db') = statement f db (claim busy lock_id now lock_expired_before db) in
    (claimed r, db')

-- `lock_id = $2`, which is not true of a row with no lock.
abbrev pub held_by : Uuid → OutboxRow → Bool
held_by lock_id o = elim o.lock_id [ none ↦ false | some l ↦ l == lock_id ]

abbrev pub is_held : Uuid → Uuid → OutboxRow → Bool
is_held event_id lock_id o = (o.id == event_id) && (held_by lock_id o && is_null o.processed_at)

abbrev pub is_pending : Uuid → Uuid → OutboxRow → Bool
is_pending event_id lock_id o =
    (o.id == event_id) && (held_by lock_id o && (is_null o.processed_at && is_null o.failed_at))

-- `UPDATE ... WHERE`, with the number of its rows.
abbrev pub update_outbox : (OutboxRow → Bool) → (OutboxRow → OutboxRow) → Db → ℕ × Db
update_outbox p g db = (count p db.outbox, record db { outbox = update p g db.outbox })

-- `RowsAffected() != 1` after the statement, with the text put before either error.
abbrev affected : String → Result ℕ × Db → Result (Unit {0}) × Db
affected message (ok n, db) =
    (if n == 1 then ok tt else err (wrap message (sentinel lease_lost)), db)
affected message (err e, db) = (err (wrap message e), db)

abbrev pub process_row : Time → OutboxRow → OutboxRow
process_row processed_at o = record o {
  processed_at = some processed_at;
  locked_at = none;
  lock_id = none;
  last_error = none;
  payload = empty_object;
}

unfoldable pub mark_processed : Fault → Uuid → Uuid → Time → Db → Result (Unit {0}) × Db
mark_processed f event_id lock_id processed_at db =
    affected "mark outbox event processed"
      (statement f db (update_outbox (is_held event_id lock_id) (process_row processed_at) db))

-- SQL's `LEFT(text, n)`.
unfoldable pub left : String → ℕ → String
left String.[] n = String.[]
left (String.◌∷◌ c s) zero = String.[]
left (String.◌∷◌ c s) (suc n) = String.◌∷◌ c (left s n)

abbrev pub retry_row : Time → String → OutboxRow → OutboxRow
retry_row available_at last_error o = record o {
  locked_at = none;
  lock_id = none;
  available_at = available_at;
  last_error = some (left last_error 1000);
}

unfoldable pub schedule_retry : Fault → Uuid → Uuid → Time → String → Db → Result (Unit {0}) × Db
schedule_retry f event_id lock_id available_at last_error db = affected "schedule outbox retry" (
    statement f db
      (update_outbox (is_pending event_id lock_id) (retry_row available_at last_error) db))

abbrev pub fail_row : Time → String → OutboxRow → OutboxRow
fail_row failed_at last_error o = record o {
  locked_at = none;
  lock_id = none;
  failed_at = some failed_at;
  last_error = some (left last_error 1000);
}

unfoldable pub mark_failed : Fault → Uuid → Uuid → Time → String → Db → Result (Unit {0}) × Db
mark_failed f event_id lock_id failed_at last_error db =
    affected "mark outbox event failed"
      (statement f db (update_outbox (is_held event_id lock_id) (fail_row failed_at last_error) db))
