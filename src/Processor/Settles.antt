-- ===== src/Processor/Settles.antt =====
-- `processOne` over the PostgreSQL queue: what becomes of the event that it claims.
use frimo_messenger.Base.{
  ℕ, ◌+◌, ◌-◌, ◌*◌, ◌≤◌, ◌≡◌, refl, ◌∙◌, Bool, true, false, ◌||◌, Option, none, some, ◌==◌, update,
  count, leb, arith, String, Bool-cases, inl, inr,
}
use frimo_messenger.Base.Table.Laws.{All-map, count-update_same}
use frimo_messenger.Errors.{Error, Result, ok, err, is, non_retryable}
use frimo_messenger.Domain.{Uuid, Time, Event}
use frimo_messenger.Postgres.Schema.{Db, OutboxRow}
use frimo_messenger.Postgres.Link.{Fault, up}
use frimo_messenger.Postgres.Outbox
use frimo_messenger.Postgres.Outbox.{
  is_held, is_pending, held_by, claim_row, process_row, retry_row, fail_row, to_event,
  first_by_time, is_claimable,
}
use frimo_messenger.Postgres.Outbox.Actions.{Keeps}
use frimo_messenger.Postgres.Outbox.Claims.{
  is_ready, first_by_time-only, first_by_time-passes, claim_next-found,
}
use frimo_messenger.Postgres.Outbox.Marks.{
  holder_processes, holder_fails, holder_retries, only_updated,
}
use frimo_messenger.Processor.{
  Repository, Processor, process_one, settle, max_attempts, lock_lease, retry_delay,
  retry_base_delay,
}
use frimo_messenger.Processor.Delay.{retry_delay_lower}

-- The queue of PostgreSQL, beside a state of everything else: `link` has the fault of the call that is
-- made in a state, and `busy` tells the rows that other statements hold then, which SKIP LOCKED skips.
abbrev pub pg_queue : (S : Type 0) → (S → Fault) → (S → Uuid → Bool) → Repository (Db × S)
pg_queue S link busy = record {
  claim_next = λ lock_id now before w.
      let (r, db) = Outbox.claim_next (busy w.1) (link w.1) lock_id now before w.0 in
      (r, (db, w.1));
  mark_processed = λ event_id lock_id at w.
      let (r, db) = Outbox.mark_processed (link w.1) event_id lock_id at w.0 in (r, (db, w.1));
  schedule_retry = λ event_id lock_id at message w.
      let (r, db) = Outbox.schedule_retry (link w.1) event_id lock_id at message w.0 in
      (r, (db, w.1));
  mark_failed = λ event_id lock_id at message w.
      let (r, db) = Outbox.mark_failed (link w.1) event_id lock_id at message w.0 in (r, (db, w.1));
}

-- How the row of an event ends, by the handler's answer, when the work took it at its attempt
-- number `attempts` and was done at `at`: processed; or failed, if the error is not to be retried or
-- the attempts are used up; or put back, for at least three quarters of the base delay.
abbrev pub EndsAs : Result (Unit {0}) → ℕ → Time → OutboxRow → Type 0
EndsAs (ok x) attempts at r = r.processed_at ≡ some at
EndsAs (err e) attempts at r = elim (is e non_retryable || leb max_attempts attempts) [
  | true ↦ (r.processed_at ≡ none) × (r.failed_at ≡ some at)
  | false ↦
      (r.processed_at ≡ none)
      × (r.failed_at ≡ none)
      × (at * 4 + retry_base_delay attempts * 3 ≤ r.available_at * 4)
]

abbrev pub IsSettled : Result (Unit {0}) → ℕ → Time → OutboxRow → Type 0
IsSettled answer attempts at r =
    (r.lock_id ≡ none)
    × (r.locked_at ≡ none)
    × (r.attempts ≡ attempts)
    × EndsAs answer attempts at r

module _ (S : Type 0) (clock : S → Time × S) (fresh : S → Uuid × S) (random : S → ℕ × S)
    (error_text : Error → String) (handle : Event → Db × S → Result (Unit {0}) × (Db × S)) where
  -- A worker over that queue, with a handler that may read and write the database too.
  abbrev pub worker_on : (S → Fault) → (S → Uuid → Bool) → Processor (Db × S)
  worker_on link busy = record {
    repository = pg_queue S link busy;
    handle = handle;
    now = λ w. let (t, s) = clock w.1 in (t, (w.0, s));
    new_uuid = λ w. let (u, s) = fresh w.1 in (u, (w.0, s));
    rand_float = λ w. let (r, s) = random w.1 in (r, (w.0, s));
    error_text = error_text;
  }

  -- The same with the server up, and no other worker.
  abbrev pub worker : Processor (Db × S)
  worker = worker_on (λ s. up) (λ s id. false)

  pub worker_on_quiet :
      (link : S → Fault) (busy : S → Uuid → Bool)
      → ((s : S) → link s ≡ up)
      → ((s : S) (id : Uuid) → busy s id ≡ false)
      → worker_on link busy ≡ worker
  worker_on_quiet link busy ups idle i = worker_on (λ s. ups s i) (λ s id. idle s id i)

  module _ (lock_id : Uuid) (at : Time) (o : OutboxRow)
      (claimable : is_claimable at (at - lock_lease) o ≡ true) where
    abbrev claimed_row : OutboxRow
    claimed_row = claim_row lock_id at o

    abbrev work : Result (Unit {0}) → Db → S → (Bool × Option Error) × (Db × S)
    work answer db s = settle worker (to_event claimed_row) lock_id answer (db, s)

    abbrev Settles : Result (Unit {0}) → Db → S → Type 0
    Settles answer db s =
        ((work answer db s).0 ≡ (true, none))
        × Keeps o.id (IsSettled answer (o.attempts + 1) (clock s).0) (work answer db s).1.0

    Keeps-map :
        (P Q : OutboxRow → Type 0) (db : Db)
        → ((r : OutboxRow) → P r → Q r)
        → Keeps o.id P db
        → Keeps o.id Q db
    Keeps-map P Q db f k = record {
      one = k.one;
      rows = All-map _ _ db.outbox (λ r h own. f r (h own)) k.rows;
    }

    unfinished : (o.processed_at ≡ none) × (o.failed_at ≡ none)
    unfinished = (ground (arith, claimable), ground (arith, claimable))

    Settles-ok : (db : Db) (s : S) → Keeps o.id (λ r. r ≡ claimed_row) db → Settles (ok tt) db s
    unfolding settle
    Settles-ok db s only =
        let (e, k) =
          holder_processes o.id lock_id (clock s).0 db claimed_row refl refl unfinished.0
            unfinished.1 only in
        (rw e refl, rw e (Keeps-map _ _ _ (λ r same. ground (arith, same)) k))

    Settles-err :
        (e : Error) (db : Db) (s : S) → Keeps o.id (λ r. r ≡ claimed_row) db → Settles (err e) db s
    unfolding settle
    Settles-err e db s only =
        elim (Bool-cases (is e non_retryable || leb max_attempts (o.attempts + 1))) [
          | inl final ↦
              let (m, k) =
                holder_fails o.id lock_id (clock s).0 db claimed_row refl refl unfinished.0
                  unfinished.1 only (error_text e) in
              rw final (
                rw m refl,
                rw m (Keeps-map _ _ _ (λ r same. ground (arith, same, unfinished, final)) k),
              )
          | inr again ↦
              let (t, s1) = clock s in
              let (n, s2) = random s1 in
              let (m, k) =
                holder_retries o.id lock_id (t + retry_delay (o.attempts + 1) n) db claimed_row refl
                  refl unfinished.0 unfinished.1 only (error_text e) in
              rw again (
                rw m refl,
                rw m (
                    Keeps-map _ _ _
                      (λ r same.
                        ground
                          (arith, same, unfinished, again, retry_delay_lower (o.attempts + 1) n))
                      k),
              )
        ]

    settles :
        (answer : Result (Unit {0})) (db : Db) (s : S)
        → Keeps o.id (λ r. r ≡ claimed_row) db
        → Settles answer db s
    settles (ok tt) db s only = Settles-ok db s only
    settles (err e) db s only = Settles-err e db s only

  -- The run of `processOne` on the row `o`: when it starts, its lock, the tables that the handler
  -- gets, what the handler answers and leaves, and when the row is marked.
  module _ (db : Db) (s : S) (o : OutboxRow) where
    abbrev pub started : Time
    started = (clock s).0

    abbrev pub lock_of : Uuid
    lock_of = (fresh (clock s).1).0

    abbrev pub claimed_db : Db
    claimed_db = record db {
      outbox = update (λ r. r.id == o.id) (claim_row lock_of started) db.outbox;
    }

    abbrev pub handled : Result (Unit {0}) × (Db × S)
    handled = handle (to_event (claim_row lock_of started o)) (claimed_db, (fresh (clock s).1).1)

    abbrev pub marked_at : Time
    marked_at = (clock handled.1.1).0

    claimed-only :
        first_by_time (is_ready (λ _. false) started (started - lock_lease)) db.outbox ≡ some o
        → count (λ r. r.id == o.id) db.outbox ≡ 1
        → handled.1.0.outbox ≡ claimed_db.outbox
        → Keeps o.id (λ r. r ≡ claim_row lock_of started o) handled.1.0
    claimed-only found one leaves = record {
      one = rw leaves (count-update_same _ _ _ db.outbox (λ r. refl) ∙ one);
      rows = rw leaves (
          only_updated o.id o (claim_row lock_of started) db.outbox
            (first_by_time-only (λ r. r ≡ o) _ o.id db.outbox o refl one found refl));
    }

    settles_quiet :
        first_by_time (is_ready (λ _. false) started (started - lock_lease)) db.outbox ≡ some o
        → count (λ r. r.id == o.id) db.outbox ≡ 1
        → handled.1.0.outbox ≡ claimed_db.outbox
        → ((process_one worker (db, s)).0 ≡ (true, none))
          × Keeps o.id
              (IsSettled handled.0 (o.attempts + 1) marked_at)
              (process_one worker (db, s)).1.0
    unfolding process_one
    settles_quiet found one leaves =
        rw (claim_next-found (λ _. false) lock_of started (started - lock_lease) db o found) (
          settles lock_of started o
            (ground (
              arith,
              first_by_time-passes (is_ready (λ _. false) started (started - lock_lease)) db.outbox
                  o found,
            ))
            handled.0 handled.1.0 handled.1.1 (claimed-only found one leaves))

    -- Delivery is settled at once: with the server up, no other worker, a handler that leaves the queue
    -- alone and an identifier that only the row has, the work on the row that is next reports no error
    -- and leaves the row unlocked, with one more attempt, and ended by the handler's answer.
    pub process_one_settles :
        (link : S → Fault) (busy : S → Uuid → Bool)
        → ((t : S) → link t ≡ up)
        → ((t : S) (id : Uuid) → busy t id ≡ false)
        → first_by_time (is_ready (λ _. false) started (started - lock_lease)) db.outbox ≡ some o
        → count (λ r. r.id == o.id) db.outbox ≡ 1
        → handled.1.0.outbox ≡ claimed_db.outbox
        → ((process_one (worker_on link busy) (db, s)).0 ≡ (true, none))
          × Keeps o.id
              (IsSettled handled.0 (o.attempts + 1) marked_at)
              (process_one (worker_on link busy) (db, s)).1.0
    process_one_settles link busy ups idle found one leaves =
        rw (worker_on_quiet link busy ups idle) (settles_quiet found one leaves)
