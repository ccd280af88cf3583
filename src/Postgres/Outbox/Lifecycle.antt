-- ===== src/Postgres/Outbox/Lifecycle.antt =====
-- The life of an event in the queue: an abstract machine, and what it says of the rows before and
-- after an UPDATE.
pub mod Calls
use frimo_messenger.Base.{
  ℕ, ◌+◌, ◌≡◌, ◌⊎◌, refl, sym, ◌∙◌, ap, Bool, true, false, ◌&&◌, ◌||◌, not, Option, none, some,
  List, [], ◌∷◌, ◌==◌, is_null, update, All, exists, subst, ==-refl, ==→≡, arith, String,
  Bool-cases, Option-cases, inl, inr, if◌then◌else◌,
}
use frimo_messenger.Domain.{Uuid, Time, Event, CreateUserInput, ResendVerificationInput}
use frimo_messenger.Postgres.Schema.{Db, OutboxRow, insert_user, insert_verification, insert_outbox}
use frimo_messenger.Postgres.Link.{Fault, Faults}
use frimo_messenger.Postgres.Auth.{
  create_user, create_user_body, resend_verification, resend_verification_body, outbox_row,
}
use frimo_messenger.Postgres.Sessions.Rotation.{extend_session_cases}
use frimo_messenger.Postgres.Sessions.Steps.{create_session_cases}
use frimo_messenger.Postgres.Outbox.{
  claim_next, mark_processed, schedule_retry, mark_failed, claim_row, process_row, retry_row,
  fail_row, is_claimable, is_held, is_pending, first_by_time,
}
use frimo_messenger.Postgres.Outbox.Claims.{
  claim_next_cases, first_by_time-cons, first_by_time-passes, first_by_time-All, is_ready,
}
use frimo_messenger.Base.Table.Laws.{All-map, All-not_exists, exists-update_same}
use frimo_messenger.Postgres.Outbox.Actions.{affected_cases}
use frimo_messenger.Postgres.Checks.{
  Change, Changes, here, next, creates_user, confirms, resends, creates_session, extends, claims,
  processes, retries, fails, confirm_email-Queues,
}

-- The states of an event; with the number of its attempts while it is not at its end, and with the
-- lock of the worker that has it.
pub data Status : Type 0 where
  waiting : ℕ → Status
  leased : Uuid → ℕ → Status
  delivered abandoned : Status

-- A worker takes an event that waits or that another one has, and is done with it, gives it up or
-- puts it back.
pub data Move : Status → Status → Type 0 where
  takes : (n : ℕ) (worker : Uuid) → Move (waiting n) (leased worker (n + 1))
  takes_over : (other worker : Uuid) (n : ℕ) → Move (leased other n) (leased worker (n + 1))
  ends : (worker : Uuid) (n : ℕ) → Move (leased worker n) delivered
  gives_up : (worker : Uuid) (n : ℕ) → Move (leased worker n) abandoned
  puts_back : (worker : Uuid) (n : ℕ) → Move (leased worker n) (waiting n)

pub data Moves (a : Status) : Status → Type 0 where
  stays : Moves a a
  step : {b c : Status} → Moves a b → Move b c → Moves a c

abbrev pub unfinished_status : Option Uuid → ℕ → Status
unfinished_status none n = waiting n
unfinished_status (some l) n = leased l n

-- The state of a row.
abbrev pub status : OutboxRow → Status
status o =
    if not (is_null o.processed_at)
    then delivered
    else if not (is_null o.failed_at)
    then abandoned
    else unfinished_status o.lock_id o.attempts

-- A row at its end has no lock.
abbrev pub is_released : OutboxRow → Bool
is_released o = is_null o.lock_id || (is_null o.processed_at && is_null o.failed_at)

-- The rows of the queue before and after: each is still there, in its place, as the same event, has
-- made moves, and is released; and the new rows in front have made moves from their start.
pub data Evolves : List OutboxRow → List OutboxRow → Type 0 where
  empty : Evolves [] []
  added :
      {os os' : List OutboxRow} (o : OutboxRow)
      → Evolves os os'
      → Moves (waiting 0) (status o)
      → is_released o ≡ true
      → Evolves os (o ∷ os')
  moved :
      {os os' : List OutboxRow} (o o' : OutboxRow)
      → Evolves os os'
      → (o'.id ≡ o.id) × (o'.event_type ≡ o.event_type)
      → Moves (status o) (status o')
      → is_released o' ≡ true
      → Evolves (o ∷ os) (o' ∷ os')

Evolves-same : (os : List OutboxRow) → All (λ o. is_released o ≡ true) os → Evolves os os
Evolves-same [] all = empty
Evolves-same (o ∷ os) (released, all) = moved o o (Evolves-same os all) (refl, refl) stays released

-- No two rows of the queue have the same identifier.
abbrev pub Distinct : List OutboxRow → Type 0
Distinct [] = Unit
Distinct (o ∷ os) = (exists (λ r. r.id == o.id) os ≡ false) × Distinct os

-- What an UPDATE does to a row that it changes.
abbrev IsMoved : (OutboxRow → Bool) → (OutboxRow → OutboxRow) → OutboxRow → Type 0
IsMoved p g o =
    p o ≡ true → is_released o ≡ true → Move (status o) (status (g o)) × (is_released (g o) ≡ true)

module _ (p : OutboxRow → Bool) (g : OutboxRow → OutboxRow)
    (same_event : (o : OutboxRow) → ((g o).id ≡ o.id) × ((g o).event_type ≡ o.event_type)) where
  Evolves-update :
      {os os' : List OutboxRow}
      → Evolves os os'
      → All (IsMoved p g) os'
      → Evolves os (update p g os')
  unfolding update
  Evolves-update empty all = empty
  Evolves-update (added o rest reach released) (here_moved, all) = elim (Bool-cases (p o)) [
    | inl hit ↦
        let (move, free) = here_moved hit released in
        rw hit (added (g o) (Evolves-update rest all) (step reach move) free)
    | inr miss ↦ rw miss (added o (Evolves-update rest all) reach released)
  ]
  Evolves-update (moved o o' rest same reach released) (here_moved, all) =
      elim (Bool-cases (p o')) [
        | inl hit ↦
            let (move, free) = here_moved hit released in
            rw hit (
              moved o (g o') (Evolves-update rest all)
                ((same_event o').0 ∙ same.0, (same_event o').1 ∙ same.1) (step reach move) free)
        | inr miss ↦ rw miss (moved o o' (Evolves-update rest all) same reach released)
      ]

  kept :
      (k : Uuid) (os : List OutboxRow)
      → exists (λ r. r.id == k) (update p g os) ≡ exists (λ r. r.id == k) os
  kept k os = exists-update_same (λ r. r.id == k) p g os (λ r. ap (λ j. j == k) (same_event r).0)

  Distinct-update : (os : List OutboxRow) → Distinct os → Distinct (update p g os)
  unfolding update
  Distinct-update [] d = tt
  Distinct-update (o ∷ os) (fresh, d) = (
    elim (Bool-cases (p o)) [
      | inl hit ↦ rw (hit, (same_event o).0) (kept o.id os ∙ fresh)
      | inr miss ↦ rw miss (kept o.id os ∙ fresh)
    ],
    Distinct-update os d,
  )

-- With distinct identifiers, the row that is selected is the only one of its identifier.
selected_only :
    (p : OutboxRow → Bool) (os : List OutboxRow) (o : OutboxRow)
    → Distinct os
    → first_by_time p os ≡ some o
    → All (λ r. (r.id == o.id) ≡ true → p r ≡ true) os
selected_only p [] o d found = tt
selected_only p (x ∷ os) o (fresh, d) found = elim (first_by_time-cons p x os o found) [
  | inl (e, _) ↦ (
    λ own. subst (λ r. p r ≡ true) e (first_by_time-passes p (x ∷ os) o found),
    All-map _ _ os (λ r differs own. cc (own, differs, ap (λ (y : OutboxRow). y.id) e))
        (All-not_exists (λ r. r.id == x.id) os fresh),
  )
  | inr (e, _) ↦ (
    λ own. cc (
      first_by_time-All (λ r. (r.id == x.id) ≡ false) p os o
          (All-not_exists (λ r. r.id == x.id) os fresh) e,
      ==-refl x.id,
      ap (λ k. k == x.id) (==→≡ x.id o.id own),
    ),
    selected_only p os o d e,
  )
]

every_row : (Q : OutboxRow → Type 0) → ((o : OutboxRow) → Q o) → (os : List OutboxRow) → All Q os
every_row Q q [] = tt
every_row Q q (o ∷ os) = (q o, every_row Q q os)
