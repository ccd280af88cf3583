-- ===== src/Processor/Budget.antt =====
-- How often `Run` can find work: each round that claims an event uses up one of its attempts.
use frimo_messenger.Base.{
  ℕ, suc, ◌+◌, ◌-◌, ◌*◌, ◌≤◌, ◌<◌, ◌≡◌, ◌⊎◌, refl, subst, Bool, true, false, ◌&&◌, ◌||◌, Option,
  some, List, [], ◌∷◌, ◌==◌, is_null, update, count, length, leb, arith, String, Bool-cases,
  Option-cases, inl, inr, if◌then◌else◌, ==-refl, All,
}
use frimo_messenger.Errors.{Error, Result, ok, err, is, non_retryable}
use frimo_messenger.Domain.{Uuid, Time, Event}
use frimo_messenger.Postgres.Schema.{Db, OutboxRow}
use frimo_messenger.Postgres.Outbox
use frimo_messenger.Postgres.Outbox.{
  is_held, is_pending, held_by, claim_row, process_row, retry_row, fail_row, to_event,
  first_by_time, is_claimable,
}
use frimo_messenger.Postgres.Outbox.Claims.{is_ready, first_by_time-cons, first_by_time-passes}
use frimo_messenger.Processor.{
  Processor, process_one, settle, max_attempts, lock_lease, poll_interval, Signal, fired, run,
  marked, joined,
}
use frimo_messenger.Processor.Settles.{worker, claimed_db, handled}

-- Neither processed nor failed.
abbrev pub is_unfinished : OutboxRow → Bool
is_unfinished o = is_null o.processed_at && is_null o.failed_at

-- The claims that a row may still get from a worker that ends what it began.
abbrev pub attempts_left : OutboxRow → ℕ
attempts_left o = if is_unfinished o then suc (9 - o.attempts) else 0

unfoldable pub total_left : List OutboxRow → ℕ
total_left [] = 0
total_left (o ∷ os) = attempts_left o + total_left os

total_left-le : (os : List OutboxRow) → total_left os ≤ max_attempts * count is_unfinished os
unfolding total_left count
total_left-le [] = omega arith
total_left-le (o ∷ os) = ground (arith, total_left-le os)

-- A claim and then a mark, on one row.
module _ (q p : OutboxRow → Bool) (c g : OutboxRow → OutboxRow) where
  abbrev both : OutboxRow → OutboxRow
  both o = let r = (if q o then c o else o) in if p r then g r else r

  both-le :
      ((o : OutboxRow) → attempts_left (both o) ≤ attempts_left o)
      → (os : List OutboxRow) → total_left (update p g (update q c os)) ≤ total_left os
  unfolding total_left update
  both-le fall [] = omega arith
  both-le fall (o ∷ os) = let a = fall o in let b = both-le fall os in omega (arith, a, b)

  both-lt :
      ((o : OutboxRow) → attempts_left (both o) ≤ attempts_left o)
      → (ready : OutboxRow → Bool) (os : List OutboxRow) (o : OutboxRow)
      → first_by_time ready os ≡ some o
      → attempts_left (both o) < attempts_left o
      → total_left (update p g (update q c os)) < total_left os
  unfolding total_left update first_by_time
  both-lt fall ready [] o found drop = cc
  both-lt fall ready (x ∷ os) o found drop = elim (first_by_time-cons ready x os o found) [
    | inl (e, _) ↦
        let d = subst (λ r. attempts_left (both r) < attempts_left r) e drop in
        let b = both-le fall os in omega (arith, d, b)
    | inr (e, _) ↦ let a = fall x in let b = both-lt fall ready os o e drop in omega (arith, a, b)
  ]

module _ (lock_id : Uuid) (at t : Time) (o : OutboxRow) (ready : OutboxRow → Bool)
    (os : List OutboxRow) (found : first_by_time ready os ≡ some o)
    (unfinished : is_unfinished o ≡ true) where
  processed-lt :
      total_left (
        update
          (is_held o.id lock_id)
          (process_row t)
          (update (λ r. r.id == o.id) (claim_row lock_id at) os))
      < total_left os
  processed-lt =
      both-lt (λ r. r.id == o.id) (is_held o.id lock_id) (claim_row lock_id at) (process_row t)
        (λ r. ground arith) ready os o found
        (ground (arith, ==-refl o.id, ==-refl lock_id, unfinished))

  failed-lt :
      (message : String)
      → total_left (
          update
            (is_held o.id lock_id)
            (fail_row t message)
            (update (λ r. r.id == o.id) (claim_row lock_id at) os))
        < total_left os
  failed-lt message =
      both-lt (λ r. r.id == o.id) (is_held o.id lock_id) (claim_row lock_id at) (fail_row t message)
        (λ r. ground arith) ready os o found
        (ground (arith, ==-refl o.id, ==-refl lock_id, unfinished))

  -- An event that is put back had an attempt left, which the claim has used.
  retried-lt :
      (message : String)
      → leb max_attempts (o.attempts + 1) ≡ false
      → total_left (
          update
            (is_pending o.id lock_id)
            (retry_row t message)
            (update (λ r. r.id == o.id) (claim_row lock_id at) os))
        < total_left os
  retried-lt message left =
      both-lt (λ r. r.id == o.id) (is_pending o.id lock_id) (claim_row lock_id at)
        (retry_row t message) (λ r. ground arith) ready os o found
        (ground (arith, ==-refl o.id, ==-refl lock_id, unfinished, left))

-- The work claimed an event and leaves fewer claims.
abbrev Spends : ℕ → {S : Type 0} → (Bool × Option Error) × (Db × S) → Type 0
Spends n out = (out.0.0 ≡ true) × (total_left out.1.0.outbox < n)

module _ {S : Type 0} (p : Processor (Db × S)) (n : ℕ) (w : Db × S)
    (less : total_left w.0.outbox < n) where
  Spends-marked : (r : Result (Unit {0})) → Spends n (marked p (r, w))
  Spends-marked (ok x) = (refl, less)
  Spends-marked (err e) = (refl, less)

  Spends-joined : (e : Error) (r : Result (Unit {0})) → Spends n (joined p e (r, w))
  Spends-joined e (ok x) = (refl, less)
  Spends-joined e (err m) = (refl, less)

-- Rounds of a worker that claims at the cost of a measure.
module _ {W : Type 0} (p : Processor W) (m : W → ℕ)
    (fares : (w : W)
      → (((process_one p w).0.0 ≡ true) × (m (process_one p w).1 < m w))
        ⊎ (((process_one p w).0.0 ≡ false) × (m (process_one p w).1 ≤ m w))) where
  rounds_spent :
      (signals : List Signal) (w : W)
      → All (λ g. g ≡ fired false) signals
      → (count (λ d. d == 0) (run p signals w).0 ≤ m w)
        × (length signals
            ≡ count (λ d. d == 0) (run p signals w).0
              + count (λ d. d == poll_interval) (run p signals w).0)
  unfolding run count length
  rounds_spent [] w alive = (omega arith, refl)
  rounds_spent (g ∷ signals) w (now, later) =
      let ih = rounds_spent signals (process_one p w).1 later in ground (arith, now, ih, fares w)

module _ (S : Type 0) (clock : S → Time × S) (fresh : S → Uuid × S) (random : S → ℕ × S)
    (error_text : Error → String) (handle : Event → Db × S → Result (Unit {0}) × (Db × S)) where
  settle-lt :
      (answer : Result (Unit {0})) (lock_id : Uuid) (at : Time) (o : OutboxRow)
      (ready : OutboxRow → Bool) (db db' : Db) (s : S)
      → first_by_time ready db.outbox ≡ some o
      → is_unfinished o ≡ true
      → db'.outbox ≡ update (λ r. r.id == o.id) (claim_row lock_id at) db.outbox
      → Spends (total_left db.outbox) (
          settle
            (worker S clock fresh random error_text handle)
            (to_event (claim_row lock_id at o))
            lock_id
            answer
            (db', s))
  unfolding settle Outbox.mark_processed Outbox.mark_failed Outbox.schedule_retry
  settle-lt (ok tt) lock_id at o ready db db' s found unfinished leaves =
      Spends-marked (worker S clock fresh random error_text handle) _ _
        (rw leaves (processed-lt lock_id at (clock s).0 o ready db.outbox found unfinished)) _
  settle-lt (err e) lock_id at o ready db db' s found unfinished leaves =
      elim (Bool-cases (is e non_retryable || leb max_attempts (o.attempts + 1))) [
        | inl final ↦ rw (final) (
            Spends-joined (worker S clock fresh random error_text handle) _ _
              (rw leaves (failed-lt lock_id at (clock s).0 o ready db.outbox found unfinished _)) e
              _)
        | inr again ↦ rw (again) (
            Spends-joined (worker S clock fresh random error_text handle) _ _
              (rw leaves (
                retried-lt lock_id at _ o ready db.outbox found unfinished _
                  (ground (arith, again))))
              e _)
      ]

  -- What `processOne` does with the claims that are left: it claimed and used one, or had none.
  abbrev Fares : ℕ → (Bool × Option Error) × (Db × S) → Type 0
  Fares n out = Spends n out ⊎ ((out.0.0 ≡ false) × (total_left out.1.0.outbox ≤ n))

  module _
      (leaves : (e : Event) (db : Db) (s : S) → (handle e (db, s)).1.0.outbox ≡ db.outbox) where
    abbrev own : Processor (Db × S)
    own = worker S clock fresh random error_text handle

    process_one-Fares : (db : Db) (s : S) → Fares (total_left db.outbox) (process_one own (db, s))
    unfolding process_one Outbox.claim_next
    process_one-Fares db s =
        let at = (clock s).0 in
        let lock_id = (fresh (clock s).1).0 in
        let ready = is_ready (λ _. false) at (at - lock_lease) in
        elim (Option-cases (first_by_time ready db.outbox)) [
          | inl missing ↦ rw missing (inr (refl, omega arith))
          | inr (o, found) ↦ rw found (
              let passes = first_by_time-passes ready db.outbox o found in
              let before = claimed_db S clock fresh random error_text handle db s o in
              let (answer, (after, s')) = handled S clock fresh random error_text handle db s o in
              inl (
                settle-lt answer lock_id at o ready db after s' found (ground (arith, passes))
                  (leaves (to_event (claim_row lock_id at o)) before (fresh (clock s).1).1)))
        ]

    -- With the server up, a handler that leaves the queue alone and nobody that adds to it: as long as
    -- its context is not done, `Run` finds work at once, that is with no wait before the next round,
    -- at most ten times for each event that is neither processed nor failed, and every other round
    -- ends in a wait of the polling interval.
    pub run_drains :
        (signals : List Signal) (db : Db) (s : S)
        → All (λ g. g ≡ fired false) signals
        → (count (λ d. d == 0) (run own signals (db, s)).0
            ≤ max_attempts * count is_unfinished db.outbox)
          × (length signals
              ≡ count (λ d. d == 0) (run own signals (db, s)).0
                + count (λ d. d == poll_interval) (run own signals (db, s)).0)
    run_drains signals db s alive =
        let (spent, rounds) =
          rounds_spent own (λ w. total_left w.0.outbox) (λ w. process_one-Fares w.0 w.1) signals
            (db, s) alive in
        let bound = total_left-le db.outbox in (omega (arith, spent, bound), rounds)
