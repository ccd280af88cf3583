-- ===== src/Examples/Queue.antt =====
-- outbox_repository.go and processor.go on a queue with one mail to send, and later another.
use frimo_messenger.Base.{
  ℕ, ◌-◌, ◌+◌, ◌*◌, ◌≡◌, ◌≢◌, ◌≤◌, Bool, true, false, ◌&&◌, refl, String, [], ◌∷◌, some, none,
  update, exists, count, All, arith, ◌==◌,
}
use frimo_messenger.Errors.{Error, Result, ok, err, sentinel, wrap, lease_lost}
use frimo_messenger.Domain.{Uuid, Event, second}
use frimo_messenger.Postgres.Schema.{Db, OutboxRow, insert_outbox}
use frimo_messenger.Postgres.Link.{up}
use frimo_messenger.Postgres.Outbox.{
  claim, claim_next, first_by_time, claim_row, to_event, mark_processed, schedule_retry,
  mark_failed, process_row, is_claimable,
}
use frimo_messenger.Postgres.Outbox.Claims.{IsNext, claim_next-ok}
use frimo_messenger.Postgres.Outbox.Actions.{Actions, Keeps, here, next, inserts}
use frimo_messenger.Postgres.Outbox.Leases.{lease_exclusive, lease_kept}
use frimo_messenger.Postgres.Outbox.Marks.{marks_fenced}
use frimo_messenger.Processor.{process_one, retry_base_delay, retry_delay}
use frimo_messenger.Processor.Delay.{retry_delay_bounds}
use frimo_messenger.Processor.Settles.{worker_on, IsSettled, process_one_settles}
use frimo_messenger.Examples.{mail_row, queue_db}

abbrev idle : Uuid → Bool
idle id = false

-- Locked under 60 at the time 200.
abbrev claimed_mail : Event
claimed_mail = to_event (claim_row 60 200 mail_row)

abbrev claimed_db : Db
claimed_db = record queue_db { outbox = claim_row 60 200 mail_row ∷ [] }

claims_mail : claim_next idle up 60 200 0 queue_db ≡ (ok claimed_mail, claimed_db)
unfolding claim_next claim first_by_time update
claims_mail = refl

abbrev second_row : OutboxRow
second_row = record mail_row { id = 41; created_at = 250; available_at = 250 }

abbrev both_db : Db
both_db = record claimed_db { outbox = second_row ∷ claim_row 60 200 mail_row ∷ [] }

adds_second : insert_outbox second_row claimed_db ≡ ok both_db
unfolding insert_outbox exists
adds_second = refl

abbrev meanwhile : Actions 60 200 claimed_db both_db
meanwhile = next here (inserts second_row both_db adds_second)

one_mail : count (λ o. o.id == 40) queue_db.outbox ≡ 1
unfolding count
one_mail = refl

abbrev second_claimed : Db
second_claimed = record both_db {
  outbox = claim_row 61 300 second_row ∷ claim_row 60 200 mail_row ∷ [];
}

abbrev second_mail : Event
second_mail = to_event (claim_row 61 300 second_row)

claims_second :
    claim_next idle up 61 300 (300 - 60 * second) both_db ≡ (ok second_mail, second_claimed)
unfolding claim_next claim first_by_time update
claims_second = refl

lease_exclusive_example : second_mail.id ≢ claimed_mail.id
lease_exclusive_example =
    lease_exclusive idle idle up up 60 61 200 0 300 (60 * second) queue_db claimed_db both_db
      second_claimed claimed_mail second_mail claims_mail one_mail meanwhile (omega arith)
      claims_second

lease_kept_example :
    mark_processed up 40 60 400 both_db
    ≡ (ok tt, record both_db { outbox = update (λ o. o.id == 40) (process_row 400) both_db.outbox })
lease_kept_example =
    lease_kept idle up 60 200 0 400 queue_db claimed_db both_db claimed_mail claims_mail one_mail
      meanwhile

claim_next-ok_example :
    (o : OutboxRow) × IsNext idle 200 0 o queue_db.outbox
    × (claimed_mail ≡ to_event (claim_row 60 200 o))
    × (claimed_db ≡ record queue_db {
      outbox = update (λ r. r.id == o.id) (claim_row 60 200) queue_db.outbox;
    })
claim_next-ok_example = claim_next-ok idle up 60 200 0 queue_db claimed_db claimed_mail claims_mail

unheld_by_other : All (λ (o : OutboxRow). o.id ≡ 40 → o.lock_id ≢ some 61) claimed_db.outbox
unheld_by_other = (λ own same. ground arith, tt)

marks_fenced_example :
    (mark_processed up 40 61 400 claimed_db
      ≡ (err (wrap "mark outbox event processed" (sentinel lease_lost)), claimed_db))
    × (schedule_retry up 40 61 400 "late" claimed_db
        ≡ (err (wrap "schedule outbox retry" (sentinel lease_lost)), claimed_db))
    × (mark_failed up 40 61 400 "late" claimed_db
        ≡ (err (wrap "mark outbox event failed" (sentinel lease_lost)), claimed_db))
marks_fenced_example = marks_fenced 40 61 400 "late" claimed_db unheld_by_other

abbrev processed_db : Db
processed_db = record claimed_db { outbox = process_row 220 (claim_row 60 200 mail_row) ∷ [] }

processes_mail : mark_processed up 40 60 220 claimed_db ≡ (ok tt, processed_db)
unfolding mark_processed count update
processes_mail = refl

retry_delay_bounds_example :
    (retry_base_delay 3 * 3 ≤ retry_delay 3 5 * 4) × (retry_delay 3 5 * 4 ≤ retry_base_delay 3 * 5)
retry_delay_bounds_example = retry_delay_bounds 3 5 (omega arith)

-- A worker whose state is a clock that advances by one at each reading, and whose handler refuses.
abbrev tick : ℕ → ℕ × ℕ
tick s = (s, s + 1)

abbrev refuses : Event → Db × ℕ → Result (Unit {0}) × (Db × ℕ)
refuses e (db, s) = (err (sentinel lease_lost), (db, s + 10))

abbrev text : Error → String
text e = "refused"

next_is_mail : first_by_time (λ o. is_claimable 200 0 o && true) queue_db.outbox ≡ some mail_row
unfolding first_by_time
next_is_mail = refl

process_one_settles_example :
    ((process_one
        (worker_on ℕ tick tick tick text refuses (λ s. up) (λ s id. false))
        (queue_db, 200)).0
      ≡ (true, none))
    × Keeps 40
        (IsSettled (err (sentinel lease_lost)) 1 212)
        (process_one
          (worker_on ℕ tick tick tick text refuses (λ s. up) (λ s id. false))
          (queue_db, 200)).1.0
process_one_settles_example =
    process_one_settles ℕ tick tick tick text refuses queue_db 200 mail_row (λ s. up)
      (λ s id. false) (λ s. refl) (λ s id. refl) next_is_mail one_mail refl
