-- ===== src/Examples/Checks.antt =====
-- Calls on empty tables: a registration, a claim of its event, and a retry of it.
use frimo_messenger.Base.{false, []}
use frimo_messenger.Postgres.Schema.{Db}
use frimo_messenger.Postgres.Link.{up, no_faults}
use frimo_messenger.Postgres.Auth.{create_user}
use frimo_messenger.Postgres.Outbox.{claim_next, schedule_retry}
use frimo_messenger.Postgres.Checks.{
  IsChecked, Changes, here, next, creates_user, claims, retries, Changes-IsChecked,
}
use frimo_messenger.Postgres.Outbox.Lifecycle.Calls.{IsEvolved, queue_refines}
use frimo_messenger.Examples.{empty_db, bob}

abbrev with_bob : Db
with_bob = (create_user (λ s. s) no_faults bob empty_db).1

abbrev with_claim : Db
with_claim = (claim_next (λ id. false) up 70 200 100 with_bob).1

abbrev with_retry : Db
with_retry = (schedule_retry up 40 70 300 "failed" with_claim).1

three : Changes empty_db with_retry
three =
    next
      (next (next here (creates_user (λ s. s) no_faults bob)) (claims (λ id. false) up 70 200 100))
      (retries up 40 70 300 "failed")

Changes-IsChecked_example : IsChecked with_retry
Changes-IsChecked_example = Changes-IsChecked three (record { locks = tt; uses = tt })

queue_refines_example : IsEvolved [] with_retry
queue_refines_example = queue_refines three tt tt
