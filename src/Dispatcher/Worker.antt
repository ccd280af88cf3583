-- ===== src/Dispatcher/Worker.antt =====
-- The worker of cmd/worker: processOne over the PostgreSQL queue with the dispatcher as its handler.
use frimo_messenger.Base.{ℕ, String, Bytes}
use frimo_messenger.Errors.{Error, Result}
use frimo_messenger.Domain.{Uuid, Time, Event}
use frimo_messenger.Postgres.Schema.{Db}
use frimo_messenger.Postgres.Link.{Faults}
use frimo_messenger.Dispatcher.{VerificationMessage, handle}
use frimo_messenger.Dispatcher.Delivery.{dispatcher}

module _ (S : Type 0) (f : Faults) (send : VerificationMessage → S → Result (Unit {0}) × S)
    (clock : S → Time × S) (fresh : S → Uuid × S) (random : S → ℕ × S)
    (decrypt : Bytes → Uuid → Result String) (base_url : String)
    (query_escape quoted : String → String) (error_text : Error → String) (db : Db) (s : S) where
  abbrev pub handler : Event → Db × S → Result (Unit {0}) × (Db × S)
  handler = handle (dispatcher S f send clock decrypt base_url query_escape quoted)
