-- ===== src/Programs/Workers.antt =====
-- cmd/worker/main.go: the worker's loop with what it is given there, the queue and the dispatcher over
-- PostgreSQL, the cipher and the sender that logs.
use frimo_messenger.Base.{ℕ, Bytes, Bool, String, Option, List}
use frimo_messenger.Errors.{Error, Result}
use frimo_messenger.Domain.{Uuid, Time, Event}
use frimo_messenger.Config.{Config}
use frimo_messenger.Postgres.Schema.{Db, UserRow, VerificationRow, SessionRow, RefreshTokenRow}
use frimo_messenger.Postgres.Link.{Fault, Faults}
use frimo_messenger.Postgres.Outbox
use frimo_messenger.Security.Cipher.{Aead}
use frimo_messenger.Processor.{Processor, Signal}
use frimo_messenger.Processor.Settles as Settles
use frimo_messenger.Dispatcher.{handle}
use frimo_messenger.Server.Worker.{worker_dispatcher, token_decrypt}
use frimo_messenger.Logs.{send_verification}
use frimo_messenger.Programs.{Trace, Libraries, worker}

-- What the worker calls that is not of this repository, on a state `S` beside the tables. `link` has
-- the faults of the dispatcher's queries, `queue_link` those of the queue's calls, and `busy` the rows of
-- the queue that other statements hold.
pub record WorkerLibraries (S : Type 0) : Type 0 where
  pub clock : S → Time × S
  pub new_uuid : S → Uuid × S
  pub rand_float : S → ℕ × S
  pub log_warn : String → List (String × String) → S → S
  pub link : Faults
  pub queue_link : S → Fault
  pub busy : S → Uuid → Bool
  pub uuid_bytes : Uuid → Bytes
  pub bytes_text : Bytes → String
  pub query_escape : String → String
  pub quoted : String → String
  pub error_text : Error → String

-- The tables beside the queue.
abbrev pub Accounts : Type 0
Accounts = List UserRow × List VerificationRow × List SessionRow × List RefreshTokenRow

abbrev pub accounts : Db → Accounts
accounts db = (db.users, db.verifications, db.sessions, db.refresh_tokens)

module _ {S : Type 0} (env : WorkerLibraries S) where
  abbrev delivery : Config → Aead → Event → Db × S → Result (Unit {0}) × (Db × S)
  delivery cfg aead = handle (
      worker_dispatcher S cfg env.link (send_verification env.log_warn) env.clock
        (token_decrypt aead env.uuid_bytes env.bytes_text) env.query_escape env.quoted)

  -- The processor that `main` of cmd/worker makes.
  abbrev pub processor : Config → Aead → Processor (Db × S)
  processor cfg aead =
      Settles.worker_on S env.clock env.new_uuid env.rand_float env.error_text (delivery cfg aead)
        env.queue_link env.busy

  module _ (l : Libraries) {Block : Type 0} (new_aes : Bytes → Result Block)
      (new_gcm : Block → Result Aead) (signals : List Signal) (vars : String → Option String)
      (decode_base64 : String → Result Bytes) where
    -- `main` of cmd/worker.
    abbrev pub main : Db × S → Trace × (Db × S)
    main = worker l new_aes new_gcm processor signals vars decode_base64
