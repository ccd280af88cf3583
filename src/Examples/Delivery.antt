-- ===== src/Examples/Delivery.antt =====
-- dispatcher.go on the mail of a registration.
use frimo_messenger.Base.{◌+◌, ◌≡◌, refl, String, false, List, [], ◌∷◌, Bytes, find}
use frimo_messenger.Errors.{Error, Result, ok}
use frimo_messenger.Domain.{Uuid, Time}
use frimo_messenger.Postgres.Schema.{Db}
use frimo_messenger.Postgres.Link.{no_faults, up}
use frimo_messenger.Postgres.Auth.{get_for_delivery}
use frimo_messenger.Postgres.Auth.Registration.{registered}
use frimo_messenger.Processor.{Processor, Signal, fired}
use frimo_messenger.Processor.Settles.{worker_on}
use frimo_messenger.Dispatcher.{VerificationMessage, handle, handle_email_verification_requested}
use frimo_messenger.Dispatcher.Delivery.{dispatcher, Outcome, handle-Outcome}
use frimo_messenger.Examples.{ann_db, bob, mail}

-- The time, and the mails that were sent.
record Mailbox : Type 0 where
  time : Time
  mails : List VerificationMessage

abbrev send : VerificationMessage → Mailbox → Result (Unit {0}) × Mailbox
send m s = (ok tt, record s { mails = m ∷ s.mails })

abbrev clock : Mailbox → Time × Mailbox
clock s = (s.time, record s { time = s.time + 1 })

abbrev decrypt : Bytes → Uuid → Result String
decrypt c id = ok "token"

abbrev same_text : String → String
same_text s = s

abbrev text : Error → String
text e = "failed"

abbrev bob_db : Db
bob_db = registered bob ann_db

abbrev quiet : Mailbox
quiet = record { time = 200; mails = [] }

abbrev base : String
base = "https://example.org"

abbrev mailed : Db × Mailbox
mailed = (
  bob_db,
  record {
    time = 201;
    mails =
        record {
          recipient = "bob@example.org";
          verification_url = "https://example.org/auth/verify-email?token=token";
        }
        ∷ [];
  },
)

sends_the_mail :
    handle
      (dispatcher Mailbox no_faults send clock decrypt base same_text same_text)
      mail
      (bob_db, quiet)
    ≡ (ok tt, mailed)
unfolding handle handle_email_verification_requested get_for_delivery find
sends_the_mail = refl

handle-Outcome_example :
    Outcome Mailbox no_faults send clock decrypt base same_text same_text mail.payload bob_db quiet
      (handle
        (dispatcher Mailbox no_faults send clock decrypt base same_text same_text)
        mail
        (bob_db, quiet)).1
handle-Outcome_example =
    handle-Outcome Mailbox no_faults send clock decrypt base same_text same_text mail bob_db quiet

abbrev two_rounds : List Signal
two_rounds = fired false ∷ fired false ∷ []

abbrev own : Processor (Db × Mailbox)
own =
    worker_on Mailbox clock clock clock text
      (handle (dispatcher Mailbox no_faults send clock decrypt base same_text same_text)) (λ s. up)
      (λ s id. false)
