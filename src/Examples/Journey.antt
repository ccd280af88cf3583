-- ===== src/Examples/Journey.antt =====
-- A registration at the server, its mail and the request of the link in it.
use frimo_messenger.Base.{◌≡◌, refl, arith, exists}
use frimo_messenger.Errors.{Result, ok}
use frimo_messenger.Domain.{User, RegistrationInput}
use frimo_messenger.Postgres.Schema.{Db, insert_user, insert_verification, insert_outbox}
use frimo_messenger.Postgres.Auth.{create_user}
use frimo_messenger.Service.Flows.{
  normalize_email, register, prepare_email_verification, generate_verification_input,
}
use frimo_messenger.Service.Validation.{trim_space, validate_email, validate_password}
use frimo_messenger.Security.Cipher.{encrypt}
use frimo_messenger.Security.Token.{generate_token}
use frimo_messenger.Security.Base64.{encode}
use frimo_messenger.Security.Argon2.{hash_password}
use frimo_messenger.Dispatcher.{VerificationMessage}
use frimo_messenger.Server.{ports}
use frimo_messenger.Server.Journey.{LinkConfirms, mail_link_answered}
use frimo_messenger.Examples.{ann_db}
use frimo_messenger.Examples.Service.{World, start}
use frimo_messenger.Examples.Security.{read_sevens-IsRandom, toy-IsAead}
use frimo_messenger.Examples.Texts.{codes_text, codes_text-codes}
use frimo_messenger.Examples.Config.{cfg}
use frimo_messenger.Examples.Server.{env}
use frimo_messenger.Examples.Http.{decoders}
use frimo_messenger.Examples.Login.{request, not_found}

abbrev send : VerificationMessage → World → Result (Unit {0}) × World
send m w = (ok tt, w)

abbrev input : RegistrationInput
input = record { email = " bob@example.org "; password = "correct horse" }

abbrev after : Db × World
after = (register (ports env cfg) input (ann_db, start)).1

abbrev bob : User
bob = record { id = 102; email = "bob@example.org"; created_at = 100 }

registers : register (ports env cfg) input (ann_db, start) ≡ (ok bob, (after.0, after.1))
unfolding register normalize_email trim_space validate_email validate_password
    prepare_email_verification generate_verification_input create_user insert_user
    insert_verification insert_outbox hash_password generate_token encrypt encode exists
registers = refl

mail_link_answered_example :
    LinkConfirms env cfg decoders not_found codes_text send
      (λ s. s)
      (λ s. s)
      (normalize_email (ports env cfg) input.email)
      ann_db
      bob
      after.0
      request
      start
mail_link_answered_example =
    mail_link_answered env toy-IsAead (omega arith) read_sevens-IsRandom (λ w e. ground (arith, e))
      codes_text codes_text-codes cfg decoders not_found send (λ s. s) (λ s. s) input ann_db after.0
      start after.1 bob request start registers refl
