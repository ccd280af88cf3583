-- ===== src/Server/Silence.antt =====
-- `POST /auth/resend` of the server: a client does not learn what is known of an email.
use frimo_messenger.Base.{◌≡◌, refl, false, String, Option, [], ◌∷◌, exists, bytes_eq, ◌==◌}
use frimo_messenger.Errors.{Result, ok}
use frimo_messenger.Domain.{Identity, VerificationInput, Event, ResendVerificationInput}
use frimo_messenger.Config.{Config}
use frimo_messenger.Postgres.Schema.{Db}
use frimo_messenger.Postgres.Link.{no_faults}
use frimo_messenger.Postgres.Auth.Silence.{
  Outcome, unknown, confirmed, limited, cooling, scheduled, resend_verification-decided,
}
use frimo_messenger.Service.Flows.{normalize_email, prepare_email_verification, resend_verification}
use frimo_messenger.Service.Validation.{validate_email}
use frimo_messenger.Http.{Request, write_header}
use frimo_messenger.Http.Requests.{Decoders}
use frimo_messenger.Http.Handlers.{resend_verification_token}
use frimo_messenger.Http.Responses.{resend_answer}
use frimo_messenger.Server.{Environment, ports}
use frimo_messenger.Server.Web.{services}

Outcome-accepted :
    {input : ResendVerificationInput} {db db' : Db} {x : Result (Unit {0})}
    → Outcome input db x db'
    → resend_answer x ≡ write_header 202 ∷ []
unfolding resend_answer
Outcome-accepted (unknown a) = refl
Outcome-accepted (confirmed u a b) = refl
Outcome-accepted (limited u a b) = refl
Outcome-accepted (cooling u a b c) = refl
Outcome-accepted (scheduled u a b c) = refl

module _ {S : Type 0} (env : Environment S) (cfg : Config) (decoders : Decoders) where
  -- The request of a new verification that the service makes.
  abbrev pub resend_input : String → S → VerificationInput → Event → ResendVerificationInput
  resend_input email s verification event = record {
    email = normalize_email (ports env cfg) email;
    requested_at = (env.clock s).0;
    verification = verification;
    outbox_event = event;
  }

  -- Let the body decode to an email that is valid, the token be generated and encrypted, the database
  -- be up, and the new identifiers and the new hash be new to its tables. A resend is then answered by
  -- the empty response of status 202, whichever it is: the email has no user, and the tables stay;
  -- its user has confirmed it, has five tokens of the last hour, or one of the last minute, and the
  -- tables stay; or a new token is written and its mail queued.
  pub resend_tells_no_users :
      (r : Request) (identity : Option Identity) (email : String) (db : Db) (s s2 : S)
      (verification : VerificationInput) (event : Event)
      → decoders.unmarshal_resend r.body ≡ ok email
      → validate_email env.parse_address (normalize_email (ports env cfg) email) ≡ ok tt
      → prepare_email_verification
          (ports env cfg)
          (normalize_email (ports env cfg) email)
          (env.clock s).0
          (db, (env.clock s).1)
        ≡ (ok (verification, event), (db, s2))
      → env.link s2 ≡ no_faults
      → exists (λ v. v.id == verification.id) db.verifications ≡ false
      → exists (λ v. bytes_eq v.token_hash verification.token_hash) db.verifications ≡ false
      → exists (λ o. o.id == event.id) db.outbox ≡ false
      → let out = resend_verification_token (services env cfg) decoders r identity (db, s) in
        (x : Result (Unit {0})) × Outcome (resend_input email s verification event) db x out.world.0
        × (out.ops ≡ write_header 202 ∷ [])
  unfolding resend_verification_token resend_verification
  resend_tells_no_users r identity email db s s2 verification event decoded valid prepared up new_id
        new_hash new_event =
      let (x, db', runs, why) =
        resend_verification-decided (resend_input email s verification event) db new_id new_hash
          new_event in
      (
        x,
        rw (decoded, valid, prepared, up, runs) why,
        rw (decoded, valid, prepared, up, runs) (Outcome-accepted why),
      )
