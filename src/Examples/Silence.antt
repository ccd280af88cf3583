-- ===== src/Examples/Silence.antt =====
-- A resend at the small server, for an email that it may know.
use frimo_messenger.Base.{◌≡◌, refl, false, none, [], ◌∷◌, exists, bytes_eq, ◌==◌}
use frimo_messenger.Errors.{Result, ok, err}
use frimo_messenger.Domain.{VerificationInput, Event, requested, email_verification_requested_type}
use frimo_messenger.Postgres.Schema.{Db}
use frimo_messenger.Postgres.Auth.Silence.{Outcome}
use frimo_messenger.Service.Flows.{
  normalize_email, prepare_email_verification, generate_verification_input,
}
use frimo_messenger.Service.Validation.{trim_space, validate_email}
use frimo_messenger.Security.Cipher.{encrypt}
use frimo_messenger.Security.Token.{generate_token}
use frimo_messenger.Security.Base64.{encode}
use frimo_messenger.Http.{write_header}
use frimo_messenger.Http.Handlers.{resend_verification_token}
use frimo_messenger.Server.{ports}
use frimo_messenger.Server.Web.{services}
use frimo_messenger.Server.Silence.{resend_input, resend_tells_no_users}
use frimo_messenger.Examples.{ann_db}
use frimo_messenger.Examples.Service.{World, start}
use frimo_messenger.Examples.Http.{decoders}
use frimo_messenger.Examples.Login.{request}
use frimo_messenger.Examples.Server.{env}
use frimo_messenger.Examples.Config.{cfg}

abbrev prepared : Result (VerificationInput × Event) × (Db × World)
prepared =
    prepare_email_verification (ports env cfg) (normalize_email (ports env cfg) "ann@example.org")
      (env.clock start).0 (ann_db, (env.clock start).1)

abbrev no_event : Event
no_event = record {
  id = 0;
  event_type = email_verification_requested_type;
  payload = requested 0 "";
  created_at = 0;
  available_at = 0;
  attempts = 0;
}

abbrev parts_of : Result (VerificationInput × Event) → VerificationInput × Event
parts_of (ok p) = p
parts_of (err e) =
    (record { id = 0; token_hash = []; token_ciphertext = []; expires_at = 0 }, no_event)

abbrev new_token : VerificationInput
new_token = (parts_of prepared.0).0

abbrev new_event : Event
new_event = (parts_of prepared.0).1

prepares :
    prepare_email_verification
      (ports env cfg)
      (normalize_email (ports env cfg) "ann@example.org")
      (env.clock start).0
      (ann_db, (env.clock start).1)
    ≡ (ok (new_token, new_event), (ann_db, prepared.1.1))
unfolding normalize_email trim_space prepare_email_verification generate_verification_input
    generate_token encrypt encode
prepares = refl

valid : validate_email env.parse_address (normalize_email (ports env cfg) "ann@example.org") ≡ ok tt
unfolding normalize_email trim_space validate_email
valid = refl

free :
    (exists (λ v. v.id == new_token.id) ann_db.verifications ≡ false)
    × (exists (λ v. bytes_eq v.token_hash new_token.token_hash) ann_db.verifications ≡ false)
    × (exists (λ o. o.id == new_event.id) ann_db.outbox ≡ false)
unfolding exists
free = (refl, refl, refl)

resend_tells_no_users_example :
    let out = resend_verification_token (services env cfg) decoders request none (ann_db, start) in
    (x : Result (Unit {0})) × Outcome
      (resend_input env cfg decoders "ann@example.org" start new_token new_event)
      ann_db
      x
      out.world.0
    × (out.ops ≡ write_header 202 ∷ [])
resend_tells_no_users_example =
    resend_tells_no_users env cfg decoders request none "ann@example.org" ann_db start prepared.1.1
      new_token new_event refl valid prepares refl free.0 free.1 free.2
