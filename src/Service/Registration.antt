-- ===== src/Service/Registration.antt =====
-- `Register` of internal/service/auth/service.go: what a registration that succeeds has done.
use frimo_messenger.Base.{◌+◌, String, Bytes, ◌≡◌, ap, ◌∙◌}
use frimo_messenger.Errors.{ok}
use frimo_messenger.Domain.{
  Uuid, Time, User, RegistrationInput, VerificationInput, Event, requested,
  email_verification_requested_type,
}
use frimo_messenger.Service.Ports.{Ports, wrapping}
use frimo_messenger.Service.Validation.{validate_email, validate_password}
use frimo_messenger.Service.Chain.{continue-ok, check-ok, wrapping-ok, pure-ok}
use frimo_messenger.Service.Flows.{
  normalize_email, register, prepare_email_verification, generate_verification_input,
}

-- The event that asks for the mail of a verification.
abbrev pub event_of : String → Time → Uuid → Uuid → Event
event_of email now id verification_id = record {
  id = id;
  event_type = email_verification_requested_type;
  payload = requested verification_id email;
  created_at = now;
  available_at = now;
  attempts = 0;
}

-- What the parts of a verification were made from. The worlds are those before and after the token
-- was generated, and before and after it was encrypted.
pub record Prepares {W : Type 0} (p : Ports W) (email : String) (now : Time) (w : W)
    (v : VerificationInput) (e : Event) (w' : W) : Type 0 where
  pub raw_token : String
  pub token_hash : Bytes
  pub generated : W
  pub ciphertext : Bytes
  pub encrypted : W
  pub generates : p.generate_token w ≡ (ok (raw_token, token_hash), generated)
  pub encrypts :
      p.encrypt raw_token (p.new_uuid generated).0 (p.new_uuid generated).1
      ≡ (ok ciphertext, encrypted)
  pub verification : v ≡ record {
    id = (p.new_uuid generated).0;
    token_hash = token_hash;
    token_ciphertext = ciphertext;
    expires_at = now + p.verification_token_lifetime;
  }
  pub event : e ≡ event_of email now (p.new_uuid encrypted).0 (p.new_uuid generated).0
  pub after : w' ≡ (p.new_uuid encrypted).1

module _ {W : Type 0} (p : Ports W) where
  pub prepare_email_verification-ok :
      (email : String) (now : Time) (w : W) {v : VerificationInput} {e : Event} {w' : W}
      → prepare_email_verification p email now w ≡ (ok (v, e), w')
      → Prepares p email now w v e w'
  unfolding prepare_email_verification generate_verification_input
  prepare_email_verification-ok email now w h =
      let (v, w1, a, h1) = continue-ok (generate_verification_input p now w) _ h in
      let ((raw, hash), w2, b, a1) =
        continue-ok (wrapping "generate verification token" p.generate_token w) _ a in
      let (c, w3, d, a2) =
        continue-ok
          (wrapping "encrypt verification token" (p.encrypt raw (p.new_uuid w2).0)
            (p.new_uuid w2).1)
          _ a1 in
      let (v_is, w1_is) = pure-ok _ w3 a2 in
      let (e_is, w'_is) = pure-ok _ (p.new_uuid w1).1 h1 in
      record {
        raw_token = raw;
        token_hash = hash;
        generated = w2;
        ciphertext = c;
        encrypted = w3;
        generates = wrapping-ok _ _ b;
        encrypts = wrapping-ok _ _ d;
        verification = ap (λ x. x.0) e_is ∙ v_is;
        event =
            ap (λ x. x.1) e_is
            ∙ ap (λ u. event_of email now (p.new_uuid u).0 v.id) w1_is
            ∙ ap (λ (x : VerificationInput). event_of email now (p.new_uuid w3).0 x.id) v_is;
        after = w'_is ∙ ap (λ u. (p.new_uuid u).1) w1_is;
      }

-- What a registration was: the password's hash, the time and the identifier, the verification and
-- its event, and the row that was created. `hashed` is the world after the password was hashed.
pub record Registers {W : Type 0} (p : Ports W) (input : RegistrationInput) (w : W) (u : User)
    (w' : W) : Type 0 where
  pub password_hash : String
  pub hashed : W
  pub verification : VerificationInput
  pub event : Event
  pub prepared : W
  pub email : validate_email p.parse_address (normalize_email p input.email) ≡ ok tt
  pub password : validate_password input.password ≡ ok tt
  pub hashes : p.hash_password input.password w ≡ (ok password_hash, hashed)
  pub prepares :
      Prepares p
        (normalize_email p input.email)
        (p.now hashed).0
        (p.new_uuid (p.now hashed).1).1
        verification
        event
        prepared
  pub creates :
      p.create_user
        (record {
          id = (p.new_uuid (p.now hashed).1).0;
          email = normalize_email p input.email;
          password_hash = password_hash;
          created_at = (p.now hashed).0;
          verification = verification;
          outbox_event = event;
        })
        prepared
      ≡ (ok u, w')

module _ {W : Type 0} (p : Ports W) where
  pub register-ok :
      (input : RegistrationInput) (w : W) {u : User} {w' : W}
      → register p input w ≡ (ok u, w')
      → Registers p input w u w'
  unfolding register
  register-ok input w h =
      let email = normalize_email p input.email in
      let (a, h1) = check-ok (validate_email p.parse_address email) w _ h in
      let (b, h2) = check-ok (validate_password input.password) w _ h1 in
      let (hash, w1, c, h3) =
        continue-ok (wrapping "hash password" (p.hash_password input.password) w) _ h2 in
      let ((v, e), w2, d, h4) =
        continue-ok (prepare_email_verification p email (p.now w1).0 (p.new_uuid (p.now w1).1).1) _
          h3 in
      record {
        password_hash = hash;
        hashed = w1;
        verification = v;
        event = e;
        prepared = w2;
        email = a;
        password = b;
        hashes = wrapping-ok _ _ c;
        prepares = prepare_email_verification-ok p email (p.now w1).0 (p.new_uuid (p.now w1).1).1 d;
        creates = h4;
      }
