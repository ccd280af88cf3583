-- ===== src/Server/Registration.antt =====
-- From `Register` of the server to the mail of the worker and back to `ConfirmEmail`: the token that
-- the mail carries is the one that confirms.
use frimo_messenger.Base.{
  ℕ, ◌<◌, ◌≡◌, ◌≢◌, refl, sym, ap, ◌∙◌, false, Option, String, Bytes, [], ◌∷◌, str_eq, ltb, ◌==◌,
  if◌then◌else◌, exists, length, arith, Bool-cases, inl, inr,
}
use frimo_messenger.Errors.{Result, ok, err, sentinel, expired_token}
use frimo_messenger.Domain.{
  Time, User, RegistrationInput, CreateUserInput, VerificationInput, Event, requested,
  email_verification_requested_type,
}
use frimo_messenger.Postgres.Schema.{Db}
use frimo_messenger.Postgres.Link.{no_faults}
use frimo_messenger.Postgres.Auth.{is_empty, confirm_email, outbox_row}
use frimo_messenger.Postgres.Auth.Registration.{registered, created, create_user-ok}
use frimo_messenger.Postgres.Auth.Confirmation.{confirmed}
use frimo_messenger.Dispatcher.{VerificationMessage, handle}
use frimo_messenger.Security.Cipher
use frimo_messenger.Security.Cipher.{Aead, IsAead, IsRandom, decrypt-encrypt}
use frimo_messenger.Security.Base64.{encode, url_alphabet, encode-full}
use frimo_messenger.Security.Token.{token_size, generated, generate_token, hash_token}
use frimo_messenger.Config.{Config}
use frimo_messenger.Server.{Environment, ports}
use frimo_messenger.Server.Mail.{confirm-registered, worker, mail, handle-registered}
use frimo_messenger.Server.Worker.{token_decrypt}
use frimo_messenger.Service.Ports.{Call, wrapping}
use frimo_messenger.Service.Chain.{wrapping-ok}
use frimo_messenger.Service.Validation.{validate_email}
use frimo_messenger.Service.Flows.{normalize_email, register}
use frimo_messenger.Service.Registration.{register-ok}

-- Lemmas on what the server's calls have done.

generated-ok :
    {W : Type 0} (sha256 : String → Bytes) (r : Result Bytes × W) {raw : String} {hash : Bytes}
    {w1 : W}
    → generated sha256 r ≡ (ok (raw, hash), w1)
    → hash ≡ sha256 raw
generated-ok sha256 (ok bytes, w) h = ground arith
generated-ok sha256 (err e, w) h = cc

pub generate_token-ok :
    {W : Type 0} (sha256 : String → Bytes) (read_random : ℕ → Call W Bytes) (w : W) {raw : String}
    {hash : Bytes} {w1 : W}
    → generate_token sha256 read_random w ≡ (ok (raw, hash), w1)
    → hash ≡ sha256 raw
unfolding generate_token
generate_token-ok sha256 read_random w h =
    generated-ok sha256 (wrapping "failed generate random token" (read_random token_size) w) h

generated-full :
    {W : Type 0} (sha256 : String → Bytes) (r : Result Bytes × W) (raw : String) (hash : Bytes)
    (w1 : W)
    → ((bytes : Bytes) → r.0 ≡ ok bytes → 0 < length bytes)
    → generated sha256 r ≡ (ok (raw, hash), w1)
    → str_eq raw "" ≡ false
generated-full sha256 (ok bytes, w) raw hash w1 long h =
    let same : raw ≡ encode url_alphabet bytes = ground arith in
    rw same (encode-full url_alphabet bytes (long bytes refl))
generated-full sha256 (err e, w) raw hash w1 long h = cc

generate_token-full :
    {W : Type 0} (sha256 : String → Bytes) (read_random : ℕ → Call W Bytes) (w : W) (raw : String)
    (hash : Bytes) (w1 : W)
    → IsRandom read_random
    → generate_token sha256 read_random w ≡ (ok (raw, hash), w1)
    → str_eq raw "" ≡ false
unfolding generate_token
generate_token-full sha256 read_random w raw hash w1 fills h =
    let r = wrapping "failed generate random token" (read_random token_size) w in
    generated-full sha256 r raw hash w1
      (λ bytes e.
        let filled = (fills token_size w bytes r.1 (wrapping-ok _ _ (ap (λ x. (x, r.1)) e))).0 in
        omega (arith, filled))
      h

-- What `Decrypt` accepts has bytes, if the nonce has.
decrypted-full :
    (c : Aead) (value extra plaintext : Bytes)
    → 0 < c.nonce_size
    → Cipher.decrypt c value extra ≡ ok plaintext
    → is_empty value ≡ false
unfolding Cipher.decrypt length
decrypted-full c [] extra plaintext long h = absurd (ground (arith, h, long))
decrypted-full c (x ∷ xs) extra plaintext long h = refl

validate_email-full :
    (parse_address : String → Option String) (email : String)
    → validate_email parse_address email ≡ ok tt
    → str_eq email "" ≡ false
unfolding validate_email
validate_email-full parse_address email h = elim (Bool-cases (str_eq email "")) [
  | inl e ↦ absurd (ground (arith, e, h))
  | inr e ↦ e
]

-- What a registration promises of the mail and the confirmation: one event was put before the
-- others; handling it, at any later state of the worker, mails the raw token, which is not empty, to the
-- registered email while it is not expired; and the hash of the raw token confirms the user until it expires.
pub record MailConfirms {S : Type 0} (env : Environment S) (cfg : Config)
    (bytes_text : Bytes → String) (send : VerificationMessage → S → Result (Unit {0}) × S)
    (query_escape quoted : String → String) (email : String) (db : Db) (u : User) (db1 : Db)
    : Type 0 where
  pub raw_token : String
  pub raw_full : str_eq raw_token "" ≡ false
  pub event : Event
  pub expires_at : Time
  pub queued : db1.outbox ≡ outbox_row event ∷ db.outbox
  pub mails :
      (t : S)
      → handle
          (worker S send env.clock
            (token_decrypt env.aead env.uuid_bytes bytes_text)
            cfg
            query_escape
            quoted)
          event
          (db1, t)
        ≡ mail S send env.clock
            (token_decrypt env.aead env.uuid_bytes bytes_text)
            cfg
            query_escape
            quoted
            email
            raw_token
            expires_at
            db1
            t
  pub confirms :
      (later : Time)
      → confirm_email no_faults (hash_token env.sha256 raw_token) later db1 ≡ (
          if ltb later expires_at
          then (ok tt, confirmed u.id (hash_token env.sha256 raw_token) later db1)
          else (err (sentinel expired_token), db1))

module _ {S : Type 0} (env : Environment S) (gcm : IsAead env.aead) (long : 0 < env.aead.nonce_size)
    (fills : IsRandom env.read_random) (fresh : (s : S) → (env.new_uuid s).0 ≢ 0)
    (bytes_text : Bytes → String) (text : (t : String) → bytes_text (env.text_bytes t) ≡ t) where
  registered-MailConfirms :
      (cfg : Config) (send : VerificationMessage → S → Result (Unit {0}) × S)
      (query_escape quoted : String → String) (input : CreateUserInput) (raw : String)
      (db before : Db)
      → before.outbox ≡ db.outbox
      → exists (λ r. r.id == input.id) before.users ≡ false
      → str_eq raw "" ≡ false
      → str_eq input.email "" ≡ false
      → (input.verification.id == 0) ≡ false
      → input.verification.token_hash ≡ hash_token env.sha256 raw
      → Cipher.decrypt env.aead input.verification.token_ciphertext
          (env.uuid_bytes input.verification.id)
        ≡ ok (env.text_bytes raw)
      → input.outbox_event.event_type ≡ email_verification_requested_type
      → input.outbox_event.payload ≡ requested input.verification.id input.email
      → MailConfirms env cfg bytes_text send query_escape quoted input.email db
          (created input)
          (registered input before)
  registered-MailConfirms cfg send query_escape quoted input raw db before same free full named set
        hash token typed asks =
      record {
        raw_token = raw;
        raw_full = full;
        event = input.outbox_event;
        expires_at = input.verification.expires_at;
        queued = ap (λ rows. outbox_row input.outbox_event ∷ rows) same;
        mails = λ t.
            handle-registered S send env.clock (token_decrypt env.aead env.uuid_bytes bytes_text)
              cfg query_escape quoted input input.email raw before t input.outbox_event
              (decrypted-full env.aead _ _ _ long token) (rw (token, text raw) refl) set named typed
              asks;
        confirms = λ later. rw (sym hash) (confirm-registered input before later free);
      }

  -- What a `Register` that succeeded has prepared, created and queued, put together.
  pub registration-MailConfirms :
      (cfg : Config) (send : VerificationMessage → S → Result (Unit {0}) × S)
      (query_escape quoted : String → String) (input : RegistrationInput) (db db1 : Db) (s s1 : S)
      (u : User)
      → register (ports env cfg) input (db, s) ≡ (ok u, (db1, s1))
      → MailConfirms env cfg bytes_text send query_escape quoted
          (normalize_email (ports env cfg) input.email)
          db
          u
          db1
  registration-MailConfirms cfg send query_escape quoted input db db1 s s1 u h =
      let r = register-ok (ports env cfg) input (db, s) h in
      let q = r.prepares in
      let made : CreateUserInput = record {
        id = (env.new_uuid (env.clock r.hashed.1).1).0;
        email = normalize_email (ports env cfg) input.email;
        password_hash = r.password_hash;
        created_at = (env.clock r.hashed.1).0;
        verification = r.verification;
        outbox_event = r.event;
      } in
      let (u_is, db1_is, free, emails, hashes) =
        create_user-ok env.lower _ made _ _ _ (ap (λ x. (x.0, x.1.0)) r.creates) in
      let token =
        decrypt-encrypt env.aead gcm env.read_random fills _ _ _ _ _
          (ap (λ x. (x.0, x.1.1)) q.encrypts) in
      let hash =
        generate_token-ok env.sha256 env.read_random _ (ap (λ x. (x.0, x.1.1)) q.generates) in
      rw (u_is, db1_is)
        (registered-MailConfirms cfg send query_escape quoted made q.raw_token db r.prepared.0
          (ap (λ x. x.0.outbox) q.after
            ∙ (ap (λ x. x.1.0.outbox) (sym q.encrypts)
                ∙ (ap (λ x. x.1.0.outbox) (sym q.generates)
                    ∙ ap (λ x. x.1.0.outbox) (sym r.hashes))))
          free
          (generate_token-full env.sha256 env.read_random _ _ _ _ fills
            (ap (λ x. (x.0, x.1.1)) q.generates))
          (validate_email-full env.parse_address _ r.email)
          (ground (arith, ap (λ (v : VerificationInput). v.id) q.verification, fresh q.generated.1))
          (ap (λ (v : VerificationInput). v.token_hash) q.verification ∙ hash)
          (rw q.verification token) (ap (λ (e : Event). e.event_type) q.event)
          (ap (λ (e : Event). e.payload) q.event
            ∙ ap (λ i. requested i (normalize_email (ports env cfg) input.email))
                (sym (ap (λ (v : VerificationInput). v.id) q.verification))))
