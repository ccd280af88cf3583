-- ===== src/Server/Journey.antt =====
-- The programs together, from `POST /auth/register` to the link of the mail: the server queues the
-- event, the worker mails the token, and the server answers the link.
use frimo_messenger.Base.{
  ◌<◌, ◌≡◌, ◌≢◌, refl, false, String, Bytes, str_eq, ltb, if◌then◌else◌, Bool-cases, inl, inr,
}
use frimo_messenger.Errors.{Result, ok, err, sentinel, expired_token}
use frimo_messenger.Domain.{Time, User, RegistrationInput}
use frimo_messenger.Config.{Config}
use frimo_messenger.Postgres.Schema.{Db}
use frimo_messenger.Postgres.Link.{no_faults}
use frimo_messenger.Postgres.Auth as Auth
use frimo_messenger.Postgres.Auth.Confirmation.{confirmed}
use frimo_messenger.Dispatcher.{VerificationMessage}
use frimo_messenger.Security.Cipher.{IsAead, IsRandom}
use frimo_messenger.Security.Token.{hash_token}
use frimo_messenger.Service.Flows as Flows
use frimo_messenger.Http.{
  Request, Handler, verify_email_response, write_json, write_error, bad_request,
}
use frimo_messenger.Http.Requests.{Decoders}
use frimo_messenger.Http.Middleware.{request_logging}
use frimo_messenger.Http.Writer.{apply_op, apply_ops}
use frimo_messenger.Http.Handlers as Handlers
use frimo_messenger.Http.Responses.{verify_email_answer}
use frimo_messenger.Http.Routes
use frimo_messenger.Server.{Environment, ports}
use frimo_messenger.Server.Web.{services}
use frimo_messenger.Server.Registration.{MailConfirms, registration-MailConfirms}

-- The request that the link of a mail makes.
abbrev pub link_request : Request → String → Request
link_request r raw = record r { method = "GET"; path = "/auth/verify-email"; token_parameter = raw }

module _ {S : Type 0} (env : Environment S) (cfg : Config) (decoders : Decoders)
    (unmatched : Handler (Db × S)) where
  -- The link of a token that confirms a user until a time.
  link_answered :
      (raw : String) (u : User) (expires_at : Time) (r : Request) (db : Db) (t : S)
      → str_eq raw "" ≡ false
      → env.link (env.clock t).1 ≡ no_faults
      → Auth.confirm_email no_faults (hash_token env.sha256 raw) (env.clock t).0 db ≡ (
          if ltb (env.clock t).0 expires_at
          then (ok tt, confirmed u.id (hash_token env.sha256 raw) (env.clock t).0 db)
          else (err (sentinel expired_token), db))
      → let in_time = ltb (env.clock t).0 expires_at in
        let out =
          Routes.handler (services env cfg) decoders unmatched (link_request r raw) (db, t) in
        (out.0.ops ≡ (
          if in_time
          then write_json 200 (verify_email_response "email_verified")
          else write_error bad_request "verification_token_expired"
              "verification token has expired"))
        × (out.0.world.0 ≡ (
            if in_time then confirmed u.id (hash_token env.sha256 raw) (env.clock t).0 db else db))
  unfolding Routes.handler Routes.mux Handlers.verify_email Flows.confirm_email request_logging
      verify_email_answer apply_ops apply_op
  link_answered raw u expires_at r db t full up confirms =
      elim (Bool-cases (ltb (env.clock t).0 expires_at)) [
        | inl e ↦ rw (full, up, confirms, e) (refl, refl)
        | inr e ↦ rw (full, up, confirms, e) (refl, refl)
      ]

-- What a registration promises of its mail and of the link in it, for a later request and a later
-- state of the server.
pub record LinkConfirms {S : Type 0} (env : Environment S) (cfg : Config) (decoders : Decoders)
    (unmatched : Handler (Db × S)) (bytes_text : Bytes → String)
    (send : VerificationMessage → S → Result (Unit {0}) × S) (query_escape quoted : String → String)
    (email : String) (db : Db) (u : User) (db1 : Db) (r : Request) (t : S) : Type 0 where
  pub promise : MailConfirms env cfg bytes_text send query_escape quoted email db u db1
  pub answers :
      let in_time = ltb (env.clock t).0 promise.expires_at in
      let out =
        Routes.handler
          (services env cfg)
          decoders
          unmatched
          (link_request r promise.raw_token)
          (db1, t) in
      (out.0.ops ≡ (
        if in_time
        then write_json 200 (verify_email_response "email_verified")
        else write_error bad_request "verification_token_expired" "verification token has expired"))
      × (out.0.world.0 ≡ (
          if in_time
          then confirmed u.id (hash_token env.sha256 promise.raw_token) (env.clock t).0 db1
          else db1))

module _ {S : Type 0} (env : Environment S) (gcm : IsAead env.aead) (long : 0 < env.aead.nonce_size)
    (fills : IsRandom env.read_random) (fresh : (s : S) → (env.new_uuid s).0 ≢ 0)
    (bytes_text : Bytes → String) (text : (t : String) → bytes_text (env.text_bytes t) ≡ t) where
  -- Let the cipher open what it sealed under a nonce that is not empty, the random source fill
  -- what it is asked for, no new UUID be zero, and the bytes of a text be read back as it.
  -- Whatever faults the server met, after a `Register` that succeeded its event stands in front of
  -- the queue that was there; on the tables as it left them, with the database up, the worker's
  -- handling of that event mails the raw token, which is not empty, to the registered email if the
  -- token has not expired, and does nothing else; `ConfirmEmail` of the hash of that token confirms
  -- the user before the token expires, and answers `ErrExpiredToken` from then on; and the server
  -- answers `GET /auth/verify-email` with that token, at any state where the database is up, by
  -- status 200 and the confirmed user before the token expires, and from then on by status 400 with
  -- the tables as they were.
  pub mail_link_answered :
      (cfg : Config) (decoders : Decoders) (unmatched : Handler (Db × S))
      (send : VerificationMessage → S → Result (Unit {0}) × S)
      (query_escape quoted : String → String) (input : RegistrationInput) (db db1 : Db) (s s1 : S)
      (u : User) (r : Request) (t : S)
      → Flows.register (ports env cfg) input (db, s) ≡ (ok u, (db1, s1))
      → env.link (env.clock t).1 ≡ no_faults
      → LinkConfirms env cfg decoders unmatched bytes_text send query_escape quoted
          (Flows.normalize_email (ports env cfg) input.email)
          db
          u
          db1
          r
          t
  mail_link_answered cfg decoders unmatched send query_escape quoted input db db1 s s1 u r t done
        up =
      let m =
        registration-MailConfirms env gcm long fills fresh bytes_text text cfg send query_escape
          quoted input db db1 s s1 u done in
      record {
        promise = m;
        answers =
            link_answered env cfg decoders unmatched m.raw_token u m.expires_at r db1 t m.raw_full
              up (m.confirms (env.clock t).0);
      }
