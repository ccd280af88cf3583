-- ===== src/Server/Verify.antt =====
-- `GET /auth/verify-email` of the server: how each state of the token in the tables is answered.
use frimo_messenger.Base.{
  ◌≡◌, refl, ap, ◌∙◌, Bytes, ◌==◌, str_eq, true, false, none, some, List, is_null, find, count, ltb,
  arith,
}
use frimo_messenger.Errors.{
  Result, ok, err, sentinel, invalid_token, used_token, revoked_token, expired_token,
  already_verified,
}
use frimo_messenger.Domain.{Time}
use frimo_messenger.Config.{Config}
use frimo_messenger.Postgres.Schema.{Db, UserRow, VerificationRow}
use frimo_messenger.Postgres.Link.{no_faults}
use frimo_messenger.Postgres.Auth as Auth
use frimo_messenger.Postgres.Auth.Confirmation.{has_hash, confirmed, verdict, confirm_email_decides}
use frimo_messenger.Security.Token.{hash_token}
use frimo_messenger.Service.Flows as Flows
use frimo_messenger.Http.{
  Op, Request, Handler, verify_email_response, write_json, write_error, bad_request, conflict,
  internal_error,
}
use frimo_messenger.Http.Requests.{Decoders}
use frimo_messenger.Http.Middleware.{request_logging}
use frimo_messenger.Http.Writer.{apply_op, apply_ops, fresh_writer}
use frimo_messenger.Http.Handlers as Handlers
use frimo_messenger.Http.Responses.{verify_email_answer}
use frimo_messenger.Http.Routes
use frimo_messenger.Server.{Environment}
use frimo_messenger.Server.Web.{services}

-- A token with its row and the row of its user, who is the only one of that identifier.
pub record IsOwned (hash : Bytes) (db : Db) (v : VerificationRow) (u : UserRow) : Type 0 where
  pub token : find (has_hash hash) db.verifications ≡ some v
  pub owner : find (λ r. r.id == v.user_id) db.users ≡ some u
  pub one : count (λ r. r.id == v.user_id) db.users ≡ 1

-- The states of a token at a time, with the calls on the writer that answer each, and the tables
-- that are left.
pub data Answered (hash : Bytes) (now : Time) (db : Db) : List Op → Db → Type 0 where
  unknown :
      find (has_hash hash) db.verifications ≡ none
      → Answered hash now db
          (write_error bad_request "invalid_verification_token" "verification token is invalid")
          db
  used :
      (v : VerificationRow) (u : UserRow)
      → IsOwned hash db v u
      → is_null v.used_at ≡ false
      → Answered hash now db
          (write_error conflict "verification_token_used"
            "verification token has already been used")
          db
  revoked :
      (v : VerificationRow) (u : UserRow)
      → IsOwned hash db v u
      → is_null v.used_at ≡ true
      → is_null v.revoked_at ≡ false
      → Answered hash now db
          (write_error bad_request "verification_token_revoked" "verification token has revoked")
          db
  expired :
      (v : VerificationRow) (u : UserRow)
      → IsOwned hash db v u
      → is_null v.used_at ≡ true
      → is_null v.revoked_at ≡ true
      → ltb now v.expires_at ≡ false
      → Answered hash now db
          (write_error bad_request "verification_token_expired" "verification token has expired")
          db
  repeated :
      (v : VerificationRow) (u : UserRow)
      → IsOwned hash db v u
      → is_null v.used_at ≡ true
      → is_null v.revoked_at ≡ true
      → ltb now v.expires_at ≡ true
      → is_null u.email_verified_at ≡ false
      → Answered hash now db internal_error db
  verified :
      (v : VerificationRow) (u : UserRow)
      → IsOwned hash db v u
      → is_null v.used_at ≡ true
      → is_null v.revoked_at ≡ true
      → ltb now v.expires_at ≡ true
      → is_null u.email_verified_at ≡ true
      → Answered hash now db
          (write_json 200 (verify_email_response "email_verified"))
          (confirmed v.user_id hash now db)

unknown_refused :
    (hash : Bytes) (now : Time) (db : Db)
    → find (has_hash hash) db.verifications ≡ none
    → Auth.confirm_email no_faults hash now db ≡ (err (sentinel invalid_token), db)
unfolding Auth.confirm_email Auth.confirm_email_body
unknown_refused hash now db missing = rw missing refl

decided :
    (hash : Bytes) (now : Time) (db : Db) (v : VerificationRow) (u : UserRow)
    → IsOwned hash db v u
    → (r : Result (Unit {0})) → verdict now v u ≡ r
    → Auth.confirm_email no_faults hash now db
      ≡ (r, elim r [ ok x ↦ confirmed v.user_id hash now db | err e ↦ db ])
decided hash now db v u o r e =
    confirm_email_decides hash now db v u o.token o.owner o.one
    ∙ ap
        (λ (x : Result (Unit {0})).
          (x, elim x [ ok y ↦ confirmed v.user_id hash now db | err f ↦ db ]))
        e

-- What the repository and the handler make of each state.
answers :
    {hash : Bytes} {now : Time} {db db' : Db} {ops : List Op}
    → Answered hash now db ops db'
    → (r : Result (Unit {0})) × (Auth.confirm_email no_faults hash now db ≡ (r, db'))
      × ((apply_ops (verify_email_answer r) fresh_writer).inner ≡ ops)
unfolding verify_email_answer apply_ops apply_op
answers {hash} {now} {db} (unknown missing) = (_, unknown_refused hash now db missing, refl)
answers {hash} {now} {db} (used v u o a) =
    (_, decided hash now db v u o (err (sentinel used_token)) (ground arith), refl)
answers {hash} {now} {db} (revoked v u o a b) =
    (_, decided hash now db v u o (err (sentinel revoked_token)) (ground arith), refl)
answers {hash} {now} {db} (expired v u o a b c) =
    (_, decided hash now db v u o (err (sentinel expired_token)) (ground arith), refl)
answers {hash} {now} {db} (repeated v u o a b c d) =
    (_, decided hash now db v u o (err (sentinel already_verified)) (ground arith), refl)
answers {hash} {now} {db} (verified v u o a b c d) =
    (_, decided hash now db v u o (ok tt) (ground arith), refl)

module _ {S : Type 0} (env : Environment S) (cfg : Config) (decoders : Decoders)
    (unmatched : Handler (Db × S)) where
  -- Let the database be up. `GET /auth/verify-email` with a token parameter is answered by the state
  -- of the token in the tables, at the time of the clock: status 400 if it is unknown, revoked or
  -- expired, 409 if it was used, 500 if its user is verified already, all of which change no table;
  -- and else status 200, with the token used and its user verified.
  pub verify_email_answered :
      (r : Request) (db : Db) (s : S) (ops : List Op) (db' : Db)
      → str_eq r.token_parameter "" ≡ false
      → env.link (env.clock s).1 ≡ no_faults
      → Answered (hash_token env.sha256 r.token_parameter) (env.clock s).0 db ops db'
      → let out =
          Routes.handler
            (services env cfg)
            decoders
            unmatched
            (record r { method = "GET"; path = "/auth/verify-email" })
            (db, s) in
        (out.0.ops ≡ ops) × (out.0.world.0 ≡ db')
  unfolding Routes.handler Routes.mux Handlers.verify_email Flows.confirm_email request_logging
  verify_email_answered r db s ops db' given up why =
      let (answer, confirms, written) = answers why in rw (given, up, confirms) (written, refl)
