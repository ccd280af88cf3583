-- ===== src/Server/Refresh.antt =====
-- `GET /auth/refresh` of the server: how a refresh token that is not taken is answered.
use frimo_messenger.Base.{
  ◌≡◌, refl, ap, ◌∙◌, Bytes, bytes_eq, true, false, none, List, is_null, find,
}
use frimo_messenger.Errors.{ok, sentinel, wrap, refresh_token_not_found, refresh_token_reuse}
use frimo_messenger.Domain.{RefreshInput, TokenPair, ExtendSessionInput}
use frimo_messenger.Config.{Config}
use frimo_messenger.Postgres.Schema.{Db, SessionRow, RefreshTokenRow}
use frimo_messenger.Postgres.Link.{no_faults}
use frimo_messenger.Postgres.Sessions.{
  failed, is_inactive, same_request, select_token, extend_session,
}
use frimo_messenger.Postgres.Sessions.Rotation.{Selects, identity_of, revoked}
use frimo_messenger.Postgres.Sessions.Theft.{inactive_refuses}
use frimo_messenger.Security.Token.{token_size}
use frimo_messenger.Service.Flows.{refresh, after_extension, refresh_reused}
use frimo_messenger.Service.Ports.{fail, session_cache_update_failed}
use frimo_messenger.Service.Chain.{reported-goes_on, report_keeps}
use frimo_messenger.Http.{Op, Request, Handler, internal_error, authentication_error}
use frimo_messenger.Http.Requests.{Decoders, RefreshRequest, validate_refresh}
use frimo_messenger.Http.Middleware.{request_logging}
use frimo_messenger.Http.Writer.{apply_op, apply_ops, fresh_writer}
use frimo_messenger.Http.Handlers as Handlers
use frimo_messenger.Http.Responses.{refresh_answer}
use frimo_messenger.Http.Routes
use frimo_messenger.Server.{Environment, ports}
use frimo_messenger.Server.Theft.{request_at, state_at, refresh-read, reuse_extends}
use frimo_messenger.Server.Web.{services}

-- Why the tables do not let a token be refreshed, with the calls on the writer that answer it and
-- the tables that are left: there is no such token, its session has ended, or it was used before by
-- another operation.
pub data Refusal (input : ExtendSessionInput) (db : Db) : List Op → Db → Type 0 where
  unknown :
      find (λ t. bytes_eq t.token_hash input.old_refresh_token_hash) db.refresh_tokens ≡ none
      → Refusal input db internal_error db
  ended :
      (t : RefreshTokenRow) (s : SessionRow)
      → Selects input db t s
      → is_inactive s input.new_refresh_token.created_at ≡ true
      → Refusal input db authentication_error db
  reused :
      (t : RefreshTokenRow) (s : SessionRow)
      → Selects input db t s
      → is_inactive s input.new_refresh_token.created_at ≡ false
      → is_null t.used_at ≡ false
      → same_request t.request_id input.operation_id ≡ false
      → Refusal input db authentication_error (revoked input t db)

unknown_refuses :
    (input : ExtendSessionInput) (db : Db)
    → find (λ t. bytes_eq t.token_hash input.old_refresh_token_hash) db.refresh_tokens ≡ none
    → extend_session no_faults input db ≡ (failed (sentinel refresh_token_not_found), db)
unfolding extend_session select_token
unknown_refuses input db missing = rw missing refl

module _ {S : Type 0} (env : Environment S) (cfg : Config) where
  -- What the service makes of the refusal.
  refuses :
      (input : RefreshInput) (refresh_bytes : Bytes) (old_hash access_hash : Bytes)
      (pair : TokenPair) (db : Db) (s : S) (ops : List Op) (db' : Db)
      → Refusal (request_at env cfg input refresh_bytes s) db ops db'
      → env.link (state_at env cfg s) ≡ no_faults
      → let after = after_extension (ports env cfg) old_hash access_hash pair (
          (ports env cfg).extend_session
            (request_at env cfg input refresh_bytes s)
            (db, state_at env cfg s)) in
        (refresh_answer after.0 ≡ ops) × (after.1.0 ≡ db')
  unfolding after_extension refresh_reused refresh_answer
  refuses input bytes old_hash access_hash pair db s _ _ (unknown missing) up =
      rw (up, unknown_refuses (request_at env cfg input bytes s) db missing) (refl, refl)
  refuses input bytes old_hash access_hash pair db s _ _ (ended t row found over) up =
      rw (up, inactive_refuses (request_at env cfg input bytes s) db t row found over) (refl, refl)
  refuses input bytes old_hash access_hash pair db s _ _ (reused t row found running used other)
        up =
      let i = identity_of t row in
      let tables = revoked (request_at env cfg input bytes s) t db in
      let told =
        (ports env cfg).set_session i.session_id false cfg.login.refresh_token_ttl
          (tables, state_at env cfg s) in
      rw
        (
          reuse_extends env cfg input bytes db s t row found running used other up,
          reported-goes_on (ports env cfg) session_cache_update_failed told
              (fail (wrap "failed to extend session" (sentinel refresh_token_reuse))),
        )
        (
          refl,
          report_keeps (λ (w : Db × S). w.0 ≡ tables) (ports env cfg) session_cache_update_failed
              told (λ e w h. h) refl,
        )

-- These responses reach the client as they are.
Refusal-written :
    {input : ExtendSessionInput} {db db' : Db} {ops : List Op}
    → Refusal input db ops db'
    → (apply_ops ops fresh_writer).inner ≡ ops
unfolding apply_ops apply_op
Refusal-written (unknown missing) = refl
Refusal-written (ended t s found over) = refl
Refusal-written (reused t s found running used other) = refl

module _ {S : Type 0} (env : Environment S) (cfg : Config) (decoders : Decoders)
    (unmatched : Handler (Db × S)) where
  -- The handler's own part.
  refresh_handled :
      (r : Request) (q : RefreshRequest) (w : Db × S)
      → decoders.unmarshal_refresh r.body ≡ ok q
      → validate_refresh q ≡ none
      → let after =
          refresh
            (ports env cfg)
            (record { operation_id = q.operation_id; raw_refresh_token = q.refresh_token })
            w in
        let out =
          Routes.handler
            (services env cfg)
            decoders
            unmatched
            (record r { method = "GET"; path = "/auth/refresh" })
            w in
        (out.0.ops ≡ (apply_ops (refresh_answer after.0) fresh_writer).inner)
        × (out.0.world ≡ after.1)
  unfolding Routes.handler Routes.mux Handlers.refresh request_logging
  refresh_handled r q w decodes valid = rw (decodes, valid) (refl, refl)

  -- Let the database be up and the random bytes be read. `GET /auth/refresh` with a body that
  -- decodes, names an operation and has a token is answered by status 500 and changes no table, if
  -- the tables have no such token; by status 401 with no change of a table, if its session has
  -- ended; and by status 401 with its session revoked, if another operation has used it.
  pub refresh_refused :
      (r : Request) (q : RefreshRequest) (refresh_bytes access_bytes : Bytes) (db : Db)
      (s s1 s2 : S) (ops : List Op) (db' : Db)
      → decoders.unmarshal_refresh r.body ≡ ok q
      → validate_refresh q ≡ none
      → env.read_random token_size s ≡ (ok refresh_bytes, s1)
      → env.read_random token_size s1 ≡ (ok access_bytes, s2)
      → env.link (state_at env cfg s2) ≡ no_faults
      → Refusal
          (request_at env cfg
            (record { operation_id = q.operation_id; raw_refresh_token = q.refresh_token })
            refresh_bytes
            s2)
          db
          ops
          db'
      → let out =
          Routes.handler
            (services env cfg)
            decoders
            unmatched
            (record r { method = "GET"; path = "/auth/refresh" })
            (db, s) in
        (out.0.ops ≡ ops) × (out.0.world.0 ≡ db')
  refresh_refused r q refresh_bytes access_bytes db s s1 s2 ops db' decodes valid a b up why =
      let input : RefreshInput = record {
        operation_id = q.operation_id;
        raw_refresh_token = q.refresh_token;
      } in
      let (written, left) = refresh_handled r q (db, s) decodes valid in
      let whole = refresh-read env cfg input refresh_bytes access_bytes db s s1 s2 a b in
      let (answer, tables) = refuses env cfg input refresh_bytes _ _ _ db s2 ops db' why up in
      (
        written
            ∙ ap (λ x. (apply_ops (refresh_answer x.0) fresh_writer).inner) whole
            ∙ ap (λ o. (apply_ops o fresh_writer).inner) answer
            ∙ Refusal-written why,
        ap (λ (w : Db × S). w.0) left ∙ ap (λ x. x.1.0) whole ∙ tables,
      )
