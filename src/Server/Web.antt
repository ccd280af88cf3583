-- ===== src/Server/Web.antt =====
-- cmd/server/main.go: the API over the services, and a login, whose access token then opens `/me`.
use frimo_messenger.Base.{
  ◌+◌, ◌<◌, ◌≡◌, refl, sym, ap, ◌∙◌, String, some, List, find, ◌==◌, ==-refl, str_eq, arith,
  Option-cases, inl, inr,
}
use frimo_messenger.Errors.{ok, err, sentinel, session_cache_miss}
use frimo_messenger.Domain.{
  Uuid, Duration, User, Identity, LoginInput, LoginUser, TokenPair, Session, RefreshToken,
}
use frimo_messenger.Config.{Config}
use frimo_messenger.Postgres.Schema.{Db, UserRow, insert_session, insert_refresh_token}
use frimo_messenger.Postgres.Link.{Faults, no_faults}
use frimo_messenger.Postgres.Auth as Auth
use frimo_messenger.Postgres.Users
use frimo_messenger.Postgres.Sessions.{create_session}
use frimo_messenger.Redis
use frimo_messenger.Redis.Laws.{IsRedis}
use frimo_messenger.Service.Ports.{Ports, wrapping, report, access_token_store_failed}
use frimo_messenger.Service.Chain.{continue_keeps, with_text_keeps, report_keeps}
use frimo_messenger.Service.Flows.{
  normalize_email, login, open_session, authenticate, authenticate_uncached,
}
use frimo_messenger.Http.Middleware.{bearer_token, authentication, request_logging}
use frimo_messenger.Http.Writer.{apply_op, apply_ops}
use frimo_messenger.Http.Handlers.{me}
use frimo_messenger.Http.Responses.{me_answer}
use frimo_messenger.Service.Login.{login-ok}
use frimo_messenger.Service.Validation.{trim_space}
use frimo_messenger.Base.Table.Laws.{find_also}
use frimo_messenger.Server.Login.{opened_at, login_lets_in}
use frimo_messenger.Http.{Request, returned, me_response, write_json, Services, Handler}
use frimo_messenger.Http.Requests.{Decoders}
use frimo_messenger.Http.Handlers.Answers.{auth_services}
use frimo_messenger.Http.Routes
use frimo_messenger.Server.{Environment, ports}

create_session_users :
    (f : Faults) (session : Session) (token : RefreshToken) (db : Db)
    → (create_session f session token db).1.users ≡ db.users
unfolding create_session insert_session insert_refresh_token
create_session_users f session token db = ground arith

module _ {S : Type 0} (env : Environment S) (cfg : Config) where
  -- The services that `httpapi.New` gets.
  abbrev pub services : Services (Db × S)
  services = auth_services (ports env cfg) (λ id w. (Users.get_user_by_id (env.link w.1) id w.0, w))

  module _ (users : List UserRow) where
    abbrev HasUsers : Db × S → Type 0
    HasUsers w = w.0.users ≡ users

    open_session_users :
        (input : LoginInput) (user : LoginUser) (device_name : String) (w : Db × S)
        → HasUsers w
        → HasUsers (open_session (ports env cfg) input user device_name w).1
    unfolding open_session
    open_session_users input user device_name w h =
        let p : Ports (Db × S) = ports env cfg in
        continue_keeps HasUsers
          (wrapping "failed generate refresh token" p.generate_token (p.new_uuid (p.now w).1).1) _
          (with_text_keeps HasUsers _ _ h)
          (λ refresh w2 h2.
            continue_keeps HasUsers
              (wrapping "failed generate access token" p.generate_token (p.new_uuid w2).1) _
              (with_text_keeps HasUsers _ _ h2)
              (λ access w3 h3.
                continue_keeps HasUsers (wrapping "failed create session" (p.create_session _ _) w3)
                  _
                  (with_text_keeps HasUsers _ _
                    (create_session_users (env.link w3.1) _ _ w3.0 ∙ h3))
                  (λ x w4 h4.
                    continue_keeps HasUsers
                      (report p access_token_store_failed
                        (p.store_access_token access.1 _ p.access_token_lifetime w4))
                      _ (report_keeps HasUsers p access_token_store_failed _ (λ e w5 h5. h5) h4)
                      (λ y w6 h6. h6))))

  login_users :
      (input : LoginInput) (db db1 : Db) (s s1 : S) (pair : TokenPair)
      → login (ports env cfg) input (db, s) ≡ (ok pair, (db1, s1))
      → db1.users ≡ db.users
  login_users input db db1 s s1 pair h =
      let (user, w1, may, opened) = login-ok (ports env cfg) input _ h in
      sym (ap (λ x. x.1.0.users) opened)
      ∙ open_session_users db.users input user (trim_space input.device_name) w1
          (ap (λ x. x.1.0.users) (sym may.found))

  authenticate_tables : (raw : String) (w : Db × S) → (authenticate (ports env cfg) raw w).1.0 ≡ w.0
  unfolding authenticate authenticate_uncached
  authenticate_tables raw w = ground arith

-- The user of an email that is found has a row of its identifier.
found_by_id :
    (f : Faults) (email : String) (db : Db) (user : LoginUser)
    → Auth.get_user_for_login f email db ≡ ok user
    → (u : UserRow) × (find (λ r. r.id == user.id) db.users ≡ some u)
unfolding Auth.get_user_for_login
found_by_id f email db user h = elim (Option-cases (find (λ r. str_eq r.email email) db.users)) [
  | inl missing ↦ absurd (ground (arith, missing))
  | inr (u, found) ↦
      find_also (λ r. str_eq r.email email) (λ r. r.id == user.id) db.users u found
        (ground (arith, found, ==-refl user.id))
]

-- The response to `/me` with a token that authenticates.
me_serves :
    {W : Type 0} (services : Services W) (decoders : Decoders) (unmatched : Handler W) (r : Request)
    (token : String) (i : Identity) (u : User) (w w1 w2 : W)
    → bearer_token r.authorization ≡ some token
    → services.authenticate token w ≡ (ok i, w1)
    → services.get_user_by_id i.user_id w1 ≡ (ok u, w2)
    → Routes.handler services decoders unmatched (record r { method = "GET"; path = "/me" }) w ≡ (
      record {
        ops = write_json 200 (me_response u.id u.email u.created_at);
        exit = returned;
        world = w2;
      },
      some 200,
    )
unfolding Routes.handler Routes.mux authentication me me_answer request_logging apply_ops apply_op
me_serves services decoders unmatched r token i u w w1 w2 bearer authenticates found =
    rw (bearer, authenticates, found) refl

user_by_id :
    (f : Faults) (id : Uuid) (db : Db) (u : UserRow)
    → f ≡ no_faults
    → find (λ r. r.id == id) db.users ≡ some u
    → Users.get_user_by_id f id db
      ≡ ok (record { id = id; email = u.email; created_at = u.created_at })
unfolding Users.get_user_by_id Users.select_user_by_id
user_by_id f id db u up found = rw (up, found) refl

module _ {S : Type 0} (env : Environment S) (cfg : Config) (redis : IsRedis env.client)
    (takes : (key value : String) (ttl : Duration) (w : S)
      → (w1 : S) × (env.client.set key value ttl w ≡ (ok tt, w1)))
    (reads : (key : String) (w : S) → (env.client.get key w).1 ≡ w)
    (up : (s : S) → env.link s ≡ no_faults) (decoders : Decoders)
    (unmatched : Handler (Db × S)) where
  -- Let the database be up and Redis keep what it is given, take every write and be left alone by a
  -- read. After a `Login` that succeeded, `GET /me` with its access token as the bearer token, asked in
  -- the state that the login left, is answered by status 200 with the identifier of the user of that
  -- email, and the email and time of creation in the row of that identifier, if the session cache
  -- says nothing of the session and, by the clock read there, the session's time has not passed.
  pub me_after_login :
      (input : LoginInput) (r : Request) (db db1 : Db) (s s1 : S) (pair : TokenPair)
      → login (ports env cfg) input (db, s) ≡ (ok pair, (db1, s1))
      → (Redis.get_session env.client (opened_at env cfg redis takes reads s) s1).0
        ≡ err (sentinel session_cache_miss)
      → (env.clock s1).0 < (env.clock s).0 + cfg.login.refresh_token_ttl
      → bearer_token r.authorization ≡ some pair.access_token
      → (user : LoginUser) × (u : UserRow) × (Auth.get_user_for_login
            (env.link s)
            (normalize_email (ports env cfg) input.email)
            db
          ≡ ok user)
        × (find (λ x. x.id == user.id) db.users ≡ some u)
        × ((Routes.handler
              (services env cfg)
              decoders
              unmatched
              (record r { method = "GET"; path = "/me" })
              (db1, s1)).0.ops
            ≡ write_json 200 (me_response user.id u.email u.created_at))
  me_after_login input r db db1 s s1 pair h missed soon bearer =
      let (user, found, let_in) =
        login_lets_in env cfg redis takes reads input db db1 s s1 pair h missed (up s1) soon in
      let (u, row) = found_by_id (env.link s) _ db user found in
      let (db2, s2) = (authenticate (ports env cfg) pair.access_token (db1, s1)).1 in
      let users : db2.users ≡ db.users =
        ap (λ (x : Db). x.users) (authenticate_tables env cfg pair.access_token (db1, s1))
        ∙ login_users env cfg input db db1 s s1 pair h in
      let looked = user_by_id (env.link s2) user.id db2 u (up s2) (rw users row) in
      (
        user,
        u,
        found,
        row,
        ap (λ x. x.0.ops)
            (me_serves (services env cfg) decoders unmatched r pair.access_token
              (record { user_id = user.id; session_id = opened_at env cfg redis takes reads s })
              (record { id = user.id; email = u.email; created_at = u.created_at }) (db1, s1)
              (db2, s2) (db2, s2) bearer (λ k. (let_in k, (db2, s2))) (λ k. (looked k, (db2, s2)))),
      )
