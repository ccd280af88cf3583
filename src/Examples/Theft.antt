-- ===== src/Examples/Theft.antt =====
-- A refresh at the small server with a token that was used before.
use frimo_messenger.Base.{◌≡◌, refl, true, false, bytes_eq, Bytes, none, some, [], ◌∷◌, find}
use frimo_messenger.Errors.{ok, err, sentinel, refresh_token_reuse, session_inactive}
use frimo_messenger.Domain.{RefreshInput, hour, minute}
use frimo_messenger.Postgres.Schema.{Db, SessionRow, RefreshTokenRow}
use frimo_messenger.Postgres.Sessions.{is_inactive}
use frimo_messenger.Postgres.Sessions.Rotation.{Selects, revoked}
use frimo_messenger.Redis
use frimo_messenger.Redis.{hex_encode, cut, identity_text, store_access_token}
use frimo_messenger.Service.Flows.{authenticate, refresh}
use frimo_messenger.Service.Sessions.{is_refused}
use frimo_messenger.Http.{authentication_error}
use frimo_messenger.Http.Requests.{Decoders}
use frimo_messenger.Http.Routes.{handler}
use frimo_messenger.Server.Web.{services}
use frimo_messenger.Server.Refresh.{reused, refresh_refused}
use frimo_messenger.Examples.Http.{decoders}
use frimo_messenger.Examples.Login.{request, not_found}
use frimo_messenger.Server.{ports}
use frimo_messenger.Server.Theft.{request_at, state_at, stolen_token_locks_out}
use frimo_messenger.Examples.{empty_db}
use frimo_messenger.Examples.Service.{World, start}
use frimo_messenger.Examples.Redis.{client, client_laws, laptop_access}
use frimo_messenger.Examples.Security.{repeated}
use frimo_messenger.Examples.Server.{env}
use frimo_messenger.Examples.Texts.{text_codes}
use frimo_messenger.Examples.Config.{cfg}

abbrev pub row : SessionRow
row = record {
  id = 10;
  user_id = 1;
  device_name = "laptop";
  created_ip = "192.0.2.1";
  last_ip = "192.0.2.1";
  created_at = 50;
  last_seen_at = 60;
  expires_at = hour;
  revoked_at = none;
}

abbrev pub used_token : RefreshTokenRow
used_token = record {
  id = 20;
  session_id = 10;
  token_hash = text_codes "old";
  created_at = 50;
  used_at = some 60;
  request_id = some 30;
}

abbrev db : Db
db = record empty_db { sessions = row ∷ []; refresh_tokens = used_token ∷ [] }

abbrev stolen : RefreshInput
stolen = record { operation_id = 31; raw_refresh_token = "old" }

-- The cache has an access token of the session.
abbrev cached : World
cached = (store_access_token client (text_codes "access") laptop_access minute start).1

abbrev locked : World
locked = (Redis.set_session client 10 false cfg.login.refresh_token_ttl (state_at env cfg cached)).1

abbrev sevens : Bytes
sevens = repeated 32 7

finds : Selects (request_at env cfg stolen sevens cached) db used_token row
unfolding find bytes_eq store_access_token
finds = record { token = refl; session = refl }

runs : is_inactive row (env.clock cached).0 ≡ false
unfolding store_access_token
runs = refl

locks :
    Redis.set_session client 10 false cfg.login.refresh_token_ttl (state_at env cfg cached)
    ≡ (ok tt, locked)
unfolding Redis.set_session
locks = refl

holds : Redis.get_access_token client (text_codes "access") locked ≡ (ok laptop_access, locked)
unfolding Redis.get_access_token store_access_token Redis.set_session hex_encode cut identity_text
holds = refl

stolen_token_locks_out_example :
    let after = refresh (ports env cfg) stolen (db, cached) in
    (is_refused after.0 refresh_token_reuse ≡ true)
    × (after.1 ≡ (revoked (request_at env cfg stolen sevens cached) used_token db, locked))
    × ((authenticate (ports env cfg) "access" after.1).0 ≡ err (sentinel session_inactive))
stolen_token_locks_out_example =
    stolen_token_locks_out env cfg client_laws stolen sevens sevens db cached cached cached locked
      used_token row "access" laptop_access refl refl finds runs refl refl refl locks holds refl

abbrev decodes_stolen : Decoders
decodes_stolen = record decoders {
  unmarshal_refresh = λ body. ok (record { operation_id = 31; refresh_token = "old" });
}

refresh_refused_example :
    let out =
      handler
        (services env cfg)
        decodes_stolen
        not_found
        (record request { method = "GET"; path = "/auth/refresh" })
        (db, cached) in
    (out.0.ops ≡ authentication_error)
    × (out.0.world.0 ≡ revoked (request_at env cfg stolen sevens cached) used_token db)
refresh_refused_example =
    refresh_refused env cfg decodes_stolen not_found request
      (record { operation_id = 31; refresh_token = "old" }) sevens sevens db cached cached cached
      authentication_error (revoked (request_at env cfg stolen sevens cached) used_token db) refl
      refl refl refl refl (reused used_token row finds runs refl refl)
