-- ===== src/Examples/Retry.antt =====
-- A refresh at the small server that is asked twice.
use frimo_messenger.Base.{
  ◌≡◌, ◌<◌, ◌+◌, refl, Bytes, bytes_eq, ◌&&◌, str_eq, eq_iff, none, [], ◌∷◌, find, update, exists,
  arith, if◌then◌else◌,
}
use frimo_messenger.Errors.{ok, err, plain}
use frimo_messenger.Domain.{RefreshInput, TokenPair}
use frimo_messenger.Postgres.Schema.{Db, insert_refresh_token}
use frimo_messenger.Postgres.Link.{no_faults}
use frimo_messenger.Postgres.Sessions.{
  extended, extend_session, select_token, extend_selected, rotate_token,
}
use frimo_messenger.Redis
use frimo_messenger.Redis.{Client, hex_encode}
use frimo_messenger.Redis.Laws.{IsRedis}
use frimo_messenger.Security.Base64.{encode}
use frimo_messenger.Security.Token.{generate_token}
use frimo_messenger.Service.Flows.{refresh, after_extension, refresh_extended}
use frimo_messenger.Server.{Environment, ports}
use frimo_messenger.Server.Theft.{request_at, state_at}
use frimo_messenger.Service.Sessions.{IsCache}
use frimo_messenger.Service.Caches.{IsCaches}
use frimo_messenger.Server.Caches.{redis_caches}
use frimo_messenger.Server.Retry.{IsApart, pair_of, refresh_repeats}
use frimo_messenger.Examples.{empty_db}
use frimo_messenger.Examples.Service.{World, start}
use frimo_messenger.Examples.Redis.{client, client_laws, laptop_access}
use frimo_messenger.Examples.Security.{repeated}
use frimo_messenger.Examples.Theft.{row, used_token}
use frimo_messenger.Examples.Server.{env}
use frimo_messenger.Examples.Config.{cfg}
use frimo_messenger.Examples.Texts.{text_codes}

abbrev sevens : Bytes
sevens = repeated 32 7

abbrev tokens : TokenPair
tokens = pair_of sevens sevens

-- A Redis whose codec knows these tokens.
abbrev codec : Client World
codec = record client {
  marshal = λ p.
      if str_eq p.access_token tokens.access_token && str_eq p.refresh_token tokens.refresh_token
      then ok "pair"
      else err (plain "unknown pair");
  unmarshal = λ s. ok tokens;
}

abbrev codec_laws : IsRedis codec
codec_laws = record {
  time = client_laws.time;
  Has = client_laws.Has;
  set_get = client_laws.set_get;
  set_has = client_laws.set_has;
  set_other = client_laws.set_other;
  get_has = client_laws.get_has;
  bool_text = client_laws.bool_text;
  uuid_text = client_laws.uuid_text;
  uuid_colon = client_laws.uuid_colon;
  json = λ p text h. ground (
    arith,
    eq_iff p.access_token tokens.access_token,
    eq_iff p.refresh_token tokens.refresh_token,
  );
}

abbrev around : Environment World
around = record env { client = codec }

around-IsApart : IsApart around codec_laws
around-IsApart = record {
  reading = λ key value end n s has. has;
  timing = λ key value end s has. has;
  naming = λ key value end s has. has;
  logging = λ key value end m e s has. has;
}

abbrev input : RefreshInput
input = record { operation_id = 31; raw_refresh_token = "old" }

abbrev db : Db
db = record empty_db {
  sessions = row ∷ [];
  refresh_tokens = record used_token { used_at = none; request_id = none } ∷ [];
}

abbrev rotated : Db
rotated = (extend_session no_faults (request_at around cfg input sevens start) db).1

rotates :
    extend_session no_faults (request_at around cfg input sevens start) db
    ≡ (extended laptop_access, rotated)
unfolding extend_session select_token extend_selected rotate_token insert_refresh_token find update
    exists bytes_eq encode
rotates = refl

abbrev taken : World
taken =
    (Redis.store_refresh_result codec (text_codes "old") tokens cfg.refresh_retry_ttl
      (state_at around cfg start)).1

takes :
    Redis.store_refresh_result codec
      (text_codes "old")
      tokens
      cfg.refresh_retry_ttl
      (state_at around cfg start)
    ≡ (ok tt, taken)
unfolding Redis.store_refresh_result encode
takes = refl

abbrev after : Db × World
after = (refresh (ports around cfg) input (db, start)).1

runs : (around.clock after.1).0 < (around.clock start).0 + cfg.login.refresh_token_ttl
unfolding refresh after_extension refresh_extended extend_session select_token extend_selected
    rotate_token insert_refresh_token find update exists bytes_eq encode generate_token
    Redis.store_refresh_result Redis.store_access_token Redis.set_session
runs = omega arith

soon :
    codec_laws.time (state_at around cfg after.1)
    < codec_laws.time (state_at around cfg start) + cfg.refresh_retry_ttl
unfolding refresh after_extension refresh_extended extend_session select_token extend_selected
    rotate_token insert_refresh_token find update exists bytes_eq encode generate_token
    Redis.store_refresh_result Redis.store_access_token Redis.set_session
soon = omega arith

redis_caches_example :
    IsCache (ports around cfg) × IsCaches (ports around cfg) (λ w. codec_laws.time w.1)
redis_caches_example = redis_caches around cfg codec_laws around-IsApart.logging

refresh_repeats_example :
    ((refresh (ports around cfg) input (db, start)).0 ≡ ok tokens)
    × ((refresh (ports around cfg) input after).0 ≡ ok tokens)
refresh_repeats_example =
    refresh_repeats around cfg codec_laws around-IsApart input sevens sevens sevens sevens db
      rotated start start start taken after.1 after.1 laptop_access refl refl rotates takes refl
      refl refl runs soon
