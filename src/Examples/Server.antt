-- ===== src/Examples/Server.antt =====
-- A server with the small Redis, cipher and key derivation.
use frimo_messenger.Base.{suc, ◌+◌, some, [], ◌∷◌}
use frimo_messenger.Postgres.Link.{no_faults}
use frimo_messenger.Server.{Environment}
use frimo_messenger.Examples.Service.{World}
use frimo_messenger.Examples.Redis.{client}
use frimo_messenger.Examples.Security.{read_sevens, toy, key_by_length}
use frimo_messenger.Examples.Texts.{text_codes}

abbrev pub env : Environment World
env = record {
  client = client;
  read_random = read_sevens;
  clock = λ w. (w.tick, record w { tick = w.tick + 1 });
  new_uuid = λ w. (suc w.tick, record w { tick = w.tick + 1 });
  link = λ w. no_faults;
  sha256 = text_codes;
  id_key = key_by_length;
  aead = toy;
  uuid_bytes = λ id. id ∷ [];
  log_error = λ m e s. s;
  text_bytes = text_codes;
  parse_address = λ s. some s;
  to_lower = λ s. s;
  lower = λ s. s;
}
