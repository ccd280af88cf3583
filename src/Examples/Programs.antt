-- ===== src/Examples/Programs.antt =====
-- The programs of cmd with a database and a Redis that answer.
use frimo_messenger.Base.{ℕ, ◌+◌, Bytes, true, false, none, some, [], ◌∷◌, List}
use frimo_messenger.Errors.{Result, ok, sentinel, deadline_exceeded}
use frimo_messenger.Config.{load}
use frimo_messenger.Security.Cipher.{Aead}
use frimo_messenger.Processor.{Signal, done, fired}
use frimo_messenger.Postgres.Link.{down, no_faults}
use frimo_messenger.Programs.{Libraries, server}
use frimo_messenger.Programs.Releases.{EndsClean, ShutsDown, server_ends}
use frimo_messenger.Programs.Workers.{WorkerLibraries}
use frimo_messenger.Examples.Config.{env, thirty_two_bytes}
use frimo_messenger.Examples.Security.{toy}

-- The shutdown takes longer than its limit.
abbrev slow_clients : Libraries
slow_clients = record {
  new_logger = none;
  parse_config = λ url. none;
  new_pool = none;
  ping_pool = none;
  ping_redis = none;
  close_redis = none;
  listen = none;
  signal_first = true;
  shutdown = some (sentinel deadline_exceeded);
  close_server = none;
}

abbrev new_aes : Bytes → Result Bytes
new_aes key = ok key

abbrev new_gcm : Bytes → Result Aead
new_gcm block = ok toy

server_ends_example :
    EndsClean
      (ShutsDown (load env thirty_two_bytes))
      (server slow_clients new_aes new_gcm env thirty_two_bytes)
server_ends_example = server_ends slow_clients new_aes new_gcm env thirty_two_bytes

abbrev around : WorkerLibraries ℕ
around = record {
  clock = λ s. (s, s + 1);
  new_uuid = λ s. (s, s + 1);
  rand_float = λ s. (0, s);
  log_warn = λ m fields s. s;
  link = no_faults;
  queue_link = λ s. down (sentinel deadline_exceeded);
  busy = λ s id. false;
  uuid_bytes = λ id. id ∷ [];
  bytes_text = λ bytes. "";
  query_escape = λ s. s;
  quoted = λ s. s;
  error_text = λ e. "failed";
}

abbrev one_round : List Signal
one_round = fired false ∷ done ∷ []
