-- ===== src/Examples/Config.antt =====
-- config.go on an environment with a database and two keys.
use frimo_messenger.Base.{◌≡◌, ◌↔◌, String, Option, none, some, Bytes, str_eq, if◌then◌else◌}
use frimo_messenger.Errors.{Result, ok}
use frimo_messenger.Config.{Config, config_of, load}
use frimo_messenger.Config.Accepted.{IsAccepted, load_exact}
use frimo_messenger.Examples.Security.{repeated}

abbrev pub env : String → Option String
env name = if str_eq name "DATABASE_URL" then some "postgres://localhost/frimo" else none

abbrev pub thirty_two_bytes : String → Result Bytes
thirty_two_bytes text = ok (repeated 32 7)

abbrev pub cfg : Config
cfg = config_of env thirty_two_bytes (repeated 32 7) (repeated 32 7)

load_exact_example : (load env thirty_two_bytes ≡ ok cfg) ↔ IsAccepted env thirty_two_bytes cfg
load_exact_example = load_exact env thirty_two_bytes cfg
