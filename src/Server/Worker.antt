-- ===== src/Server/Worker.antt =====
-- cmd/worker/main.go and `NewDispatcher` of internal/handler/event/dispatcher.go: the dispatcher over
-- PostgreSQL and the cipher, with the configuration's address.
use Prim.Native.Char.{code}
use frimo_messenger.Base.{◌≡◌, refl, String, Bytes, ◌&&◌, str_eq, ◌==◌, if◌then◌else◌}
use frimo_messenger.Errors.{Result, ok, ◌>>=◌}
use frimo_messenger.Domain.{Uuid, Time}
use frimo_messenger.Config.{Config}
use frimo_messenger.Postgres.Schema.{Db}
use frimo_messenger.Postgres.Link.{Faults}
use frimo_messenger.Dispatcher.{Dispatcher, VerificationMessage}
use frimo_messenger.Dispatcher.Delivery.{dispatcher}
use frimo_messenger.Security.Cipher.{Aead, decrypt}

-- `strings.TrimRight(baseURL, "/")`.
unfoldable pub trim_slashes : String → String
trim_slashes String.[] = ""
trim_slashes (String.◌∷◌ c s) =
    let rest = trim_slashes s in if code c == b'/' && str_eq rest "" then "" else String.◌∷◌ c rest

-- `Decrypt` under the bytes of the identifier, and its bytes as a text.
abbrev pub token_decrypt : Aead → (Uuid → Bytes) → (Bytes → String) → Bytes → Uuid → Result String
token_decrypt c uuid_bytes bytes_text ciphertext id = do
  raw ← decrypt c ciphertext (uuid_bytes id)
  ok (bytes_text raw)

-- The dispatcher of the worker. `link` has the faults of its queries.
abbrev pub worker_dispatcher :
    (S : Type 0)
    → Config
    → Faults
    → (VerificationMessage → S → Result (Unit {0}) × S)
    → (S → Time × S)
    → (Bytes → Uuid → Result String)
    → (String → String)
    → (String → String)
    → Dispatcher (Db × S)
worker_dispatcher S cfg link send clock decrypt query_escape quoted =
    dispatcher S link send clock decrypt (trim_slashes cfg.base_url) query_escape quoted

trims : trim_slashes "https://frimo.example/app//" ≡ "https://frimo.example/app"
unfolding trim_slashes
trims = refl
