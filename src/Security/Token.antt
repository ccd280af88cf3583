-- ===== src/Security/Token.antt =====
-- token/token.go: random tokens and their hashes.
use frimo_messenger.Base.{ℕ, String, Bytes}
use frimo_messenger.Errors.{Result, ok, err}
use frimo_messenger.Service.Ports.{Call, wrapping}
use frimo_messenger.Security.Base64.{encode, url_alphabet}

abbrev pub token_size : ℕ
token_size = 32

-- `Hash`; `sha256` gets the token's bytes.
abbrev pub hash_token : (String → Bytes) → String → Bytes
hash_token sha256 raw_token = sha256 raw_token

abbrev pub generated :
    {W : Type 0} → (String → Bytes) → Result Bytes × W → Result (String × Bytes) × W
generated sha256 (err e, w) = (err e, w)
generated sha256 (ok random_bytes, w) = (
  (ok (encode url_alphabet random_bytes, hash_token sha256 (encode url_alphabet random_bytes))),
  w,
)

-- `Generate`.
unfoldable pub generate_token :
    {W : Type 0} → (String → Bytes) → (ℕ → Call W Bytes) → Call W (String × Bytes)
unfolding encode
generate_token sha256 read_random w =
    generated sha256 (wrapping "failed generate random token" (read_random token_size) w)
