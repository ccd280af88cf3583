-- ===== src/Security/Argon2.antt =====
-- password/argon2.go: password hashes as texts with their parameters and salt.
pub mod Parsing
pub mod RoundTrip
use Prim.Native.Nat.{◌^◌}
use Prim.Native.Char.{Char, code}
use Prim.Native.String.{◌++◌}
use frimo_messenger.Base.{
  ℕ, zero, suc, ◌+◌, ◌-◌, ◌*◌, ◌%◌, String, Bool, true, false, ◌&&◌, ◌||◌, not, Option, none, some,
  List, [], ◌∷◌, Bytes, str_eq, ltb, leb, ◌==◌, if◌then◌else◌, bytes_eq, length,
}
use frimo_messenger.Errors.{
  sentinel, plain, wrap, Result, ok, err, ◌>>=◌, context, invalid_credentials,
}
use frimo_messenger.Service.Ports.{Call, wrapping}
use frimo_messenger.Security.Base64.{encode, decode, std_alphabet}
use frimo_messenger.Security.Argon2.Parsing.{split, scan_version, scan_parameters, Parameters}

abbrev pub memory : ℕ
memory = 64 * 1024

abbrev pub iterations : ℕ
iterations = 3

abbrev pub parallelism : ℕ
parallelism = 2

abbrev pub salt_length : ℕ
salt_length = 16

abbrev pub key_length : ℕ
key_length = 32

-- `argon2.IDKey` of a password, a salt, the iterations, the memory, the parallelism and the length
-- of the key.
abbrev pub Kdf : Type 0
Kdf = String → Bytes → ℕ → ℕ → ℕ → ℕ → Bytes

-- The texts of the constants are what `%d` prints.
abbrev pub encoded : Bytes → Bytes → String
encoded salt hash =
    "$argon2id$v=19$m=65536,t=3,p=2$"
    ++ (encode std_alphabet salt ++ ("$" ++ encode std_alphabet hash))

abbrev pub hashed : {W : Type 0} → Kdf → String → Result Bytes × W → Result String × W
hashed id_key password (err e, w) = (err e, w)
hashed id_key password (ok salt, w) =
    (ok (encoded salt (id_key password salt iterations memory parallelism key_length)), w)

-- `Hash`.
unfoldable pub hash_password : {W : Type 0} → Kdf → (ℕ → Call W Bytes) → String → Call W String
hash_password id_key read_random password w =
    hashed id_key password (wrapping "generate password salt" (read_random salt_length) w)

abbrev or_plain {ℓ} : {A : Type ℓ} → String → Option A → Result A
or_plain m none = err (wrap m (plain "unexpected input"))
or_plain m (some a) = ok a

abbrev unsupported_unless : Bool → String → Result (Unit {0})
unsupported_unless b m = if b then ok tt else err (plain m)

-- `decodeHash` on the parts.
unfoldable pub decode_parts : List String → Result (Parameters × Bytes × Bytes)
unfolding scan_version scan_parameters decode
decode_parts (first ∷ algorithm ∷ version ∷ numbers ∷ salt ∷ hash ∷ []) = do
  named ← unsupported_unless (str_eq algorithm "argon2id") "unsupported password hash algorithm"
  v ← or_plain "parse argon2 version" (scan_version version)
  known ← unsupported_unless (v == 19) "unsupported argon2 version"
  params ← or_plain "parse argon2 parameters" (scan_parameters numbers)
  decoded_salt ← context "decode salt" (decode std_alphabet salt)
  decoded_hash ← context "decode password hash" (decode std_alphabet hash)
  ok (params, decoded_salt, decoded_hash)
decode_parts _ = err (plain "invalid encoded password hash")

unfoldable pub decode_hash : String → Result (Parameters × Bytes × Bytes)
unfolding split decode_parts
decode_hash encoded_hash = decode_parts (split encoded_hash)

-- The comparison of the keys. The length asked for is a `uint32`.
abbrev pub compared : Kdf → String → Result (Parameters × Bytes × Bytes) → Result (Unit {0})
compared id_key password (err e) = err (wrap "decode password hash" e)
compared id_key password (ok (params, salt, expected)) =
    if bytes_eq
      (id_key password salt params.iterations params.memory params.parallelism
        (length expected % 2 ^ 32))
      expected
    then ok tt
    else err (sentinel invalid_credentials)

-- `Verify`.
unfoldable pub verify_password : Kdf → String → String → Result (Unit {0})
unfolding decode_hash length bytes_eq
verify_password id_key encoded_hash password = compared id_key password (decode_hash encoded_hash)
