-- ===== src/Examples/Security.antt =====
-- The password hashes and the cipher, over a key derivation and a cipher that are easy to run.
use Prim.Native.String.{len}
use frimo_messenger.Base.{
  ℕ, zero, suc, ◌%◌, ◌<◌, ◌≡◌, refl, String, Bytes, IsBytes, [], ◌∷◌, length, arith,
}
use frimo_messenger.Errors.{Result, ok, err, plain}
use frimo_messenger.Service.Ports.{Call}
use frimo_messenger.Security.Cipher.{Aead, IsAead, IsRandom}
use frimo_messenger.Security.Base64.{encode}
use frimo_messenger.Security.Argon2.{Kdf, hash_password}
use frimo_messenger.Security.Argon2.RoundTrip.{IsKdf, IsSaltedBy, verify_password-hash_password}

-- A byte that is repeated.
abbrev pub repeated : ℕ → ℕ → Bytes
repeated zero b = []
repeated (suc n) b = b ∷ repeated n b

length-repeated : (n b : ℕ) → length (repeated n b) ≡ n
unfolding length
length-repeated zero b = refl
length-repeated (suc n) b = let ih = length-repeated n b in omega arith

repeated-IsBytes : (n b : ℕ) → b < 256 → IsBytes (repeated n b)
repeated-IsBytes zero b h = tt
repeated-IsBytes (suc n) b h = (h, repeated-IsBytes n b h)

abbrev pub read_sevens : {W : Type 0} → ℕ → Call W Bytes
read_sevens n w = (ok (repeated n 7), w)

pub read_sevens-IsRandom : {W : Type 0} → IsRandom {W = W} read_sevens
read_sevens-IsRandom n w bytes w1 h =
    let same : bytes ≡ repeated n 7 = ground arith in
    rw same (length-repeated n 7, repeated-IsBytes n 7 (omega arith))

abbrev opened : Bytes → Result Bytes
opened [] = err (plain "not sealed")
opened (x ∷ text) = ok text

-- A cipher that puts a byte in front.
abbrev pub toy : Aead
toy = record {
  nonce_size = 2;
  seal = λ nonce text extra. 1 ∷ text;
  unseal = λ nonce text extra. opened text;
}

pub toy-IsAead : IsAead toy
toy-IsAead = record { unseal_seal = λ nonce text extra. refl }

-- A key that tells passwords of other lengths apart.
abbrev pub key_by_length : Kdf
key_by_length password salt t m p n = repeated n (len password % 256)

key_by_length-IsKdf : IsKdf key_by_length
key_by_length-IsKdf password salt t m p n =
    (length-repeated n (len password % 256), repeated-IsBytes n (len password % 256) (omega arith))

abbrev hashed_secret : String
hashed_secret =
    "$argon2id$v=19$m=65536,t=3,p=2$BwcHBwcHBwcHBwcHBwcHBw$BgYGBgYGBgYGBgYGBgYGBgYGBgYGBgYGBgYGBgYGBgY"

hashes : hash_password key_by_length (read_sevens {W = ℕ}) "secret" 0 ≡ (ok hashed_secret, 0)
unfolding hash_password encode
hashes = refl

verify_password-hash_password_example :
    (salt : Bytes) × IsSaltedBy key_by_length "secret" hashed_secret salt
verify_password-hash_password_example =
    verify_password-hash_password key_by_length key_by_length-IsKdf (read_sevens {W = ℕ})
      read_sevens-IsRandom "secret" hashed_secret 0 0 hashes
