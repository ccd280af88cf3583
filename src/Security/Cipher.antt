-- ===== src/Security/Cipher.antt =====
-- secret/cipher.go: AES-GCM with the nonce in front of the ciphertext.
use frimo_messenger.Base.{
  ℕ, IsBytes, ◌≡◌, refl, Bytes, ◌++◌, ltb, ◌==◌, if◌then◌else◌, length, take, drop, take-append,
  drop-append, length-append, arith,
}
use frimo_messenger.Errors.{plain, Result, ok, err, ◌>>=◌, context}
use frimo_messenger.Service.Ports.{Call, wrapping, with_text}

-- `cipher.AEAD` with its key. `seal` and `open` get the nonce, the text and the additional bytes.
pub record Aead : Type 0 where
  pub nonce_size : ℕ
  pub seal : Bytes → Bytes → Bytes → Bytes
  pub unseal : Bytes → Bytes → Bytes → Result Bytes

-- `NewCipher`, over `aes.NewCipher` and `cipher.NewGCM`.
unfoldable pub new_cipher {ℓ} :
    {Block : Type ℓ} → (Bytes → Result Block) → (Block → Result Aead) → Bytes → Result Aead
unfolding length
new_cipher new_aes new_gcm key =
    if length key == 32
    then (do
      block ← context "create AES cipher" (new_aes key)
      context "create GCM cipher" (new_gcm block))
    else err (plain "encryption key must contain exactly 32 bytes")

abbrev sealed : {W : Type 0} → Aead → Bytes → Bytes → Result Bytes × W → Result Bytes × W
sealed c plaintext extra (ok nonce, w) = (ok (nonce ++ c.seal nonce plaintext extra), w)
sealed c plaintext extra (err e, w) = (err e, w)

-- `Encrypt`; `read_random n` fills `n` bytes.
unfoldable pub encrypt : {W : Type 0} → Aead → (ℕ → Call W Bytes) → Bytes → Bytes → Call W Bytes
encrypt c read_random plaintext extra w =
    sealed c plaintext extra (wrapping "generate encryption nonce" (read_random c.nonce_size) w)

-- `Decrypt`.
unfoldable pub decrypt : Aead → Bytes → Bytes → Result Bytes
unfolding length take drop
decrypt c value extra =
    if ltb (length value) c.nonce_size
    then err (plain "encrypted value is too short")
    else context "decrypt or authenticate encrypted value"
        (c.unseal (take c.nonce_size value) (drop c.nonce_size value) extra)

-- What AES-GCM promises: under the same nonce and additional bytes it opens what it sealed.
pub record IsAead (c : Aead) : Type 0 where
  pub unseal_seal :
      (nonce plaintext extra : Bytes)
      → c.unseal nonce (c.seal nonce plaintext extra) extra ≡ ok plaintext

module _ (c : Aead) (gcm : IsAead c) where
  opened :
      (nonce plaintext extra : Bytes)
      → length nonce ≡ c.nonce_size
      → decrypt c (nonce ++ c.seal nonce plaintext extra) extra ≡ ok plaintext
  unfolding decrypt
  opened nonce plaintext extra size =
      let long = length-append nonce (c.seal nonce plaintext extra) in
      rw
        (
          take-append c.nonce_size nonce (c.seal nonce plaintext extra) size,
          drop-append c.nonce_size nonce (c.seal nonce plaintext extra) size,
          gcm.unseal_seal nonce plaintext extra,
        )
        (ground (arith, long, size))

-- The random source fills as many bytes as it is asked for.
abbrev pub IsRandom : {W : Type 0} → (ℕ → Call W Bytes) → Type 0
IsRandom {W} read_random =
    (n : ℕ) (w : W) (bytes : Bytes) (w1 : W)
    → read_random n w ≡ (ok bytes, w1)
    → (length bytes ≡ n) × IsBytes bytes

module _ {W : Type 0} (c : Aead) (gcm : IsAead c) (read_random : ℕ → Call W Bytes)
    (fills : IsRandom read_random) where
  sealed-decrypts :
      (plaintext extra value : Bytes) (w : W) (r : Result Bytes × W) {w1 : W}
      → read_random c.nonce_size w ≡ r
      → sealed c plaintext extra (with_text "generate encryption nonce" r) ≡ (ok value, w1)
      → decrypt c value extra ≡ ok plaintext
  sealed-decrypts plaintext extra value w (ok nonce, w2) e h =
      let same : value ≡ nonce ++ c.seal nonce plaintext extra = ground arith in
      rw same (opened c gcm nonce plaintext extra (fills c.nonce_size w nonce w2 e).0)
  sealed-decrypts plaintext extra value w (err f, w2) e h = cc

  -- For a cipher that opens what it sealed, and a random source that fills what it is asked for:
  -- what was encrypted is decrypted to the same text, with the same additional bytes.
  pub decrypt-encrypt :
      (plaintext extra value : Bytes) (w w1 : W)
      → encrypt c read_random plaintext extra w ≡ (ok value, w1)
      → decrypt c value extra ≡ ok plaintext
  unfolding encrypt
  decrypt-encrypt plaintext extra value w w1 h =
      sealed-decrypts plaintext extra value w (read_random c.nonce_size w) refl h
