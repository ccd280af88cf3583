-- ===== src/Security/Argon2/RoundTrip.antt =====
-- A password hash decides over the password that it was made from.
use Prim.Native.String.{◌++◌}
use text.Mathlib.TextLemmas.{nil-append, cons-append, append_assoc}
use frimo_messenger.Base.{
  ℕ, ◌≡◌, refl, ap, ◌∙◌, String, List, [], ◌∷◌, Bytes, IsBytes, length, bytes_eq, if◌then◌else◌,
  arith,
}
use frimo_messenger.Errors.{sentinel, Result, ok, err, invalid_credentials}
use frimo_messenger.Service.Ports.{Call, with_text}
use frimo_messenger.Security.Base64.{encode, std_alphabet, Avoids, decode-encode, encode-Avoids}
use frimo_messenger.Security.Cipher.{IsRandom}
use frimo_messenger.Security.Argon2.Parsing.{
  split, scan_version, scan_parameters, scan_number, expect, skip_space, digits,
}
use frimo_messenger.Security.Argon2.{
  Kdf, encoded, hashed, hash_password, decode_parts, decode_hash, verify_password, memory,
  iterations, parallelism, key_length, salt_length,
}

-- A part ends at its dollar sign.
split-part : (a b : String) → Avoids b'$' a → split (a ++ ("$" ++ b)) ≡ a ∷ split b
unfolding split
split-part String.[] b h = rw (nil-append, cons-append, nil-append) refl
split-part (String.◌∷◌ c a) b (p, h) = rw (cons-append, split-part a b h) (ground arith)

split_last : (a : String) → Avoids b'$' a → split a ≡ a ∷ []
unfolding split
split_last String.[] h = refl
split_last (String.◌∷◌ c a) (p, h) = rw (split_last a h) (ground arith)

abbrev parts_of : Bytes → Bytes → List String
parts_of salt hash =
    ""
    ∷ "argon2id"
    ∷ "v=19"
    ∷ "m=65536,t=3,p=2"
    ∷ encode std_alphabet salt
    ∷ encode std_alphabet hash
    ∷ []

-- The text in front, taken apart at its dollar signs.
prefix_parts :
    (x : String)
    → "$argon2id$v=19$m=65536,t=3,p=2$" ++ x
      ≡ ""
        ++ ("$"
            ++ ("argon2id" ++ ("$" ++ ("v=19" ++ ("$" ++ ("m=65536,t=3,p=2" ++ ("$" ++ (x))))))))
prefix_parts x =
    let e6 = append_assoc "m=65536,t=3,p=2" "$" x in
    let e5 = append_assoc "$" "m=65536,t=3,p=2$" x ∙ ap (λ s. "$" ++ s) e6 in
    let e4 = append_assoc "v=19" "$m=65536,t=3,p=2$" x ∙ ap (λ s. "v=19" ++ s) e5 in
    let e3 = append_assoc "$" "v=19$m=65536,t=3,p=2$" x ∙ ap (λ s. "$" ++ s) e4 in
    let e2 = append_assoc "argon2id" "$v=19$m=65536,t=3,p=2$" x ∙ ap (λ s. "argon2id" ++ s) e3 in
    let e1 = append_assoc "$" "argon2id$v=19$m=65536,t=3,p=2$" x ∙ ap (λ s. "$" ++ s) e2 in
    let e0 = append_assoc "" "$argon2id$v=19$m=65536,t=3,p=2$" x ∙ ap (λ s. "" ++ s) e1 in e0

split-encoded :
    (salt hash : Bytes)
    → IsBytes salt
    → IsBytes hash
    → split (encoded salt hash) ≡ parts_of salt hash
split-encoded salt hash hs hh =
    rw
      (
        prefix_parts (encode std_alphabet salt ++ ("$" ++ encode std_alphabet hash)),
        split-part "" _ tt,
        split-part "argon2id" _ (omega arith),
        split-part "v=19" _ (omega arith),
        split-part "m=65536,t=3,p=2" _ (omega arith),
        split-part (encode std_alphabet salt) _ (encode-Avoids salt hs),
        split_last (encode std_alphabet hash) (encode-Avoids hash hh),
      )
      refl

decode_hash-encoded :
    (salt hash : Bytes)
    → IsBytes salt
    → IsBytes hash
    → decode_hash (encoded salt hash)
      ≡ ok (
        record { memory = memory; iterations = iterations; parallelism = parallelism },
        salt,
        hash,
      )
unfolding decode_hash decode_parts scan_version scan_parameters scan_number expect skip_space digits
decode_hash-encoded salt hash hs hh =
    rw (split-encoded salt hash hs hh, decode-encode salt hs, decode-encode hash hh) refl

-- `id_key` returns a key of the length that it is asked for.
abbrev pub IsKdf : Kdf → Type 0
IsKdf id_key =
    (password : String) (salt : Bytes) (t m p n : ℕ)
    → (length (id_key password salt t m p n) ≡ n) × IsBytes (id_key password salt t m p n)

-- The key that a hash has of a password.
abbrev pub key_of : Kdf → String → Bytes → Bytes
key_of id_key password salt = id_key password salt iterations memory parallelism key_length

-- A hash of a password under a salt, and what `Verify` makes of any password.
pub record IsSaltedBy (id_key : Kdf) (password encoded_hash : String) (salt : Bytes) : Type 0 where
  pub text : encoded_hash ≡ encoded salt (key_of id_key password salt)
  pub verifies :
      (other : String)
      → verify_password id_key encoded_hash other ≡ (
          if bytes_eq (key_of id_key other salt) (key_of id_key password salt)
          then ok tt
          else err (sentinel invalid_credentials))

module _ {W : Type 0} (id_key : Kdf) (kdf : IsKdf id_key) (read_random : ℕ → Call W Bytes)
    (fills : IsRandom read_random) where
  hashed-verifies :
      (password encoded_hash : String) (w : W) (r : Result Bytes × W) {w1 : W}
      → read_random salt_length w ≡ r
      → hashed id_key password (with_text "generate password salt" r) ≡ (ok encoded_hash, w1)
      → (salt : Bytes) × IsSaltedBy id_key password encoded_hash salt
  unfolding verify_password
  hashed-verifies password encoded_hash w (err e, w2) r h = cc
  hashed-verifies password encoded_hash w (ok salt, w2) r h =
      let key = key_of id_key password salt in
      let same : encoded_hash ≡ encoded salt key = ground arith in
      let (size, small) = kdf password salt iterations memory parallelism key_length in
      (
        salt,
        record {
          text = same;
          verifies = λ other.
              rw (same, decode_hash-encoded salt key (fills salt_length w salt w2 r).1 small, size)
                refl;
        },
      )

  -- For a key derivation that returns as many bytes as it is asked for, and such a random source:
  -- a hash of `password` is the text of some salt and of the key of `password` under it, and it
  -- accepts exactly the passwords of which the key under that salt is that of `password`, and refuses
  -- the others with `ErrInvalidCredentials`.
  pub verify_password-hash_password :
      (password encoded_hash : String) (w w1 : W)
      → hash_password id_key read_random password w ≡ (ok encoded_hash, w1)
      → (salt : Bytes) × IsSaltedBy id_key password encoded_hash salt
  unfolding hash_password
  verify_password-hash_password password encoded_hash w w1 h =
      hashed-verifies password encoded_hash w (read_random salt_length w) refl h
