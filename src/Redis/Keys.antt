-- ===== src/Redis/Keys.antt =====
-- The keys and values of the Redis storages: what tells them apart, and how they are read back.
use Prim.Native.String.{◌++◌}
use Prim.Native.Char.{Char, code}
use text.Mathlib.TextLemmas.{nil-append, cons-append, append_cancel_left}
use frimo_messenger.Base.{
  ℕ, all_below, all_below_sound, ==→≡, ◌+◌, ◌*◌, ◌/◌, ◌%◌, ◌<◌, ◌≡◌, ◌≢◌, refl, ap, sym, ◌∙◌,
  String, Bytes, IsBytes, [], ◌∷◌, some, arith, ◌==◌, if◌then◌else◌,
}
use frimo_messenger.Redis.{
  hex_digit, hex_encode, cut, access_token_key_prefix, session_key_prefix,
  refresh_result_key_prefix,
}

-- The number of a digit.
abbrev nibble : Char → ℕ
nibble c =
    if code c == 48
    then 0
    else if code c == 49
    then 1
    else if code c == 50
    then 2
    else if code c == 51
    then 3
    else if code c == 52
    then 4
    else if code c == 53
    then 5
    else if code c == 54
    then 6
    else if code c == 55
    then 7
    else if code c == 56
    then 8
    else if code c == 57
    then 9
    else if code c == 97
    then 10
    else if code c == 98
    then 11
    else if code c == 99
    then 12
    else if code c == 100
    then 13
    else if code c == 101
    then 14
    else 15

nibble-hex_digit : (n : ℕ) → n < 16 → nibble (hex_digit n) ≡ n
unfolding all_below
nibble-hex_digit n h = ==→≡ _ n (all_below_sound 16 (λ n. nibble (hex_digit n) == n) n refl h)

hex_decode : String → Bytes
hex_decode (String.◌∷◌ a (String.◌∷◌ b s)) = (nibble a * 16 + nibble b) ∷ hex_decode s
hex_decode _ = []

hex_decode-encode : (bs : Bytes) → IsBytes bs → hex_decode (hex_encode bs) ≡ bs
unfolding hex_decode hex_encode
hex_decode-encode [] h = refl
hex_decode-encode (b ∷ bs) (small, rest) =
    rw
      (
        nibble-hex_digit (b / 16) (omega arith),
        nibble-hex_digit (b % 16) (omega arith),
        hex_decode-encode bs rest,
      )
      (ap (λ x. x ∷ bs) (omega arith))

pub hex_encode_inj : (a b : Bytes) → IsBytes a → IsBytes b → hex_encode a ≡ hex_encode b → a ≡ b
hex_encode_inj a b ha hb e = sym (hex_decode-encode a ha) ∙ ap hex_decode e ∙ hex_decode-encode b hb

-- The sixth character tells the three kinds of keys apart.
abbrev sixth : String → ℕ
sixth (String.◌∷◌ a (String.◌∷◌ b (String.◌∷◌ c (String.◌∷◌ d (String.◌∷◌ e (String.◌∷◌ f s)))))) =
    code f
sixth _ = 0

sixth-access : (s : String) → sixth (access_token_key_prefix ++ s) ≡ b'a'
sixth-access s =
    rw (cons-append, cons-append, cons-append, cons-append, cons-append, cons-append) refl

sixth-session : (s : String) → sixth (session_key_prefix ++ s) ≡ b's'
sixth-session s =
    rw (cons-append, cons-append, cons-append, cons-append, cons-append, cons-append) refl

sixth-refresh : (s : String) → sixth (refresh_result_key_prefix ++ s) ≡ b'r'
sixth-refresh s =
    rw (cons-append, cons-append, cons-append, cons-append, cons-append, cons-append) refl

apart : {x y : ℕ} (s t : String) → sixth s ≡ x → sixth t ≡ y → x ≢ y → s ≢ t
apart s t p q differ e = differ (sym p ∙ ap sixth e ∙ q)

pub refresh_differs-access :
    (s t : String) → refresh_result_key_prefix ++ s ≢ access_token_key_prefix ++ t
refresh_differs-access s t e = apart _ _ (sixth-refresh s) (sixth-access t) (omega arith) e

pub refresh_differs-session :
    (s t : String) → refresh_result_key_prefix ++ s ≢ session_key_prefix ++ t
refresh_differs-session s t e = apart _ _ (sixth-refresh s) (sixth-session t) (omega arith) e

pub session_differs-access : (s t : String) → session_key_prefix ++ s ≢ access_token_key_prefix ++ t
session_differs-access s t e = apart _ _ (sixth-session s) (sixth-access t) (omega arith) e

-- Two access tokens with other hashes have other keys.
pub access_keys_differ :
    (a b : Bytes)
    → IsBytes a
    → IsBytes b
    → a ≢ b
    → access_token_key_prefix ++ hex_encode a ≢ access_token_key_prefix ++ hex_encode b
access_keys_differ a b ha hb differ e =
    differ (hex_encode_inj a b ha hb (append_cancel_left access_token_key_prefix _ _ e))

abbrev pub NoColon : String → Type 0
NoColon String.[] = Unit
NoColon (String.◌∷◌ c s) = (code c ≢ b':') × NoColon s

-- The first colon is the one that was put between the parts.
pub cut-colon : (a b : String) → NoColon a → cut (a ++ (":" ++ b)) ≡ some (a, b)
unfolding cut
cut-colon String.[] b h = rw (nil-append, cons-append, nil-append) refl
cut-colon (String.◌∷◌ c a) b (p, h) = rw (cons-append, cut-colon a b h) (ground arith)
