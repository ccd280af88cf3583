-- ===== src/Security/Base64.antt =====
-- `base64.RawStdEncoding` and `base64.RawURLEncoding` of the standard library, without padding.
use Prim.Native.Char.{Char, code}
use frimo_messenger.Base.{
  ℕ, zero, suc, ◌+◌, ◌*◌, ◌/◌, ◌%◌, ◌<◌, ◌≡◌, ◌≢◌, refl, ap, Bool, true, false, ◌&&◌, ◌||◌, not,
  String, Option, none, some, List, [], ◌∷◌, Bytes, IsBytes, All, ◌==◌, if◌then◌else◌, arith,
  all_below, all_below_sound, length, str_eq, eq_iff, Bool-cases, inl, inr, subst,
}
use frimo_messenger.Errors.{plain, Result, ok, err}

-- The digits of a number of six bits, by the alphabet: the texts of 64 characters.
abbrev pub std_alphabet : String
std_alphabet = "ABCDEFGHIJKLMNOPQRSTUVWXYZabcdefghijklmnopqrstuvwxyz0123456789+/"

abbrev pub url_alphabet : String
url_alphabet = "ABCDEFGHIJKLMNOPQRSTUVWXYZabcdefghijklmnopqrstuvwxyz0123456789-_"

unfoldable pub digit : String → ℕ → Char
digit String.[] n = "="
digit (String.◌∷◌ c s) zero = c
digit (String.◌∷◌ c s) (suc n) = digit s n

-- The place of a character in the alphabet, from `n` on.
unfoldable pub place : String → ℕ → Char → Option ℕ
place String.[] n d = none
place (String.◌∷◌ c s) n d =
    let rest = place s (n + 1) d in if code c == code d then some n else rest

-- The groups of six bits, of which the last is filled up with zeros.
unfoldable pub sextets : Bytes → List ℕ
sextets [] = []
sextets (a ∷ []) = (a / 4) ∷ (a % 4 * 16) ∷ []
sextets (a ∷ b ∷ []) = (a / 4) ∷ (a % 4 * 16 + b / 16) ∷ (b % 16 * 4) ∷ []
sextets (a ∷ b ∷ c ∷ bs) =
    (a / 4) ∷ (a % 4 * 16 + b / 16) ∷ (b % 16 * 4 + c / 64) ∷ (c % 64) ∷ sextets bs

unfoldable pub text_of : String → List ℕ → String
unfolding digit
text_of alphabet [] = ""
text_of alphabet (n ∷ ns) = String.◌∷◌ (digit alphabet n) (text_of alphabet ns)

-- `EncodeToString`.
unfoldable pub encode : String → Bytes → String
unfolding text_of sextets
encode alphabet bs = text_of alphabet (sextets bs)

-- The numbers of the characters; line ends are skipped.
unfoldable pub values : String → String → Option (List ℕ)
unfolding place
values alphabet String.[] = some []
values alphabet (String.◌∷◌ c s) =
    let rest = values alphabet s in
    if code c == 10 || code c == 13 then rest else elim (place alphabet 0 c) [
      | none ↦ none
      | some n ↦ elim rest [ none ↦ none | some ns ↦ some (n ∷ ns) ]
    ]

abbrev with_three : ℕ → ℕ → ℕ → Option Bytes → Option Bytes
with_three a b c none = none
with_three a b c (some bs) = some (a ∷ b ∷ c ∷ bs)

-- The bytes of the groups; the bits that fill up the last are not looked at.
unfoldable pub bytes_of : List ℕ → Option Bytes
bytes_of [] = some []
bytes_of (x ∷ []) = none
bytes_of (x ∷ y ∷ []) = some ((x * 4 + y / 16) ∷ [])
bytes_of (x ∷ y ∷ z ∷ []) = some ((x * 4 + y / 16) ∷ (y % 16 * 16 + z / 4) ∷ [])
bytes_of (x ∷ y ∷ z ∷ t ∷ ns) =
    with_three (x * 4 + y / 16) (y % 16 * 16 + z / 4) (z % 4 * 64 + t) (bytes_of ns)

abbrev or_corrupt : Option Bytes → Result Bytes
or_corrupt none = err (plain "illegal base64 data")
or_corrupt (some bs) = ok bs

abbrev decoded : Option (List ℕ) → Result Bytes
decoded none = err (plain "illegal base64 data")
decoded (some ns) = or_corrupt (bytes_of ns)

-- `DecodeString`.
unfoldable pub decode : String → String → Result Bytes
unfolding values bytes_of
decode alphabet s = decoded (values alphabet s)

bytes_of-sextets : (bs : Bytes) → IsBytes bs → bytes_of (sextets bs) ≡ some bs
unfolding bytes_of sextets
bytes_of-sextets [] h = refl
bytes_of-sextets (a ∷ []) (ha, _) = ap (λ x. some (x ∷ [])) (omega arith)
bytes_of-sextets (a ∷ b ∷ []) (ha, (hb, _)) =
    let e : (a / 4 * 4 + (a % 4 * 16 + b / 16) / 16) ≡ a = omega arith in
    let f : ((a % 4 * 16 + b / 16) % 16 * 16 + b % 16 * 4 / 4) ≡ b = omega arith in rw (e, f) refl
bytes_of-sextets (a ∷ b ∷ c ∷ bs) (ha, (hb, (hc, h))) =
    let e : (a / 4 * 4 + (a % 4 * 16 + b / 16) / 16) ≡ a = omega arith in
    let f : ((a % 4 * 16 + b / 16) % 16 * 16 + (b % 16 * 4 + c / 64) / 4) ≡ b = omega arith in
    let g : ((b % 16 * 4 + c / 64) % 4 * 64 + c % 64) ≡ c = omega arith in
    rw (bytes_of-sextets bs h, e, f, g) refl

sextets-small : (bs : Bytes) → IsBytes bs → All (λ n. n < 64) (sextets bs)
unfolding sextets
sextets-small [] h = tt
sextets-small (a ∷ []) (ha, _) = (omega arith, (omega arith, tt))
sextets-small (a ∷ b ∷ []) (ha, (hb, _)) = (omega arith, (omega arith, (omega arith, tt)))
sextets-small (a ∷ b ∷ c ∷ bs) (ha, (hb, (hc, h))) =
    (omega arith, (omega arith, (omega arith, (omega arith, sextets-small bs h))))

-- A digit is found at its own place, and is neither a line end nor a dollar sign.
abbrev is_place : Option ℕ → ℕ → Bool
is_place none n = false
is_place (some m) n = m == n

abbrev is_digit : ℕ → Bool
is_digit n =
    is_place (place std_alphabet 0 (digit std_alphabet n)) n
    && (not (code (digit std_alphabet n) == 10 || code (digit std_alphabet n) == 13)
        && not (code (digit std_alphabet n) == b'$'))

std_digits : (n : ℕ) → n < 64 → is_digit n ≡ true
unfolding all_below place digit
std_digits n h = all_below_sound 64 is_digit n refl h

place-is : (o : Option ℕ) (n : ℕ) → is_place o n ≡ true → o ≡ some n
place-is o n h = ground arith

record IsDigit (n : ℕ) : Type 0 where
  found : place std_alphabet 0 (digit std_alphabet n) ≡ some n
  no_line_end : (code (digit std_alphabet n) == 10 || code (digit std_alphabet n) == 13) ≡ false
  no_dollar : code (digit std_alphabet n) ≢ b'$'

std-IsDigit : (n : ℕ) → n < 64 → IsDigit n
std-IsDigit n h =
    let d = std_digits n h in
    record {
      found = place-is _ n (ground arith);
      no_line_end = ground arith;
      no_dollar = ground arith;
    }

values-text_of :
    (ns : List ℕ) → All (λ n. n < 64) ns → values std_alphabet (text_of std_alphabet ns) ≡ some ns
unfolding values text_of
values-text_of [] h = refl
values-text_of (n ∷ ns) (small, h) =
    let d = std-IsDigit n small in rw (d.no_line_end, d.found, values-text_of ns h) refl

-- What was encoded is decoded to the same bytes.
pub decode-encode : (bs : Bytes) → IsBytes bs → decode std_alphabet (encode std_alphabet bs) ≡ ok bs
unfolding decode encode
decode-encode bs h =
    rw (values-text_of (sextets bs) (sextets-small bs h), bytes_of-sextets bs h) refl

-- The text has no character of that number.
abbrev pub Avoids : ℕ → String → Type 0
Avoids k String.[] = Unit
Avoids k (String.◌∷◌ c s) = (code c ≢ k) × Avoids k s

text_of-Avoids : (ns : List ℕ) → All (λ n. n < 64) ns → Avoids b'$' (text_of std_alphabet ns)
unfolding text_of
text_of-Avoids [] h = tt
text_of-Avoids (n ∷ ns) (small, h) = ((std-IsDigit n small).no_dollar, text_of-Avoids ns h)

-- An encoding has no dollar sign.
pub encode-Avoids : (bs : Bytes) → IsBytes bs → Avoids b'$' (encode std_alphabet bs)
unfolding encode
encode-Avoids bs h = text_of-Avoids (sextets bs) (sextets-small bs h)

-- The text has a character.
abbrev HasText : String → Type 0
HasText String.[] = ⊥
HasText (String.◌∷◌ c s) = Unit

HasText-str_eq : (s : String) → HasText s → str_eq s "" ≡ false
HasText-str_eq s some_text = elim (Bool-cases (str_eq s "")) [
  | inl e ↦ absurd (subst HasText ((eq_iff s "").0 e) some_text)
  | inr e ↦ e
]

encode-HasText : (alphabet : String) (bs : Bytes) → 0 < length bs → HasText (encode alphabet bs)
unfolding encode text_of sextets length
encode-HasText alphabet [] long = absurd (omega (arith, long))
encode-HasText alphabet (a ∷ []) long = tt
encode-HasText alphabet (a ∷ b ∷ []) long = tt
encode-HasText alphabet (a ∷ b ∷ c ∷ bs) long = tt

-- The text of some bytes is not the empty one.
pub encode-full :
    (alphabet : String) (bs : Bytes) → 0 < length bs → str_eq (encode alphabet bs) "" ≡ false
encode-full alphabet bs long = HasText-str_eq (encode alphabet bs) (encode-HasText alphabet bs long)
