-- ===== src/Service/Validation.antt =====
-- service.go: the checks of what a client sends.
use Prim.Native.Char.{code}
use Prim.Native.String.{len, count as rune_count}
use frimo_messenger.Base.{
  ℕ, ◌≤◌, ◌≡◌, ◌≢◌, ◌↔◌, String, Bool, true, false, ◌&&◌, ◌||◌, Option, none, some, str_eq, eq_iff,
  ltb, leb, ◌==◌, if◌then◌else◌, arith, Bool-cases, Option-cases, inl, inr, ap, refl,
}
use frimo_messenger.Errors.{Result, ok, err, validation}

-- `unicode.IsSpace`.
unfoldable pub is_space : ℕ → Bool
is_space c =
    (leb 9 c && leb c 13)
    || (c == 32
        || (c == 0x85
            || (c == 0xa0
                || (c == 0x1680
                    || ((leb 0x2000 c && leb c 0x200a)
                        || (c == 0x2028
                            || (c == 0x2029 || (c == 0x202f || (c == 0x205f || c == 0x3000)))))))))

trim_left : String → String
trim_left String.[] = String.[]
trim_left (String.◌∷◌ c s) =
    let rest = trim_left s in if is_space (code c) then rest else String.◌∷◌ c s

abbrev is_blank : String → Bool
is_blank String.[] = true
is_blank (String.◌∷◌ c s) = false

trim_right : String → String
trim_right String.[] = String.[]
trim_right (String.◌∷◌ c s) =
    let rest = trim_right s in
    if is_blank rest && is_space (code c) then String.[] else String.◌∷◌ c rest

-- `strings.TrimSpace`.
unfoldable pub trim_space : String → String
unfolding trim_left trim_right is_space
trim_space s = trim_right (trim_left s)

abbrev refused : String → String → String → Result (Unit {0})
refused code field message =
    err (validation (record { code = code; field = field; message = message }))

-- The length of an address is that of its bytes.
unfoldable pub validate_email : (String → Option String) → String → Result (Unit {0})
validate_email parse_address email =
    if str_eq email ""
    then refused "email_required" "email" "email is required"
    else if ltb 254 (len email)
    then refused "email_too_long" "email" "email is too long"
    else elim (parse_address email) [
      | none ↦ refused "invalid_email" "email" "email has invalid format"
      | some address ↦
          if str_eq address email
          then ok tt
          else refused "invalid_email" "email" "email has invalid format"
    ]

-- Other lengths are counted in characters.
unfoldable pub validate_password : String → Result (Unit {0})
validate_password password =
    if str_eq password ""
    then refused "password_required" "password" "password is required"
    else if ltb (rune_count password) 12
    then refused "password_too_short" "password" "password must contain at least 12 characters"
    else if ltb 128 (rune_count password)
    then refused "password_too_long" "password" "password must contain at most 128 characters"
    else ok tt

unfoldable pub validate_device_name : String → Result (Unit {0})
validate_device_name device_name =
    if str_eq device_name ""
    then refused "device_name_required" "device_name" "device name is required"
    else if ltb (rune_count device_name) 3
    then refused "device_name_too_short" "device_name"
        "device name must contain at least 3 characters"
    else if ltb 64 (rune_count device_name)
    then refused "device_name_too_long" "device_name"
        "device name must contain at most 64 characters"
    else ok tt

trims : trim_space "  a b\n" ≡ "a b"
unfolding trim_space
trims = refl

empty_or_not : (s : String) → (str_eq s "" ≡ true) → rune_count s ≡ 0
empty_or_not s h = ap rune_count ((eq_iff s "").0 h)

email_exact :
    (parse_address : String → Option String) (email : String)
    → (validate_email parse_address email ≡ ok tt)
      ↔ ((email ≢ "") × (len email ≤ 254) × (parse_address email ≡ some email))
unfolding validate_email
email_exact parse_address email = elim (Option-cases (parse_address email)) [
  | inl e ↦ (λ h. ground (arith, e, eq_iff email ""), λ h. ground (arith, e, h))
  | inr (a, e) ↦ (
    λ h. (ground (arith, e, eq_iff email ""), ground (arith, e), ground (arith, e, eq_iff a email)),
    λ h. ground (arith, e, h, eq_iff email "", eq_iff a email),
  )
]

password_exact :
    (s : String) → (validate_password s ≡ ok tt) ↔ ((12 ≤ rune_count s) × (rune_count s ≤ 128))
unfolding validate_password
password_exact s = elim (Bool-cases (str_eq s "")) [
  | inl e ↦
      let zero_count = empty_or_not s e in
      (λ h. ground (arith, e), λ h. absurd (omega (arith, h, zero_count)))
  | inr e ↦ (λ h. ground (arith, e), λ h. ground (arith, e, h))
]

device_name_exact :
    (s : String) → (validate_device_name s ≡ ok tt) ↔ ((3 ≤ rune_count s) × (rune_count s ≤ 64))
unfolding validate_device_name
device_name_exact s = elim (Bool-cases (str_eq s "")) [
  | inl e ↦
      let zero_count = empty_or_not s e in
      (λ h. ground (arith, e), λ h. absurd (omega (arith, h, zero_count)))
  | inr e ↦ (λ h. ground (arith, e), λ h. ground (arith, e, h))
]

-- The checks accept exactly the texts within their bounds: an email is not empty, at most 254 bytes
-- long and what the parser reads in it; a password has 12 to 128 characters, a device's name 3 to 64.
pub validation_exact :
    (parse_address : String → Option String) (email text : String)
    → ((validate_email parse_address email ≡ ok tt)
        ↔ ((email ≢ "") × (len email ≤ 254) × (parse_address email ≡ some email)))
      × ((validate_password text ≡ ok tt) ↔ ((12 ≤ rune_count text) × (rune_count text ≤ 128)))
      × ((validate_device_name text ≡ ok tt) ↔ ((3 ≤ rune_count text) × (rune_count text ≤ 64)))
validation_exact parse_address email text =
    (email_exact parse_address email, password_exact text, device_name_exact text)
