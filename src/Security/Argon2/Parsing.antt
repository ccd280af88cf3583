-- ===== src/Security/Argon2/Parsing.antt =====
-- What argon2.go uses of strings and fmt: `strings.Split` at a dollar sign, and `fmt.Sscanf` with the
-- formats "v=%d" and "m=%d,t=%d,p=%d". Text after the last number is not looked at.
use Prim.Native.Char.{Char, code}
use frimo_messenger.Base.{
  ℕ, ◌+◌, ◌-◌, ◌*◌, String, Bool, ◌≡◌, refl, ◌&&◌, ◌||◌, Option, none, some, List, [], ◌∷◌, ltb,
  leb, ◌==◌, if◌then◌else◌,
}

abbrev onto_first : Char → List String → List String
onto_first c [] = String.◌∷◌ c String.[] ∷ []
onto_first c (part ∷ parts) = String.◌∷◌ c part ∷ parts

-- `strings.Split(s, "$")`.
unfoldable pub split : String → List String
split String.[] = "" ∷ []
split (String.◌∷◌ c s) =
    let rest = split s in if code c == b'$' then "" ∷ rest else onto_first c rest

-- `uint32`, `uint32` and `uint8`.
pub record Parameters : Type 0 where
  pub memory : ℕ
  pub iterations : ℕ
  pub parallelism : ℕ

-- The rest of the text after a literal part of the format.
unfoldable pub expect : String → String → Option String
expect String.[] s = some s
expect (String.◌∷◌ c format) String.[] = none
expect (String.◌∷◌ c format) (String.◌∷◌ d s) =
    let rest = expect format s in if code c == code d then rest else none

-- Blanks before a number, of which a line end is an error.
unfoldable pub skip_space : String → Option String
skip_space String.[] = some ""
skip_space (String.◌∷◌ c s) =
    let rest = skip_space s in
    if code c == 10
    then none
    else if code c == 32 || (leb 9 (code c) && leb (code c) 13)
    then rest
    else some (String.◌∷◌ c s)

abbrev is_digit : Char → Bool
is_digit c = leb 48 (code c) && leb (code c) 57

-- The number of the digits in front, after `n`, and the rest.
unfoldable pub digits : ℕ → String → ℕ × String
digits n String.[] = (n, "")
digits n (String.◌∷◌ c s) =
    let rest = digits (n * 10 + (code c - 48)) s in if is_digit c then rest else (n, String.◌∷◌ c s)

-- `%d` at an unsigned number below `bound`: at least one digit.
abbrev number : ℕ → String → Option (ℕ × String)
number bound String.[] = none
number bound (String.◌∷◌ c s) =
    let (n, rest) = digits 0 (String.◌∷◌ c s) in
    if is_digit c && ltb n bound then some (n, rest) else none

abbrev then_number : ℕ → Option String → Option (ℕ × String)
then_number bound none = none
then_number bound (some s) = number bound s

unfoldable pub scan_number : ℕ → String → Option (ℕ × String)
unfolding digits skip_space
scan_number bound s = then_number bound (skip_space s)

abbrev after_sign : String → Option ℕ
after_sign s = elim (number (2 * 4611686018427387904) s) [ none ↦ none | some (n, rest) ↦ some n ]

-- `%d` at an `int`: a sign may come first. A negative number stands as none, like an error, since
-- neither is the version.
abbrev signed : Option String → Option ℕ
signed none = none
signed (some String.[]) = none
signed (some (String.◌∷◌ c s)) =
    if code c == b'+'
    then after_sign s
    else if code c == b'-'
    then none
    else after_sign (String.◌∷◌ c s)

abbrev version_after : Option String → Option ℕ
version_after none = none
version_after (some s) = signed (skip_space s)

-- `fmt.Sscanf(s, "v=%d", &version)`.
unfoldable pub scan_version : String → Option ℕ
unfolding expect skip_space digits
scan_version s = version_after (expect "v=" s)

-- A literal part and then a number.
abbrev field : String → ℕ → Option String → Option (ℕ × String)
field format bound none = none
field format bound (some s) = elim (expect format s) [ none ↦ none | some t ↦ scan_number bound t ]

abbrev rest_of : Option (ℕ × String) → Option String
rest_of none = none
rest_of (some (n, s)) = some s

abbrev parameters :
    Option (ℕ × String) → Option (ℕ × String) → Option (ℕ × String) → Option Parameters
parameters (some (m, _)) (some (t, _)) (some (p, _)) =
    some (record { memory = m; iterations = t; parallelism = p })
parameters (some (m, _)) (some (t, _)) none = none
parameters (some (m, _)) none p = none
parameters none t p = none

-- `fmt.Sscanf(s, "m=%d,t=%d,p=%d", ...)`, at numbers of 32, 32 and 8 bits.
unfoldable pub scan_parameters : String → Option Parameters
unfolding scan_number expect
scan_parameters s =
    let m = field "m=" 4_294_967_296 (some s) in
    let t = field ",t=" 4_294_967_296 (rest_of m) in
    let p = field ",p=" 256 (rest_of t) in parameters m t p

scans :
    scan_parameters "m=65536,t=3,p=2"
    ≡ some (record { memory = 65536; iterations = 3; parallelism = 2 })
unfolding scan_parameters scan_number expect skip_space digits
scans = refl

overflows : scan_parameters "m=65536,t=3,p=256" ≡ none
unfolding scan_parameters scan_number expect skip_space digits
overflows = refl
