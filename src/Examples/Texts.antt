-- ===== src/Examples/Texts.antt =====
-- Texts as lists of the numbers of their characters, and back.
use Prim.Native.Nat.{Ordering, compare}
use Prim.Native.Char.{Char, char, code, nul, IsLt, IsScalar}
use text.Mathlib.TextEquality.{Char-path}
use frimo_messenger.Base.{ℕ, ◌≡◌, refl, ap, String, Bytes, [], ◌∷◌, Option, none, some}

-- The parts of `IsScalar`.
abbrev Both : Ordering → Ordering → Type 0
Both Ordering.lt o = IsLt o
Both Ordering.eq o = ⊥
Both Ordering.gt o = ⊥

abbrev Scalar : Ordering → Ordering → Ordering → Type 0
Scalar Ordering.lt o p = Unit
Scalar Ordering.eq o p = Both o p
Scalar Ordering.gt o p = Both o p

abbrev find_lt : (p : Ordering) → Option (IsLt p)
find_lt Ordering.lt = some tt
find_lt Ordering.eq = none
find_lt Ordering.gt = none

abbrev find_both : (o p : Ordering) → Option (Both o p)
find_both Ordering.lt p = find_lt p
find_both Ordering.eq p = none
find_both Ordering.gt p = none

abbrev find_scalar : (o p q : Ordering) → Option (Scalar o p q)
find_scalar Ordering.lt p q = some tt
find_scalar Ordering.eq p q = find_both p q
find_scalar Ordering.gt p q = find_both p q

lt-found : (p : Ordering) → IsLt p → (y : IsLt p) × (find_lt p ≡ some y)
lt-found Ordering.lt x = (tt, refl)
lt-found Ordering.eq x = absurd x
lt-found Ordering.gt x = absurd x

both-found : (o p : Ordering) → Both o p → (y : Both o p) × (find_both o p ≡ some y)
both-found Ordering.lt p x = lt-found p x
both-found Ordering.eq p x = absurd x
both-found Ordering.gt p x = absurd x

scalar-found : (o p q : Ordering) → Scalar o p q → (y : Scalar o p q) × (find_scalar o p q ≡ some y)
scalar-found Ordering.lt p q x = (tt, refl)
scalar-found Ordering.eq p q x = both-found p q x
scalar-found Ordering.gt p q x = both-found p q x

abbrev char_or_nul : (n : ℕ) → Option (IsScalar n) → Char
char_or_nul n none = nul
char_or_nul n (some p) = char n p

abbrev char_of : ℕ → Char
char_of n = char_or_nul n (find_scalar (compare n 55296) (compare 57343 n) (compare n 1114112))

char_of-code : (c : Char) → char_of (code c) ≡ c
char_of-code (char n p) =
    let (y, found) = scalar-found (compare n 55296) (compare 57343 n) (compare n 1114112) p in
    Char-path _ _ (ap (λ o. code (char_or_nul n o)) found)

abbrev pub text_codes : String → Bytes
text_codes String.[] = []
text_codes (String.◌∷◌ c s) = code c ∷ text_codes s

abbrev pub codes_text : Bytes → String
codes_text [] = ""
codes_text (n ∷ ns) = String.◌∷◌ (char_of n) (codes_text ns)

pub codes_text-codes : (s : String) → codes_text (text_codes s) ≡ s
codes_text-codes String.[] = refl
codes_text-codes (String.◌∷◌ c s) = rw (char_of-code c, codes_text-codes s) refl
