-- ===== src/Examples/Redis.antt =====
-- The Redis storages over a map of texts.
use frimo_messenger.Base.{
  ℕ, zero, suc, ◌≡◌, ◌≢◌, refl, sym, ap, String, Bool, true, false, Option, some, none, str_eq,
  eq_iff, ◌&&◌, if◌then◌else◌, Bool-cases, inl, inr, arith,
}
use frimo_messenger.Errors.{Result, ok, err, sentinel, plain, redis_nil}
use frimo_messenger.Domain.{TokenPair, Identity}
use frimo_messenger.Redis.{Client}
use frimo_messenger.Redis.Keys.{NoColon}
use frimo_messenger.Redis.Laws.{IsRedis}
use frimo_messenger.Examples.Service.{World, pair}

abbrev or_nil : Option String → Result String
or_nil none = err (sentinel redis_nil)
or_nil (some v) = ok v

-- A number as that many digits, and back.
abbrev pub unary : ℕ → String
unary zero = ""
unary (suc n) = String.◌∷◌ "1" (unary n)

abbrev pub tally : String → ℕ
tally String.[] = 0
tally (String.◌∷◌ c s) = suc (tally s)

pub tally-unary : (n : ℕ) → tally (unary n) ≡ n
tally-unary zero = refl
tally-unary (suc n) = ap suc (tally-unary n)

pub unary-NoColon : (n : ℕ) → NoColon (unary n)
unary-NoColon zero = tt
unary-NoColon (suc n) = (omega arith, unary-NoColon n)

abbrev digit_of : Bool → String
digit_of true = "1"
digit_of false = "0"

abbrev is_pair : TokenPair → Bool
is_pair p = str_eq p.access_token "access" && str_eq p.refresh_token "refresh"

abbrev pub client : Client World
client = record {
  set = λ key value ttl w.
      (ok tt, record w { texts = λ k. if str_eq k key then some value else w.texts k });
  get = λ key w. (or_nil (w.texts key), w);
  bool_text = digit_of;
  parse_bool = λ s. ok (str_eq s "1");
  uuid_text = unary;
  parse_uuid = λ s. ok (tally s);
  marshal = λ p. if is_pair p then ok "pair" else err (plain "unknown pair");
  unmarshal = λ s. ok pair;
}

pub str_eq_refl : (s : String) → str_eq s s ≡ true
str_eq_refl s = (eq_iff s s).1 refl

pub other_key : (k key : String) → k ≢ key → str_eq k key ≡ false
other_key k key differ = elim (Bool-cases (str_eq k key)) [
  | inl e ↦ absurd (differ ((eq_iff k key).0 e))
  | inr e ↦ e
]

pub digit_read : (b : Bool) → client.parse_bool (client.bool_text b) ≡ ok b
digit_read true = refl
digit_read false = refl

abbrev pub client_laws : IsRedis client
client_laws = record {
  time = λ w. w.tick;
  Has = λ key value end w. w.texts key ≡ some value;
  set_get = λ key value ttl w w1 h. rw (sym (ap (λ x. x.1) h), str_eq_refl key) refl;
  set_has = λ key value ttl w w1 h. rw (sym (ap (λ x. x.1) h), str_eq_refl key) refl;
  set_other = λ key value other text end ttl w differ has. rw (other_key key other differ) has;
  get_has = λ key value end w has soon. rw has refl;
  bool_text = digit_read;
  uuid_text = λ u. ap ok (tally-unary u);
  uuid_colon = unary-NoColon;
  json =
      λ p text h. ground (arith, eq_iff p.access_token "access", eq_iff p.refresh_token "refresh");
}

abbrev pub laptop_access : Identity
laptop_access = record { user_id = 1; session_id = 10 }
