-- ===== src/Config/Accepted.antt =====
-- Which environments `Load` accepts, and with which configuration.
use frimo_messenger.Base.{
  ◌≡◌, ◌≢◌, ◌↔◌, ◌⊎◌, inl, inr, refl, ap, sym, ◌∙◌, subst, String, Bytes, Option, some, none,
  Option-cases, eq_iff, length, arith, ◌*◌,
}
use frimo_messenger.Errors.{Result, ok, err, ◌>>=◌, context}
use frimo_messenger.Domain.{second, minute, hour}
use frimo_messenger.Config.{
  Config, get_env, env_or_empty, config_of, checked, decoded, loaded, load,
}
use frimo_messenger.Security.Cipher.{Aead, new_cipher}

module _ (env : String → Option String) (decode_base64 : String → Result Bytes) where
  -- The checks that a configuration passes.
  pub record IsChecked (cfg : Config) : Type 0 where
    pub address : cfg.http.address ≢ ""
    pub database_url : cfg.database_url ≢ ""
    pub base_url : cfg.base_url ≢ ""
    pub encryption_key : length cfg.encryption_key ≡ 32
    pub access_token_secret : length cfg.login.access_token_secret ≡ 32

  -- A setting is the value of its variable, or the default where the variable is not set.
  abbrev pub IsReadFrom : String → String → String → Type 0
  IsReadFrom name fallback value =
      (env name ≡ some value) ⊎ ((env name ≡ none) × (value ≡ fallback))

  -- A key is what the text of its variable, or the empty text, decodes to.
  abbrev pub IsKeyFrom : String → Bytes → Type 0
  IsKeyFrom name key = (text : String) × IsReadFrom name "" text × (decode_base64 text ≡ ok key)

  -- The configuration with its settings as they are and the times that are constants.
  abbrev pub with_constants : Config → Config
  with_constants cfg = record {
    http = record {
      address = cfg.http.address;
      read_header_timeout = 5 * second;
      read_timeout = 10 * second;
      write_timeout = 10 * second;
      idle_timeout = minute;
    };
    database_url = cfg.database_url;
    cache = record { addr = cfg.cache.addr; password = cfg.cache.password; db = 0 };
    base_url = cfg.base_url;
    login = record {
      access_token_secret = cfg.login.access_token_secret;
      access_token_ttl = 15 * minute;
      refresh_token_ttl = 30 * 24 * hour;
    };
    encryption_key = cfg.encryption_key;
    refresh_retry_ttl = minute;
    http_shutdown_timeout = 10 * second;
    worker_shutdown_timeout = 10 * second;
    verification_token_lifetime = 30 * minute;
  }

  -- What each setting is, by the names of the variables, and that it passes the checks.
  pub record IsAccepted (cfg : Config) : Type 0 where
    pub key : IsKeyFrom "VERIFICATION_TOKEN_ENCRYPTION_KEY" cfg.encryption_key
    pub secret : IsKeyFrom "ACCESS_TOKEN_SECRET" cfg.login.access_token_secret
    pub database_url : env "DATABASE_URL" ≡ some cfg.database_url
    pub address : IsReadFrom "HTTP_ADDR" ":8080" cfg.http.address
    pub base_url : IsReadFrom "APP_BASE_URL" "http://localhost" cfg.base_url
    pub redis_addr : IsReadFrom "REDIS_ADDR" "" cfg.cache.addr
    pub redis_password : IsReadFrom "REDIS_PASSWORD" "" cfg.cache.password
    pub constants : cfg ≡ with_constants cfg
    pub checks : IsChecked cfg

  checked-ok :
      (cfg out : Config) → checked env decode_base64 cfg ≡ ok out → (out ≡ cfg) × IsChecked cfg
  unfolding checked
  checked-ok cfg out h = (
    ground arith,
    record {
      address = ground (arith, eq_iff cfg.http.address "");
      database_url = ground (arith, eq_iff cfg.database_url "");
      base_url = ground (arith, eq_iff cfg.base_url "");
      encryption_key = ground arith;
      access_token_secret = ground arith;
    },
  )

  checked_complete : (cfg : Config) → IsChecked cfg → checked env decode_base64 cfg ≡ ok cfg
  unfolding checked
  checked_complete cfg c = ground (
    arith,
    eq_iff cfg.http.address "",
    eq_iff cfg.database_url "",
    eq_iff cfg.base_url "",
    c.address,
    c.database_url,
    c.base_url,
    c.encryption_key,
    c.access_token_secret,
  )

  loaded-ok :
      (m n : String) (key secret : Result Bytes) (cfg : Config)
      → loaded env decode_base64
          (decoded env decode_base64 m key)
          (decoded env decode_base64 n secret)
        ≡ ok cfg
      → (key ≡ ok cfg.encryption_key)
        × (secret ≡ ok cfg.login.access_token_secret)
        × (cfg ≡ config_of env decode_base64 cfg.encryption_key cfg.login.access_token_secret)
        × IsChecked cfg
  loaded-ok m n (err e) secret cfg h = cc
  loaded-ok m n (ok key) (err e) cfg h = cc
  loaded-ok m n (ok key) (ok secret) cfg h =
      let (same, checks) = checked-ok _ cfg h in
      (
        sym (ap (λ (c : Config). ok c.encryption_key) same),
        sym (ap (λ (c : Config). ok c.login.access_token_secret) same),
        rw same refl,
        rw same checks,
      )

  read_or_empty : (name : String) → IsReadFrom name "" (env_or_empty (env name))
  read_or_empty name = elim (Option-cases (env name)) [
    | inl e ↦ rw e (inr (refl, refl))
    | inr (v, e) ↦ rw e (inl refl)
  ]

  read_or : (name fallback : String) → IsReadFrom name fallback (get_env (env name) fallback)
  read_or name fallback = elim (Option-cases (env name)) [
    | inl e ↦ rw e (inr (refl, refl))
    | inr (v, e) ↦ rw e (inl refl)
  ]

  set_unless_empty :
      (name : String) → env_or_empty (env name) ≢ "" → env name ≡ some (env_or_empty (env name))
  set_unless_empty name full = elim (Option-cases (env name)) [
    | inl e ↦ absurd (full (rw e refl))
    | inr (v, e) ↦ rw e refl
  ]

  or_empty_is : (name value : String) → IsReadFrom name "" value → env_or_empty (env name) ≡ value
  or_empty_is name value (inl e) = rw e refl
  or_empty_is name value (inr (e, d)) = rw (e, d) refl

  or_is :
      (name fallback value : String)
      → IsReadFrom name fallback value
      → get_env (env name) fallback ≡ value
  or_is name fallback value (inl e) = rw e refl
  or_is name fallback value (inr (e, d)) = rw (e, d) refl

  accepted-read :
      (cfg : Config)
      → IsAccepted cfg
      → config_of env decode_base64 cfg.encryption_key cfg.login.access_token_secret ≡ cfg
  accepted-read cfg a =
      rw
        (
          or_is "HTTP_ADDR" ":8080" cfg.http.address a.address,
          or_is "APP_BASE_URL" "http://localhost" cfg.base_url a.base_url,
          or_empty_is "REDIS_ADDR" cfg.cache.addr a.redis_addr,
          or_empty_is "REDIS_PASSWORD" cfg.cache.password a.redis_password,
          a.database_url,
        )
        (sym a.constants)

  read-IsAccepted :
      (key secret : Bytes)
      → decode_base64 (env_or_empty (env "VERIFICATION_TOKEN_ENCRYPTION_KEY")) ≡ ok key
      → decode_base64 (env_or_empty (env "ACCESS_TOKEN_SECRET")) ≡ ok secret
      → IsChecked (config_of env decode_base64 key secret)
      → IsAccepted (config_of env decode_base64 key secret)
  read-IsAccepted key secret a b checks = record {
    key = (_, read_or_empty "VERIFICATION_TOKEN_ENCRYPTION_KEY", a);
    secret = (_, read_or_empty "ACCESS_TOKEN_SECRET", b);
    database_url = set_unless_empty "DATABASE_URL" checks.database_url;
    address = read_or "HTTP_ADDR" ":8080";
    base_url = read_or "APP_BASE_URL" "http://localhost";
    redis_addr = read_or_empty "REDIS_ADDR";
    redis_password = read_or_empty "REDIS_PASSWORD";
    constants = refl;
    checks = checks;
  }

  key_is :
      (name : String) (key : Bytes)
      → IsKeyFrom name key
      → decode_base64 (env_or_empty (env name)) ≡ ok key
  key_is name key (text, from, decodes) = ap decode_base64 (or_empty_is name text from) ∙ decodes

  -- `Load` returns a configuration exactly if the texts of VERIFICATION_TOKEN_ENCRYPTION_KEY and
  -- ACCESS_TOKEN_SECRET decode to its two keys, of 32 bytes each; DATABASE_URL is set to its URL, which
  -- is not empty; its address, base URL and the address and password of Redis are those of HTTP_ADDR,
  -- APP_BASE_URL, REDIS_ADDR and REDIS_PASSWORD or the defaults of those that are not set, of which the
  -- first two are not empty; and its times are the constants.
  pub load_exact : (cfg : Config) → (load env decode_base64 ≡ ok cfg) ↔ IsAccepted cfg
  unfolding load checked
  load_exact cfg = (
    λ h.
        let (key, secret, read, checks) = loaded-ok _ _ _ _ cfg h in
        subst IsAccepted (sym read) (
          read-IsAccepted cfg.encryption_key cfg.login.access_token_secret key secret
            (subst IsChecked read checks)),
    λ a.
        rw (key_is _ _ a.key, key_is _ _ a.secret)
          (ap (checked env decode_base64) (accepted-read cfg a) ∙ checked_complete cfg a.checks),
  )

  -- With an accepted configuration `NewCipher` does not refuse its key: it gets as far as the AES and
  -- GCM constructors do.
  pub load-new_cipher :
      {Block : Type 0} (new_aes : Bytes → Result Block) (new_gcm : Block → Result Aead)
      (cfg : Config)
      → load env decode_base64 ≡ ok cfg
      → new_cipher new_aes new_gcm cfg.encryption_key ≡ (do
        block ← context "create AES cipher" (new_aes cfg.encryption_key)
        context "create GCM cipher" (new_gcm block))
  unfolding new_cipher
  load-new_cipher new_aes new_gcm cfg h =
      let a = (load_exact cfg).0 h in rw a.checks.encryption_key refl
