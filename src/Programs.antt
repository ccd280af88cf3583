-- ===== src/Programs.antt =====
-- cmd/server/main.go, cmd/worker/main.go and postgres.go of internal/adapter/repository/postgres:
-- how the programs open what they need, and how they end.
pub mod Releases
pub mod Workers
use frimo_messenger.Base.{
  Bytes, String, Bool, true, false, Option, none, some, List, [], ◌∷◌, ◌++◌, if◌then◌else◌,
}
use frimo_messenger.Errors.{Error, http_server_closed, wrap, is, Result, ok, err}
use frimo_messenger.Domain.{Duration}
use frimo_messenger.Config.{HttpConfig, RedisConfig, Config, load}
use frimo_messenger.Security.Cipher.{Aead, new_cipher}
use frimo_messenger.Processor.{Processor, Signal, run}

pub data Level : Type 0 where
  info error fatal_level : Level

-- The calls of a program that take or give back something, and its lines in the log. `listening` is
-- the start of the goroutine that serves, with the fields of its `http.Server`; `shut_down` has the
-- time limit, and whether the server was shut down in it. The goroutine's line in the log is put
-- before its start.
pub data Call : Type 0 where
  pool_created pool_closed : Call
  redis_created : RedisConfig → Call
  redis_closed : Call
  signals_on signals_off : Call
  listening : HttpConfig → Call
  shut_down : Duration → Bool → Call
  server_closed : Call
  logger_synced : Call
  logged : Level → String → Option Error → Call

-- How `main` ends: by a panic, by `logger.Fatal`, which exits at once, or by its return.
pub data Ending : Type 0 where
  panicked : Error → Ending
  exited : String → Error → Ending
  returned : Ending

abbrev pub Trace : Type 0
Trace = Ending × List Call

abbrev after : List Call → Trace → Trace
after calls (e, trace) = (e, calls ++ trace)

-- `defer`: the calls are made at the end, but not after `logger.Fatal`.
abbrev deferring : List Call → Trace → Trace
deferring calls (returned, trace) = (returned, trace ++ calls)
deferring calls (panicked e, trace) = (panicked e, trace ++ calls)
deferring calls (exited m e, trace) = (exited m e, trace)

-- `logger.Fatal`.
abbrev fatal : String → Error → Trace
fatal m e = (exited m e, logged fatal_level m (some e) ∷ [])

-- What the libraries answer in one run of a program. `parse_config` is `pgxpool.ParseConfig`,
-- `new_pool` is `pgxpool.NewWithConfig`. `listen` is what `ListenAndServe` has returned with when the
-- select of the server is made, none if it still serves, and `signal_first` tells that the select
-- receives the signal, if it could receive the error too.
pub record Libraries : Type 0 where
  pub new_logger : Option Error
  pub parse_config : String → Option Error
  pub new_pool : Option Error
  pub ping_pool : Option Error
  pub ping_redis : Option Error
  pub close_redis : Option Error
  pub listen : Option Error
  pub signal_first : Bool
  pub shutdown : Option Error
  pub close_server : Option Error

module _ (l : Libraries) where
  open l use {
    new_logger, parse_config, new_pool, ping_pool, ping_redis, close_redis, listen, signal_first,
    shutdown, close_server,
  }

  -- `postgres.Open`.
  unfoldable pub open_pool : String → Result (Unit {0}) × List Call
  open_pool database_url = elim (parse_config database_url) [
    | some e ↦ (err (wrap "parse database config" e), [])
    | none ↦ elim new_pool [
      | some e ↦ (err (wrap "create database pool" e), [])
      | none ↦ elim ping_pool [
        | some e ↦ (err (wrap "ping database" e), pool_created ∷ pool_closed ∷ [])
        | none ↦ (ok tt, pool_created ∷ [])
      ]
    ]
  ]

  -- `NewRedis`.
  unfoldable pub new_redis : RedisConfig → Result (Unit {0}) × List Call
  new_redis cfg = elim ping_redis [
    | some e ↦ (err (wrap "redis is unavailable" e), redis_created cfg ∷ redis_closed ∷ [])
    | none ↦ (ok tt, redis_created cfg ∷ [])
  ]

  -- What the serving goroutine sends to `serverError`.
  abbrev server_error : Option Error
  server_error = elim listen [
    | none ↦ none
    | some e ↦ if is e http_server_closed then none else some e
  ]

  -- The error that the select receives, if it is not the signal.
  abbrev selected : Option Error
  selected = if signal_first then none else server_error

  -- From the shutdown on.
  unfoldable pub stop : Config → Trace
  stop cfg = (
    returned,
    elim shutdown [
      | none ↦ shut_down cfg.http_shutdown_timeout true ∷ []
      | some e ↦
          shut_down cfg.http_shutdown_timeout false
          ∷ logged error "failed graceful shutdown failed" (some e)
          ∷ server_closed
          ∷ elim close_server [
            | none ↦ []
            | some c ↦ logged error "failed forced server close failed" (some c) ∷ []
          ]
    ],
  )

  -- From the server on.
  unfoldable pub serve : Config → Trace
  unfolding stop
  serve cfg =
      after (signals_on ∷ logged info "Server is listening" none ∷ listening cfg.http ∷ []) (
        deferring (signals_off ∷ []) (elim selected [
          | some e ↦ fatal "server failed" e
          | none ↦ after (logged info "shutdown signal received" none ∷ []) (stop cfg)
        ]))

  -- `defer cache.Close()`, with its line in the log.
  abbrev closing_redis : List Call
  closing_redis =
      redis_closed
      ∷ elim close_redis [ none ↦ [] | some e ↦ logged info "failed closing redis" (some e) ∷ [] ]

  module _ {Block : Type 0} (new_aes : Bytes → Result Block) (new_gcm : Block → Result Aead) where
    -- From `secret.NewCipher` on.
    abbrev with_cipher : Config → Result Aead → Trace
    with_cipher cfg (err e) = fatal "failed creation verification token cipher" e
    with_cipher cfg (ok aead) = serve cfg

    -- From `NewRedis` on.
    abbrev with_redis : Config → Result (Unit {0}) × List Call → Trace
    with_redis cfg (err e, calls) = after calls (fatal "failed connection to redis" e)
    with_redis cfg (ok x, calls) =
        after calls (
          deferring closing_redis (with_cipher cfg (new_cipher new_aes new_gcm cfg.encryption_key)))

    -- From `postgres2.Open` on.
    abbrev with_pool : Config → Result (Unit {0}) × List Call → Trace
    with_pool cfg (err e, calls) = after calls (fatal "failed open database" e)
    with_pool cfg (ok x, calls) = after calls (
        deferring (pool_closed ∷ []) (
          after (logged info "database connection established" none ∷ [])
            (with_redis cfg (new_redis cfg.cache))))

    abbrev with_config : Result Config → Trace
    with_config (err e) = fatal "failed config loading" e
    with_config (ok cfg) = with_pool cfg (open_pool cfg.database_url)

    -- `main` of cmd/server.
    unfoldable pub server : (String → Option String) → (String → Result Bytes) → Trace
    unfolding open_pool new_redis serve
    server env decode_base64 = elim new_logger [
      | some e ↦ (panicked e, [])
      | none ↦ with_config (load env decode_base64)
    ]

    module _ {W : Type 0} (processor : Config → Aead → Processor W) (signals : List Signal) where
      -- From `processor.Run` on, which returns no error.
      abbrev work : Config → Result Aead → W → Trace × W
      work cfg (err e) w = (fatal "failed creation verification token cipher" e, w)
      work cfg (ok aead) w = (
        (returned, logged info "worker started" none ∷ logged info "worker stopped" none ∷ []),
        (run (processor cfg aead) signals w).1,
      )

      abbrev worker_with_pool : Config → Result (Unit {0}) × List Call → W → Trace × W
      worker_with_pool cfg (err e, calls) w = (after calls (fatal "failed open database" e), w)
      worker_with_pool cfg (ok x, calls) w =
          let (trace, w') = work cfg (new_cipher new_aes new_gcm cfg.encryption_key) w in
          (after calls (deferring (pool_closed ∷ []) trace), w')

      abbrev worker_with_config : Result Config → W → Trace × W
      worker_with_config (err e) w = (fatal "failed config loading" e, w)
      worker_with_config (ok cfg) w =
          let (trace, w') = worker_with_pool cfg (open_pool cfg.database_url) w in
          (after (signals_on ∷ []) (deferring (signals_off ∷ []) trace), w')

      -- `main` of cmd/worker: what it does, beside the world that the processor works on.
      unfoldable pub worker : (String → Option String) → (String → Result Bytes) → W → Trace × W
      unfolding open_pool run
      worker env decode_base64 w = elim new_logger [
        | some e ↦ ((panicked e, []), w)
        | none ↦
            let (trace, w') = worker_with_config (load env decode_base64) w in
            (deferring (logger_synced ∷ []) trace, w')
      ]
