-- ===== src/Programs/Releases.antt =====
-- What the programs hold when they end.
use frimo_messenger.Base.{
  ◌≡◌, ◌⊎◌, refl, Bytes, String, Bool, true, false, Option, none, some, List, [], ◌∷◌, ◌==◌, exists,
  arith, Option-cases, inl, inr, is_null,
}
use frimo_messenger.Errors.{Result-cases, Result, ok, err}
use frimo_messenger.Domain.{Duration}
use frimo_messenger.Config.{Config, load}
use frimo_messenger.Security.Cipher.{Aead, new_cipher}
use frimo_messenger.Processor.{Processor, Signal, run}
use frimo_messenger.Programs.{
  Call, pool_created, pool_closed, redis_created, redis_closed, signals_on, signals_off, listening,
  fatal_level, shut_down, server_closed, logger_synced, logged, panicked, exited, returned, Trace,
  Libraries, open_pool, new_redis, stop, serve, server, worker,
}

pub data Resource : Type 0 where
  pool redis notifications http_server : Resource

-- What is held after a call, the last taken first; nothing, where a call gives back something that
-- is not the last that was taken.
unfoldable pub held_after : Call → List Resource → Option (List Resource)
held_after pool_created held = some (pool ∷ held)
held_after pool_closed (pool ∷ held) = some held
held_after (redis_created cfg) held = some (redis ∷ held)
held_after redis_closed (redis ∷ held) = some held
held_after signals_on held = some (notifications ∷ held)
held_after signals_off (notifications ∷ held) = some held
held_after (listening cfg) held = some (http_server ∷ held)
held_after (shut_down limit true) (http_server ∷ held) = some held
held_after (shut_down limit false) (http_server ∷ held) = some (http_server ∷ held)
held_after server_closed (http_server ∷ held) = some held
held_after logger_synced held = some held
held_after (logged level m e) held = some held
held_after call held = none

unfoldable pub holds : List Call → List Resource → Option (List Resource)
unfolding held_after
holds [] held = some held
holds (call ∷ calls) held = elim (held_after call held) [
  | none ↦ none
  | some held' ↦ holds calls held'
]

unfoldable pub last_call : List Call → Option Call
last_call [] = none
last_call (call ∷ []) = some call
last_call (call ∷ next ∷ calls) = last_call (next ∷ calls)

-- A program that returns has given back all that it took, in the reverse order, and `P` holds of its
-- calls. One that exits by `logger.Fatal` has given nothing back out of order, and its last call is
-- the line of that error. One that panics has made no call.
abbrev pub EndsClean : (List Call → Type 0) → Trace → Type 0
EndsClean P (returned, calls) = (holds calls [] ≡ some []) × P calls
EndsClean P (exited m e, calls) =
    (is_null (holds calls []) ≡ false) × (last_call calls ≡ some (logged fatal_level m (some e)))
EndsClean P (panicked e, calls) = calls ≡ []

abbrev pub not_returned : Trace → Bool
not_returned (returned, calls) = false
not_returned (exited m e, calls) = true
not_returned (panicked e, calls) = true

abbrev pub is_shutdown : Duration → Call → Bool
is_shutdown limit (shut_down t done) = t == limit
is_shutdown limit call = false

-- The server was shut down with the time limit of the configuration.
abbrev pub ShutsDown : Result Config → List Call → Type 0
ShutsDown (err e) calls = ⊥
ShutsDown (ok cfg) calls = exists (is_shutdown cfg.http_shutdown_timeout) calls ≡ true

module _ (l : Libraries) {Block : Type 0} (new_aes : Bytes → Result Block)
    (new_gcm : Block → Result Aead) (env : String → Option String)
    (decode_base64 : String → Result Bytes) where
  -- Whatever the libraries answer, the environment is and the select receives: if `main` of
  -- cmd/server returns, it has shut the server down with the configured limit, closed it if that
  -- failed, and given back the signals, Redis and the pool, each thing before what was taken before
  -- it; if it exits by `logger.Fatal`, that is its last call, and what it gave back until then, such
  -- as a pool that does not answer, was in that order too; if it panics, it has taken nothing.
  pub server_ends :
      EndsClean (ShutsDown (load env decode_base64)) (server l new_aes new_gcm env decode_base64)
  unfolding server open_pool new_redis serve stop holds held_after last_call exists
  server_ends = ground arith

  module _ {W : Type 0} (processor : Config → Aead → Processor W) (signals : List Signal)
      (w : W) where
    abbrev pub ran : Trace × W
    ran = worker l new_aes new_gcm processor signals env decode_base64 w

    -- The worker returned from its loop, with the cipher of the configured key.
    abbrev pub HasRun : Type 0
    HasRun =
        (cfg : Config) × (aead : Aead) × (load env decode_base64 ≡ ok cfg)
        × (new_cipher new_aes new_gcm cfg.encryption_key ≡ ok aead)
        × (ran.0.0 ≡ returned)
        × (ran.1 ≡ (run (processor cfg aead) signals w).1)

    pub worker_runs : HasRun ⊎ ((not_returned ran.0 ≡ true) × (ran.1 ≡ w))
    unfolding worker open_pool
    worker_runs = elim (Option-cases l.new_logger) [
      | inr (e, no_logger) ↦ rw no_logger (inr (refl, refl))
      | inl logger ↦ elim (Result-cases (load env decode_base64)) [
        | inr (e, unset) ↦ rw (logger, unset) (inr (refl, refl))
        | inl (cfg, set) ↦ elim (Result-cases (new_cipher new_aes new_gcm cfg.encryption_key)) [
          | inr (e, no_cipher) ↦
              inr (ground (arith, logger, set, no_cipher), ground (arith, logger, set, no_cipher))
          | inl (aead, cipher) ↦ elim (Result-cases (open_pool l cfg.database_url).0) [
            | inr (e, closed) ↦ inr (
              ground (arith, logger, set, cipher, closed),
              ground (arith, logger, set, cipher, closed),
            )
            | inl (u, opened) ↦ inl (
              cfg,
              aead,
              set,
              cipher,
              ground (arith, logger, set, cipher, opened),
              ground (arith, logger, set, cipher, opened),
            )
          ]
        ]
      ]
    ]

    -- Whatever the libraries answer and the environment is: if `main` of cmd/worker returns, the loop
    -- has run with the cipher of the configured key, and the pool and then the signals were given
    -- back; if it does not return, the loop has not run, and `main` has exited by `logger.Fatal`, its
    -- last call, with nothing given back out of order, or panicked with nothing taken.
    pub worker_ends :
        EndsClean (λ calls. Unit {0}) ran.0 × (HasRun ⊎ ((not_returned ran.0 ≡ true) × (ran.1 ≡ w)))
    unfolding worker open_pool holds held_after last_call
    worker_ends = (ground arith, worker_runs)
