-- ===== src/Logs.antt =====
-- internal/observability/auth.go and internal/service/email/log_sender.go: what the service's observer
-- and the worker's mail sender write into the log. The logger is a parameter, on a state of its own.
use frimo_messenger.Base.{String, List, [], ◌∷◌}
use frimo_messenger.Errors.{Error, Result, ok}
use frimo_messenger.Service.Ports.{
  Observation, refresh_result_store_failed, access_token_store_failed, session_cache_update_failed,
  session_cache_read_failed,
}
use frimo_messenger.Dispatcher.{VerificationMessage}

-- The methods of `AuthObserver`; `log_error` is `logger.Error` with its message and error.
abbrev pub observe : {S : Type 0} → (String → Error → S → S) → Observation → S → S
observe log_error (refresh_result_store_failed e) s = log_error "failed to store refresh result" e s
observe log_error (access_token_store_failed e) s = log_error "failed to store access token" e s
observe log_error (session_cache_update_failed e) s = log_error "failed to update session cache" e s
observe log_error (session_cache_read_failed e) s = log_error "failed to read session cache" e s

-- `SendVerification` of `LogSender`; `log_warn` is `logger.Warn` with its message and its fields.
abbrev pub send_verification :
    {S : Type 0}
    → (String → List (String × String) → S → S)
    → VerificationMessage
    → S
    → Result (Unit {0}) × S
send_verification log_warn message s = (
  ok tt,
  log_warn "development email verification message"
      (("recipient", message.recipient) ∷ ("verification_url", message.verification_url) ∷ []) s,
)
