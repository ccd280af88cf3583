-- ===== src/Dispatcher.antt =====
-- internal/handler/event/dispatcher.go: the handler of the queue's events, which sends the mail of a
-- requested verification. What it calls acts on a world `W`.
pub mod Delivery
pub mod Worker
use Prim.Native.String.{◌++◌}
use frimo_messenger.Base.{String, Bool, Bytes, str_eq, not, ltb, ◌==◌, if◌then◌else◌}
use frimo_messenger.Errors.{
  Error, sentinel, plain, join, wrap, is, Result, ok, err, non_retryable, delivery_inactive,
}
use frimo_messenger.Domain.{
  Uuid, Time, Event, Payload, requested, empty_object, mistyped, email_verification_requested_type,
  DeliveryData,
}

-- `email.VerificationMessage`.
pub record VerificationMessage : Type 0 where
  pub recipient : String
  pub verification_url : String

-- `Dispatcher`. `base_url` has no slash at its end, `decrypt` gets the identifier whose bytes bind
-- the ciphertext, `query_escape` is `url.QueryEscape` and `quoted` is the `%q` of fmt.
pub record Dispatcher (W : Type 0) : Type 0 where
  pub get_for_delivery : Uuid → W → Result DeliveryData × W
  pub send_verification : VerificationMessage → W → Result (Unit {0}) × W
  pub decrypt : Bytes → Uuid → Result String
  pub now : W → Time × W
  pub base_url : String
  pub query_escape : String → String
  pub quoted : String → String

abbrev refused : Error → Result (Unit {0})
refused e = err (join (sentinel non_retryable) e)

module _ {W : Type 0} (d : Dispatcher W) where
  abbrev pub message_of : String → String → VerificationMessage
  message_of recipient raw_token = record {
    recipient = recipient;
    verification_url = d.base_url ++ ("/auth/verify-email?token=" ++ d.query_escape raw_token);
  }

  abbrev pub sent : Result (Unit {0}) × W → Result (Unit {0}) × W
  sent (ok x, w) = (ok x, w)
  sent (err e, w) = (err (wrap "failed to send verification email" e), w)

  abbrev pub send_token : String → Result String → W → Result (Unit {0}) × W
  send_token recipient (ok raw) w = sent (d.send_verification (message_of recipient raw) w)
  send_token recipient (err e) w = (err (wrap "failed to decrypt verification token" e), w)

  -- What becomes of the answer of `GetForDelivery`.
  abbrev pub deliver : String → Result DeliveryData × W → Result (Unit {0}) × W
  deliver recipient (ok delivery, w) =
      let (t, w1) = d.now w in
      if not (ltb t delivery.expires_at)
      then (ok tt, w1)
      else send_token recipient (d.decrypt delivery.token_ciphertext delivery.id) w1
  deliver recipient (err e, w) =
      if is e delivery_inactive
      then (ok tt, w)
      else (err (wrap "failed to get verification delivery data" e), w)

  -- A payload with no fields leaves the zero identifier.
  unfoldable pub handle_email_verification_requested : Payload → W → Result (Unit {0}) × W
  handle_email_verification_requested (mistyped m) w = (refused (plain m), w)
  handle_email_verification_requested empty_object w =
      (refused (plain "verification ID is empty"), w)
  handle_email_verification_requested (requested verification_id recipient) w =
      if verification_id == 0
      then (refused (plain "verification ID is empty"), w)
      else if str_eq recipient ""
      then (refused (plain "verification recipient is empty"), w)
      else deliver recipient (d.get_for_delivery verification_id w)

  unfoldable pub handle : Event → W → Result (Unit {0}) × W
  unfolding handle_email_verification_requested
  handle event w =
      if str_eq event.event_type email_verification_requested_type
      then handle_email_verification_requested event.payload w
      else (refused (plain ("unsupported event type " ++ d.quoted event.event_type)), w)
