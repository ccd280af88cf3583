-- ===== src/Http/Routes.antt =====
-- api.go: the routes, and the middlewares around them.
use frimo_messenger.Base.{ℕ, String, Bool, ◌&&◌, ◌||◌, Option, none, str_eq, if◌then◌else◌}
use frimo_messenger.Http.{Request, Served, Handler, Services}
use frimo_messenger.Http.Middleware.{recovery, request_logging, authentication}
use frimo_messenger.Http.Requests.{Decoders}
use frimo_messenger.Http.Handlers.{
  register_user, login, refresh, verify_email, resend_verification_token, me, health,
}

module _ {W : Type 0} (services : Services W) (decoders : Decoders) (unmatched : Handler W) where
  -- A pattern with GET also matches HEAD.
  abbrev is_get : Request → String → Bool
  is_get r path = (str_eq r.method "GET" || str_eq r.method "HEAD") && str_eq r.path path

  abbrev is_post : Request → String → Bool
  is_post r path = str_eq r.method "POST" && str_eq r.path path

  -- `registerRoutes`. `unmatched` is what the ServeMux answers to any other request.
  unfoldable pub mux : Handler W
  unfolding register_user login refresh verify_email resend_verification_token me health
      authentication
  mux r =
      if is_get r "/health"
      then health services decoders r
      else if is_post r "/auth/register"
      then register_user services decoders r
      else if is_get r "/auth/verify-email"
      then verify_email services decoders r
      else if is_post r "/auth/resend"
      then resend_verification_token services decoders r
      else if is_post r "/auth/login"
      then login services decoders r
      else if is_get r "/auth/refresh"
      then refresh services decoders r
      else if is_get r "/me"
      then authentication services (me services decoders) r
      else unmatched r

  -- `API.Handler`: what is served to a request, and the status of its log line.
  unfoldable pub handler : Request → W → Served W × Option ℕ
  unfolding mux request_logging
  handler r w = request_logging (recovery mux) r none w
