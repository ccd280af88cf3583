-- ===== src/Examples/Http.antt =====
-- The API over the small service.
use frimo_messenger.Base.{◌≡◌, ◌≢◌, refl, true, bytes_eq, String, some, none, [], ◌∷◌}
use frimo_messenger.Errors.{ok, err, plain}
use frimo_messenger.Domain.{Uuid, User}
use frimo_messenger.Service.Ports.{Call}
use frimo_messenger.Http.{
  Request, write_header, write_error, returned, other_panic, panicked, Handler, Services,
  bad_request, unauthorized,
}
use frimo_messenger.Http.Handlers
use frimo_messenger.Http.Requests.{LoginRequest, Decoders}
use frimo_messenger.Http.Handlers.{me, resend_verification_token}
use frimo_messenger.Http.Handlers.Answers.{
  auth_services, login_tells_no_users, refresh_never_validation_error,
}
use frimo_messenger.Http.Middleware.{
  recovery, request_logging, authentication, IsAnswered, handler-IsAnswered, bearer_token,
  fields_from,
}
use frimo_messenger.Http.Responses.{me_answer}
use frimo_messenger.Http.Writer.{apply_op, apply_ops, chosen}
use frimo_messenger.Http.Routes.{handler, mux}
use frimo_messenger.Http.Handlers.Guard.{profile, IsShown, me_guarded}
use frimo_messenger.Service.Flows.{authenticate, authenticate_uncached}
use frimo_messenger.Service.Validation.{is_space}
use frimo_messenger.Examples.Service.{World, ports, start, valid_inputs, ann_row, set_to}

abbrev find_ann : Uuid → Call World User
find_ann id w = (ok (record { id = id; email = "ann@example.org"; created_at = 1 }), w)

abbrev services : Services World
services = auth_services ports find_ann

abbrev another_login : LoginRequest
another_login = record {
  email = " ann@example.org ";
  password = "another password";
  device_name = "laptop";
}

-- Every body is the login with another password, and a refresh without a token.
abbrev pub decoders : Decoders
decoders = record {
  unmarshal_register = λ s. err (plain "unexpected field");
  unmarshal_login = λ s. ok another_login;
  unmarshal_refresh = λ s. ok (record { operation_id = 1; refresh_token = "" });
  unmarshal_resend = λ s. ok "ann@example.org";
  parse_addr = λ s. none;
  parse_addr_port = λ s. some "192.0.2.1";
}

abbrev with_bearer : String → Request
with_bearer authorization = record {
  method = "GET";
  path = "/me";
  authorization = authorization;
  x_real_ip = "";
  remote_addr = "192.0.2.1:40000";
  token_parameter = "";
  body = "";
}

login_tells_no_users_example :
    Handlers.login services decoders (with_bearer "") none start ≡ record {
      ops = write_error unauthorized "invalid_credentials" "invalid credentials";
      exit = returned;
      world = start;
    }
login_tells_no_users_example =
    login_tells_no_users ports find_ann decoders (with_bearer "") none another_login (ok ann_row)
      start start refl valid_inputs.0 valid_inputs.1 valid_inputs.2 refl

refresh_never_validation_error_example :
    (Handlers.refresh services decoders (with_bearer "") none start).ops
    ≢ write_error bad_request "validation_error" "request validation failed"
refresh_never_validation_error_example =
    refresh_never_validation_error services decoders (with_bearer "") none start

-- A handler that panics after it has chosen a status.
abbrev panicking : Handler World
panicking r identity w = record {
  ops = write_header 202 ∷ [];
  exit = panicked (other_panic "nil map");
  world = w;
}

handler-IsAnswered_example :
    IsAnswered
      (panicking (with_bearer "") none start)
      (request_logging (recovery panicking) (with_bearer "") none start)
handler-IsAnswered_example = handler-IsAnswered panicking (with_bearer "") none start

abbrev asks : Request
asks = with_bearer " bEARER  access "

abbrev unmatched : Handler World
unmatched r identity w = record { ops = write_header 404 ∷ []; exit = returned; world = w }

is_shown : chosen (profile ports find_ann decoders unmatched asks (set_to true)) ≡ some 200
unfolding handler mux authentication bearer_token fields_from me me_answer request_logging apply_ops
    apply_op chosen authenticate authenticate_uncached is_space bytes_eq
is_shown = refl

me_guarded_example : IsShown ports find_ann decoders unmatched asks (set_to true)
me_guarded_example = me_guarded ports find_ann decoders unmatched asks (set_to true) is_shown
