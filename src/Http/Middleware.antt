-- ===== src/Http/Middleware.antt =====
-- middleware.go: recovery from panics, the request log, and authentication.
use Prim.Native.Char.{code}
use Prim.Native.String.{◌++◌ as text_append}
use frimo_messenger.Base.{
  ℕ, ◌+◌, ◌≡◌, refl, ap, ◌∙◌, String, bytes_eq, bytes_eq_iff, arith, ◌&&◌, ◌||◌, Option, none, some,
  List, [], ◌∷◌, ◌++◌, str_eq, leb, if◌then◌else◌,
}
use frimo_messenger.Errors.{Result, ok, err, is, access_token_invalid, session_inactive}
use frimo_messenger.Domain.{Identity}
use frimo_messenger.Service.Validation.{is_space}
use frimo_messenger.Http.{
  Request, Op, content_type, write_header, write, error_response, abort_handler, other_panic, Exit,
  returned, panicked, Served, Handler, Services, internal_error, authentication_error,
}
use frimo_messenger.Http.Writer.{
  apply_ops, fresh_writer, statuses, bodies, chosen, status_or, as_list, apply_ops-fresh,
  bodies-append,
}

-- What the recovery makes of the end of the inner handler; it panics again with `ErrAbortHandler`.
abbrev recovered : {W : Type 0} → List Op → W → Exit → Served W
recovered ops w returned = record { ops = ops; exit = returned; world = w }
recovered ops w (panicked abort_handler) = record {
  ops = ops;
  exit = panicked abort_handler;
  world = w;
}
recovered ops w (panicked (other_panic m)) = record {
  ops = ops ++ internal_error;
  exit = returned;
  world = w;
}

-- The status in the log line, which is not reached after a panic.
abbrev logged_status : Exit → ℕ → Option ℕ
logged_status returned status = some status
logged_status (panicked p) status = none

-- A character that differs from it in case only, for the letters A to Z.
abbrev folded : ℕ → ℕ
folded c = if leb 65 c && leb c 90 then c + 32 else c

abbrev fold_codes : String → List ℕ
fold_codes String.[] = []
fold_codes (String.◌∷◌ c s) = folded (code c) ∷ fold_codes s

-- `strings.Fields`, with the field that is being read.
unfoldable pub fields_from : String → String → List String
fields_from field String.[] = if str_eq field "" then [] else field ∷ []
fields_from field (String.◌∷◌ c s) =
    let closed = fields_from "" s in
    let longer = fields_from (text_append field (String.◌∷◌ c String.[])) s in
    if is_space (code c) then (if str_eq field "" then closed else field ∷ closed) else longer

-- The access token of an `Authorization` header of two fields, of which the first is "Bearer" in any
-- case.
abbrev token_of : List String → Option String
token_of (scheme ∷ raw_access_token ∷ []) =
    if bytes_eq (fold_codes scheme) (fold_codes "Bearer") then some raw_access_token else none
token_of _ = none

unfoldable pub bearer_token : String → Option String
unfolding fields_from
bearer_token authorization = token_of (fields_from "" authorization)

-- The header is two fields, a scheme that is "bearer" in any case and the token.
pub record IsBearer (authorization token : String) : Type 0 where
  pub scheme : String
  pub fields : fields_from "" authorization ≡ scheme ∷ token ∷ []
  pub bearer : fold_codes scheme ≡ b'b' ∷ b'e' ∷ b'a' ∷ b'r' ∷ b'e' ∷ b'r' ∷ []

token_of-ok :
    (fields : List String) (token : String)
    → token_of fields ≡ some token
    → (scheme : String) × (fields ≡ scheme ∷ token ∷ [])
      × (fold_codes scheme ≡ b'b' ∷ b'e' ∷ b'a' ∷ b'r' ∷ b'e' ∷ b'r' ∷ [])
token_of-ok [] token h = absurd (ground (arith, h))
token_of-ok (a ∷ []) token h = absurd (ground (arith, h))
token_of-ok (a ∷ b ∷ c ∷ l) token h = absurd (ground (arith, h))
token_of-ok (a ∷ b ∷ []) token h = (
  a,
  ground (arith, h),
  (bytes_eq_iff (fold_codes a) (fold_codes "Bearer")).0 (ground (arith, h)),
)

pub bearer_token-IsBearer :
    (authorization token : String)
    → bearer_token authorization ≡ some token
    → IsBearer authorization token
unfolding bearer_token
bearer_token-IsBearer authorization token h =
    let (scheme, fields, bearer) = token_of-ok (fields_from "" authorization) token h in
    record { scheme = scheme; fields = fields; bearer = bearer }

chosen-recovered :
    (ops : List Op) → chosen (ops ++ internal_error) ≡ some (status_or 500 (chosen ops))
unfolding chosen
chosen-recovered [] = refl
chosen-recovered (content_type t ∷ ops) = chosen-recovered ops
chosen-recovered (write_header s ∷ ops) = refl
chosen-recovered (write b ∷ ops) = refl

module _ {W : Type 0} where
  -- `RecoveryMiddleware`.
  abbrev pub recovery : Handler W → Handler W
  recovery next r identity w = let s = next r identity w in recovered s.ops s.world s.exit

  abbrev written : Served W → Served W × Option ℕ
  written s =
      let writer = apply_ops s.ops fresh_writer in
      (record s { ops = writer.inner }, logged_status s.exit writer.status)

  -- `RequestLoggingMiddleware`: what is served, and the status of its log line.
  unfoldable pub request_logging : Handler W → Request → Option Identity → W → Served W × Option ℕ
  request_logging next r identity w = written (next r identity w)

  abbrev served : List Op → W → Served W
  served ops w = record { ops = ops; exit = returned; world = w }

  abbrev authenticated : Handler W → Request → Result Identity × W → Served W
  authenticated next r (ok identity, w) = next r (some identity) w
  authenticated next r (err e, w) =
      if is e access_token_invalid || is e session_inactive
      then served authentication_error w
      else served internal_error w

  abbrev with_token : Services W → Handler W → Request → Option String → W → Served W
  with_token services next r none w = served authentication_error w
  with_token services next r (some token) w = authenticated next r (services.authenticate token w)

  -- `AuthenticationMiddleware`.
  unfoldable pub authentication : Services W → Handler W → Handler W
  unfolding bearer_token
  authentication services next r identity w =
      with_token services next r (bearer_token r.authorization) w

  -- What reaches the client and the log, by what the inner handler did.
  abbrev pub IsAnswered : Served W → Served W × Option ℕ → Type 0
  IsAnswered s (out, logged) = elim s.exit [
    | returned ↦
        (out.exit ≡ returned)
        × (logged ≡ some (status_or 200 (chosen s.ops)))
        × (statuses out.ops ≡ as_list (chosen s.ops))
        × (bodies out.ops ≡ bodies s.ops)
    | panicked abort_handler ↦ (out.exit ≡ panicked abort_handler) × (logged ≡ none)
    | panicked (other_panic m) ↦
        (out.exit ≡ returned)
        × (logged ≡ some (status_or 500 (chosen s.ops)))
        × (statuses out.ops ≡ status_or 500 (chosen s.ops) ∷ [])
        × (bodies out.ops
            ≡ bodies s.ops ++ (error_response "internal_error" "internal server error" ∷ []))
  ]

  answered :
      (ops : List Op) (world : W) (exit : Exit)
      → IsAnswered
          (record { ops = ops; exit = exit; world = world })
          (written (recovered ops world exit))
  unfolding bodies
  answered ops world returned = let (a, b, c) = apply_ops-fresh ops in (refl, ap some a, b, c)
  answered ops world (panicked abort_handler) = (refl, refl)
  answered ops world (panicked (other_panic m)) =
      let (a, b, c) = apply_ops-fresh (ops ++ internal_error) in
      (
        refl,
        ap some a ∙ rw (chosen-recovered ops) refl,
        b ∙ rw (chosen-recovered ops) refl,
        c ∙ bodies-append ops internal_error,
      )

  -- A handler that returns: its client gets at most one status, the one that it chose first, and every
  -- body, and the log line has that status, or 200 if none was chosen. A handler that panics with
  -- anything but `http.ErrAbortHandler`: the client also gets the body of an internal error, under
  -- status 500 if none was chosen before, and the log line has the status that is sent. A handler
  -- that panics with `http.ErrAbortHandler`: the panic goes on, and there is no log line.
  pub handler-IsAnswered :
      (next : Handler W) (r : Request) (identity : Option Identity) (w : W)
      → IsAnswered (next r identity w) (request_logging (recovery next) r identity w)
  unfolding request_logging
  handler-IsAnswered next r identity w = let s = next r identity w in answered s.ops s.world s.exit
