-- ===== src/Http/Handlers/Guard.antt =====
-- Who gets the profile: `/me` behind AuthenticationMiddleware, over the authentication service.
use frimo_messenger.Base.{
  true, false, String, ◌≡◌, ◌⊎◌, refl, ap, sym, ◌∙◌, none, some, List, Option-cases, Bool-cases,
  inl, inr, ◌||◌, arith,
}
use frimo_messenger.Errors.{
  Error, Result, ok, err, is, access_token_invalid, session_inactive, profile_not_found,
}
use frimo_messenger.Domain.{Uuid, User, Identity}
use frimo_messenger.Service.Ports.{Ports, Call}
use frimo_messenger.Service.Flows.{authenticate}
use frimo_messenger.Service.Sessions.{IsLetIn, authenticate-ok}
use frimo_messenger.Http.{
  Op, Request, Handler, Services, returned, me_response, write_json, internal_error,
  authentication_error,
}
use frimo_messenger.Http.Requests.{Decoders}
use frimo_messenger.Http.Responses.{me_answer}
use frimo_messenger.Http.Middleware.{
  IsBearer, bearer_token, bearer_token-IsBearer, authentication, request_logging,
}
use frimo_messenger.Http.Writer.{apply_op, apply_ops, chosen}
use frimo_messenger.Http.Handlers.{me}
use frimo_messenger.Http.Handlers.Answers.{auth_services}
use frimo_messenger.Http.Routes

-- What the server answers to `/me`, by what the header, the service and the profile are.
module _ {W : Type 0} (services : Services W) (decoders : Decoders) (unmatched : Handler W)
    (r : Request) (w : W) where
  pub without_token :
      bearer_token r.authorization ≡ none
      → Routes.handler services decoders unmatched (record r { method = "GET"; path = "/me" }) w
        ≡ (record { ops = authentication_error; exit = returned; world = w }, some 401)
  unfolding Routes.handler Routes.mux authentication request_logging apply_ops apply_op
  without_token e = rw e refl

  module _ (token : String) (bearer : bearer_token r.authorization ≡ some token) where
    pub refused_401 :
        (e : Error) (w1 : W)
        → services.authenticate token w ≡ (err e, w1)
        → (is e access_token_invalid || is e session_inactive) ≡ true
        → Routes.handler services decoders unmatched (record r { method = "GET"; path = "/me" }) w
          ≡ (record { ops = authentication_error; exit = returned; world = w1 }, some 401)
    unfolding Routes.handler Routes.mux authentication request_logging apply_ops apply_op
    refused_401 e w1 h t = rw (bearer, h, t) refl

    pub refused_500 :
        (e : Error) (w1 : W)
        → services.authenticate token w ≡ (err e, w1)
        → (is e access_token_invalid || is e session_inactive) ≡ false
        → Routes.handler services decoders unmatched (record r { method = "GET"; path = "/me" }) w
          ≡ (record { ops = internal_error; exit = returned; world = w1 }, some 500)
    unfolding Routes.handler Routes.mux authentication request_logging apply_ops apply_op
    refused_500 e w1 h f = rw (bearer, h, f) refl

    pub missing_401 :
        (i : Identity) (w1 w2 : W) (e : Error)
        → services.authenticate token w ≡ (ok i, w1)
        → services.get_user_by_id i.user_id w1 ≡ (err e, w2)
        → is e profile_not_found ≡ true
        → Routes.handler services decoders unmatched (record r { method = "GET"; path = "/me" }) w
          ≡ (record { ops = authentication_error; exit = returned; world = w2 }, some 401)
    unfolding Routes.handler Routes.mux authentication me me_answer request_logging apply_ops
        apply_op
    missing_401 i w1 w2 e h missing t = rw (bearer, h, missing, t) refl

    pub missing_500 :
        (i : Identity) (w1 w2 : W) (e : Error)
        → services.authenticate token w ≡ (ok i, w1)
        → services.get_user_by_id i.user_id w1 ≡ (err e, w2)
        → is e profile_not_found ≡ false
        → Routes.handler services decoders unmatched (record r { method = "GET"; path = "/me" }) w
          ≡ (record { ops = internal_error; exit = returned; world = w2 }, some 500)
    unfolding Routes.handler Routes.mux authentication me me_answer request_logging apply_ops
        apply_op
    missing_500 i w1 w2 e h missing f = rw (bearer, h, missing, f) refl

    pub shown_200 :
        (i : Identity) (w1 w2 : W) (u : User)
        → services.authenticate token w ≡ (ok i, w1)
        → services.get_user_by_id i.user_id w1 ≡ (ok u, w2)
        → Routes.handler services decoders unmatched (record r { method = "GET"; path = "/me" }) w
          ≡ (
            record {
              ops = write_json 200 (me_response u.id u.email u.created_at);
              exit = returned;
              world = w2;
            },
            some 200,
          )
    unfolding Routes.handler Routes.mux authentication me me_answer request_logging apply_ops
        apply_op
    shown_200 i w1 w2 u h found = rw (bearer, h, found) refl

module _ {W : Type 0} (p : Ports W) (get_user_by_id : Uuid → Call W User) (decoders : Decoders)
    (unmatched : Handler W) (r : Request) (w : W) where
  -- What reaches a client that asks for `/me`.
  abbrev pub profile : List Op
  profile =
      (Routes.handler (auth_services p get_user_by_id) decoders unmatched
        (record r { method = "GET"; path = "/me" }) w).0.ops

  -- The token in the header, what lets it in, and the user that is shown.
  pub record IsShown : Type 0 where
    pub token : String
    pub bearer : IsBearer r.authorization token
    pub identity : Identity
    pub after_token : W
    pub let_in : IsLetIn p token w identity after_token
    pub after : W
    pub authenticates : authenticate p token w ≡ (ok identity, after)
    pub user : User
    pub found : (get_user_by_id identity.user_id after).0 ≡ ok user
    pub shows : profile ≡ write_json 200 (me_response user.id user.email user.created_at)

  authentication_differs : chosen authentication_error ≡ some 200 → ⊥
  unfolding chosen
  authentication_differs h = ground (arith, h)

  internal_differs : chosen internal_error ≡ some 200 → ⊥
  unfolding chosen
  internal_differs h = ground (arith, h)

  module _ (token : String) (bearer : bearer_token r.authorization ≡ some token) where
    refused_by :
        (e : Error) (w1 : W)
        → authenticate p token w ≡ (err e, w1)
        → (profile ≡ authentication_error) ⊎ (profile ≡ internal_error)
    refused_by e w1 h = elim (Bool-cases (is e access_token_invalid || is e session_inactive)) [
      | inl t ↦ inl (
          ap (λ x. x.0.ops)
            (refused_401 (auth_services p get_user_by_id) decoders unmatched r w token bearer e w1 h
              t))
      | inr f ↦ inr (
          ap (λ x. x.0.ops)
            (refused_500 (auth_services p get_user_by_id) decoders unmatched r w token bearer e w1 h
              f))
    ]

    not_found :
        (i : Identity) (w1 w2 : W) (e : Error)
        → authenticate p token w ≡ (ok i, w1)
        → get_user_by_id i.user_id w1 ≡ (err e, w2)
        → (profile ≡ authentication_error) ⊎ (profile ≡ internal_error)
    not_found i w1 w2 e h missing = elim (Bool-cases (is e profile_not_found)) [
      | inl t ↦ inl (
          ap (λ x. x.0.ops)
            (missing_401 (auth_services p get_user_by_id) decoders unmatched r w token bearer i w1
              w2 e h missing t))
      | inr f ↦ inr (
          ap (λ x. x.0.ops)
            (missing_500 (auth_services p get_user_by_id) decoders unmatched r w token bearer i w1
              w2 e h missing f))
    ]

    refused_differs :
        (profile ≡ authentication_error) ⊎ (profile ≡ internal_error)
        → chosen profile ≡ some 200
        → ⊥
    refused_differs (inl e) h = authentication_differs (sym (ap chosen e) ∙ h)
    refused_differs (inr e) h = internal_differs (sym (ap chosen e) ∙ h)

    served_user :
        (i : Identity) (w1 : W)
        → authenticate p token w ≡ (ok i, w1)
        → chosen profile ≡ some 200
        → (x : Result User × W) → get_user_by_id i.user_id w1 ≡ x
        → IsShown
    served_user i w1 h status (err e, w2) missing =
        absurd (refused_differs (not_found i w1 w2 e h missing) status)
    served_user i w1 h status (ok u, w2) found =
        let (w0, let_in) = authenticate-ok p token w h in
        record {
          token = token;
          bearer = bearer_token-IsBearer r.authorization token bearer;
          identity = i;
          after_token = w0;
          let_in = let_in;
          after = w1;
          authenticates = h;
          user = u;
          found = ap (λ x. x.0) found;
          shows =
              ap (λ x. x.0.ops)
                (shown_200 (auth_services p get_user_by_id) decoders unmatched r w token bearer i w1
                  w2 u h found);
        }

    served_identity :
        chosen profile ≡ some 200 → (x : Result Identity × W) → authenticate p token w ≡ x → IsShown
    served_identity status (err e, w1) h = absurd (refused_differs (refused_by e w1 h) status)
    served_identity status (ok i, w1) h =
        served_user i w1 h status (get_user_by_id i.user_id w1) refl

  -- `GET /me` is answered by status 200 only if the header has a token under the scheme "Bearer", the
  -- cache of the access tokens gives an identity for it, its session is active by the session cache, or
  -- by its row where that cache gave an error, and the user of that identity is found, who is then
  -- the one that is shown.
  pub me_guarded : chosen profile ≡ some 200 → IsShown
  me_guarded status = elim (Option-cases (bearer_token r.authorization)) [
    | inl e ↦ absurd (
        authentication_differs (
          sym (
            ap (λ x. chosen x.0.ops)
              (without_token (auth_services p get_user_by_id) decoders unmatched r w e))
          ∙ status))
    | inr (token, e) ↦ served_identity token e status (authenticate p token w) refl
  ]
