-- ===== src/Platform/Escalation.antt =====
-- A user who updates his own account, through the gateway, the users service and the auth service.
use nestjs_microservice_plat.Prelude.{ℕ, ◌≡◌, refl, subst, ◌∙◌, String, [], ◌∷◌, some, arith}
use nestjs_microservice_plat.Js.{Value, str, strs, Object, put, empty, or_text, as_text}
use nestjs_microservice_plat.Action.{ok, bind-pure}
use nestjs_microservice_plat.Constants.CommonRole.{role_text, admin}
use nestjs_microservice_plat.Database.{Model, ModelLaws, by_id, fields, no_options}
use nestjs_microservice_plat.Database.Repository as Repository
use nestjs_microservice_plat.Database.RepositoryLaws.{update_by_id-ok}
use nestjs_microservice_plat.Guards.{admit}
use nestjs_microservice_plat.Auth.{Bcrypt, Jwt, Emit}
use nestjs_microservice_plat.Auth as Auth
use nestjs_microservice_plat.Auth.Service.{
  Tokens, refresh_token, generate_tokens, token_payload, sign_access, first_role,
}
use nestjs_microservice_plat.Interceptors.{Answer, Transformed}
use nestjs_microservice_plat.Gateway.Access.{bare}
use nestjs_microservice_plat.Gateway.Users as Gateway
use nestjs_microservice_plat.Users.Service.{Reply, a_user, update_request, controller}
use nestjs_microservice_plat.Users.Service as UsersService
use nestjs_microservice_plat.Http.{Call, Outcome, answered, serve}
use nestjs_microservice_plat.Http.Gateway.{users, run, route_metadata}
use nestjs_microservice_plat.Http.Laws.{guard-user, serve-answered}
use nestjs_microservice_plat.Onboarding.{accepted}
use nestjs_microservice_plat.Platform.{Transport}
use nestjs_microservice_plat.Platform.Laws.{call-answered}
use nestjs_microservice_plat.Platform.Users.{user_message, user_handlers, users_client}

-- The body that the caller sends.
abbrev pub promotion : Object
promotion = put "roles" (strs (role_text admin ∷ [])) empty

module _ {W : Type 0} (model : Model W) (now : ℕ) (transport : Transport W Reply Answer) where
  -- A request to a route of users at the gateway, with the service behind it.
  abbrev pub request : Gateway.Route → Call → W → Outcome × W
  request route c =
      serve (route_metadata (users route)) bare c
        (run (users_client model now transport) (users route))

  -- An update that was answered was made by the service.
  update-answered :
      (id : String) (dto : Object) (c : Call) (w w' : W) (t : Transformed)
      → request (Gateway.update_route id dto) c w ≡ (answered t, w')
      → (d : Object) × (Repository.find_one_and_update model (by_id id) (fields dto) no_options w
          ≡ (ok d, w'))
  unfolding route_metadata Gateway.route_metadata run Gateway.controller Gateway.update users_client
      user_handlers user_message controller UsersService.update
  update-answered id dto c w w' t e =
      let route = users (Gateway.update_route id dto) in
      let (user, a, passed, done, _) =
        serve-answered (route_metadata route) bare c (run (users_client model now transport) route)
          w w' t e in
      let (u, is_u, _) = guard-user (route_metadata route) c user refl passed in
      let by_user : run (users_client model now transport) route (some u) w ≡ (ok a, w') =
        subst (λ x. run (users_client model now transport) route x w ≡ (ok a, w')) is_u done in
      let (r, handled, _) =
        call-answered transport (user_handlers model now) _ _ _ _
          (controller model now (update_request id dto)) w w' a refl by_user in
      let (d', updated, _) = bind-pure (UsersService.update model id dto) a_user w w' r handled in
      let (d, written, _) =
        bind-pure (Repository.find_one_and_update model (by_id id) (fields dto) no_options)
          UsersService.sanitize_user w w' d' updated in
      (d, written)

  -- A refresh for an account with the role "admin" signs a token for this role.
  refresh-signed :
      (bcrypt : Bcrypt W) (jwt : Jwt W) (emit : Emit W) (settings : Auth.Settings)
      (token id : String) (payload account : Object) (tokens : Tokens) (w w' : W)
      → refresh_token model bcrypt jwt emit settings token w ≡ (ok tokens, w')
      → jwt.verify token settings.refresh_secret w ≡ ok payload
      → payload "sub" ≡ some (str id)
      → model.find_by_id id w ≡ ok (some account)
      → account "roles" ≡ some (strs (role_text admin ∷ []))
      → (sign_access jwt settings (token_payload account (role_text admin)) w
          ≡ ok tokens.access_token)
        × (w' ≡ w)
  unfolding refresh_token generate_tokens
  refresh-signed bcrypt jwt emit settings token id payload account tokens w w' e verified sub found
        has =
      let subject : as_text (payload "sub") ≡ some id = rw sub refl in
      let role : first_role (account "roles") ≡ ok (role_text admin) = rw has refl in ground arith

-- On a model that satisfies ModelLaws and stores the roles ["admin"] as they are, where a token
-- that JwtService signs for the role "admin" verifies to claims with this role as long as it
-- lasts, with the users service behind the gateway and the auth service on the same collection:
-- once a request that updates an account with the roles ["admin"] in its body was answered,
-- whoever sent it, a refresh with a token of that account answers with an access token that
-- verifies, as long as it lasts, and the guards of the gateway admit its bearer to the route that
-- deletes any user.
pub user_becomes_admin :
    {W : Type 0} (model : Model W) {Fits : String → Value → Type 0} (laws : ModelLaws model Fits)
    (transport : Transport W Reply Answer) (bcrypt : Bcrypt W) (jwt : Jwt W) (emit : Emit W)
    (settings : Auth.Settings) (Lasts : String → W → Type 0)
    → Fits "roles" (strs (role_text admin ∷ []))
    → ((payload : Object) (expires token : String) (v u : W)
        → payload "role" ≡ some (str (role_text admin))
        → jwt.sign payload settings.access_secret expires v ≡ ok token
        → Lasts token u
        → (claims : Object) × (jwt.verify token settings.access_secret u ≡ ok claims)
          × (claims "role" ≡ some (str (role_text admin))))
    → (now : ℕ) (id other token : String) (c : Call) (w w1 w2 : W) (t : Transformed)
      (payload : Object) (tokens : Tokens)
    → request model now transport (Gateway.update_route id promotion) c w ≡ (answered t, w1)
    → jwt.verify token settings.refresh_secret w1 ≡ ok payload
    → payload "sub" ≡ some (str id)
    → refresh_token model bcrypt jwt emit settings token w1 ≡ (ok tokens, w2)
    → Lasts tokens.access_token w2
    → (claims : Object) × (jwt.verify tokens.access_token settings.access_secret w2 ≡ ok claims)
      × (admit (Gateway.route_metadata (Gateway.delete_route other)) bare (accepted claims)
          ≡ ok (accepted claims).user)
unfolding admit Gateway.route_metadata accepted
user_becomes_admin model laws transport bcrypt jwt emit settings Lasts fits verifies now id other
      token c w w1 w2 t payload tokens promoted verified sub refreshed lasts =
    let (d, written) = update-answered model now transport id promotion c w w1 t promoted in
    let (roles, stored) =
      update_by_id-ok model laws id (fields promotion) no_options w w1 d "roles"
        (strs (role_text admin ∷ [])) written refl fits in
    let found : model.find_by_id id w1 ≡ ok (some d) = laws.find_by_id_lem id w1 ∙ stored in
    let (signed, _) =
      refresh-signed model now transport bcrypt jwt emit settings token id payload d tokens w1 w2
        refreshed verified sub found roles in
    let (claims, shown, role) =
      verifies (token_payload d (role_text admin)) (or_text settings.access_expires_in "15m")
        tokens.access_token w1 w2 refl signed lasts in
    (claims, shown, rw role refl)
