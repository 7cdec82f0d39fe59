-- ===== src/Http/Auth.antt =====
-- The routes of apps/api-gateway/src/auth as Nest runs them, behind the global guards.
use nestjs_microservice_plat.Prelude.{◌≡◌, ◌⊎◌, String, Option, none, some, arith}
use nestjs_microservice_plat.Js.{Object}
use nestjs_microservice_plat.Errors.{error}
use nestjs_microservice_plat.Action.{Action, ok, throw}
use nestjs_microservice_plat.Constants.{JwtPayload}
use nestjs_microservice_plat.Constants.Patterns.{AuthPattern, auth_patterns}
use nestjs_microservice_plat.Guards.{admit, jwt_can_activate, roles_can_activate}
use nestjs_microservice_plat.Interceptors.{Answer}
use nestjs_microservice_plat.Gateway.Call.{Client, Payload, fields}
use nestjs_microservice_plat.Gateway.Access.{bare}
use nestjs_microservice_plat.Gateway.Laws.{Forwards, call-Forwards}
use nestjs_microservice_plat.Gateway.Auth.{
  Route, register_route, login_route, refresh_route, logout_route, route_metadata, register, login,
  refresh, logout,
}
use nestjs_microservice_plat.Http.{Call, guard, serve}
use nestjs_microservice_plat.Http.Laws.{IsCovered, HandsOn, finish-Settles, serve-ok}

-- The handler of a route with `request.user`; `logout` alone reads it.
unfoldable pub run_auth :
    {W : Type 0} → Client W Answer → Route → Option JwtPayload → Action W Answer
run_auth client (register_route dto) user = register client dto
run_auth client (login_route dto) user = login client dto
run_auth client (refresh_route dto) user = refresh client dto
run_auth client logout_route (some user) = logout client user.sub
run_auth client logout_route none =
    throw (error "Cannot read properties of undefined (reading 'sub')")

-- The requests that need no token.
pub data OpenRequest : Type 0 where
  registering logging_in refreshing : Object → OpenRequest

abbrev pub open_route : OpenRequest → Route
open_route (registering dto) = register_route dto
open_route (logging_in dto) = login_route dto
open_route (refreshing dto) = refresh_route dto

-- The message of a request.
abbrev pub open_message : OpenRequest → String × Payload
open_message (registering dto) = (auth_patterns AuthPattern.register, fields dto)
open_message (logging_in dto) = (auth_patterns AuthPattern.login, fields dto)
open_message (refreshing dto) = (auth_patterns AuthPattern.refresh_token, fields dto)

run_auth-Forwards :
    {W : Type 0} (client : Client W Answer) (request : OpenRequest) (user : Option JwtPayload)
    (w : W)
    → Forwards client (open_message request) w (run_auth client (open_route request) user w)
unfolding run_auth register login refresh
run_auth-Forwards client (registering dto) user w = call-Forwards client _ _ _ _ w
run_auth-Forwards client (logging_in dto) user w = call-Forwards client _ _ _ _ w
run_auth-Forwards client (refreshing dto) user w = call-Forwards client _ _ _ _ w

guard-open :
    (request : OpenRequest) (c : Call)
    → c.throttled ≡ ok tt
    → guard (route_metadata (open_route request)) bare c ≡ ok none
unfolding guard route_metadata admit jwt_can_activate roles_can_activate
guard-open (registering dto) c passed = ground arith
guard-open (logging_in dto) c passed = ground arith
guard-open (refreshing dto) c passed = ground arith

-- Whatever passport makes of its token, a registration, a login or a refresh that the throttler
-- lets through reaches the auth service as the one message of its route, nothing else happens, and
-- the application itself answers it, unless the service answered with an error whose status, 500
-- if it has none, is no number from 100 to 999: then HttpExceptionFilter hands that status on as
-- it is.
pub serve_open-IsCovered :
    {W : Type 0} (client : Client W Answer) (request : OpenRequest) (c : Call) (w : W)
    → c.throttled ≡ ok tt
    → let out =
        serve
          (route_metadata (open_route request))
          bare
          c
          (run_auth client (open_route request))
          w in
      let sent = client (open_message request).0 (open_message request).1 w in
      (out.1 ≡ sent.1) × (IsCovered out.0 ⊎ HandsOn sent.0 out.0)
serve_open-IsCovered client request c w passed =
    let route = open_route request in
    let served =
      serve-ok (route_metadata route) bare c (run_auth client route) w none
        (guard-open request c passed) in
    let sent = run_auth-Forwards client request none w in
    rw served (sent.0, finish-Settles c _ _ sent.1)
