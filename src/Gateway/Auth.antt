-- ===== src/Gateway/Auth.antt =====
-- apps/api-gateway/src/auth: auth.service.ts and auth.controller.ts.
use nestjs_microservice_plat.Prelude.{String, true, none, some}
use nestjs_microservice_plat.Js.{str, Object, empty, put}
use nestjs_microservice_plat.Action.{Action}
use nestjs_microservice_plat.Constants.{JwtPayload}
use nestjs_microservice_plat.Constants.Patterns.{AuthPattern, auth_patterns}
use nestjs_microservice_plat.Guards.{Metadata}
use nestjs_microservice_plat.Gateway.Call.{fields, Client, call}

module _ {W A : Type 0} (client : Client W A) where
  unfoldable pub register : Object → Action W A
  register dto =
      call client "Auth service error" "Registration failed" (auth_patterns AuthPattern.register)
        (fields dto)

  unfoldable pub login : Object → Action W A
  login dto =
      call client "Auth service error" "Login failed" (auth_patterns AuthPattern.login) (fields dto)

  unfoldable pub logout : String → Action W A
  logout user_id =
      call client "Auth service error" "Logout failed" (auth_patterns AuthPattern.logout)
        (fields (put "userId" (str user_id) empty))

  unfoldable pub refresh : Object → Action W A
  refresh dto =
      call client "Auth service error" "Token refresh failed"
        (auth_patterns AuthPattern.refresh_token) (fields dto)

-- The routes of `AuthController`.
pub data Route : Type 0 where
  register_route login_route refresh_route : Object → Route
  logout_route : Route

module _ {W A : Type 0} (client : Client W A) where
  unfoldable pub controller : JwtPayload → Route → Action W A
  unfolding register login logout refresh
  controller caller (register_route dto) = register client dto
  controller caller (login_route dto) = login client dto
  controller caller logout_route = logout client caller.sub
  controller caller (refresh_route dto) = refresh client dto

-- All routes but `logout` are `@Public`.
unfoldable pub route_metadata : Route → Metadata
route_metadata logout_route = record { is_public = none; roles = none }
route_metadata _ = record { is_public = some true; roles = none }
