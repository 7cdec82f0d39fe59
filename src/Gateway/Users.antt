-- ===== src/Gateway/Users.antt =====
-- apps/api-gateway/src/users: users.service.ts and users.controller.ts. The numbers of a query string
-- are those that JavaScript's arithmetic makes of it.
use nestjs_microservice_plat.Prelude.{ℤ, pos, String, [], ◌∷◌, Option, none, some}
use nestjs_microservice_plat.Prelude.Int.{◌-ℤ◌, ◌*ℤ◌}
use nestjs_microservice_plat.Js.{num, Object, empty, put, default}
use nestjs_microservice_plat.Action.{Action}
use nestjs_microservice_plat.Constants.{JwtPayload}
use nestjs_microservice_plat.Constants.Patterns.{UserPattern, user_patterns}
use nestjs_microservice_plat.Constants.CommonRole.{role_text, admin, user}
use nestjs_microservice_plat.Guards.{Metadata}
use nestjs_microservice_plat.Gateway.Call.{fields, updates, Client, call, id_payload}

module _ {W A : Type 0} (client : Client W A) where
  unfoldable pub find_by_id : String → Action W A
  find_by_id id =
      call client "User service error" "Failed to fetch user" (user_patterns UserPattern.find_by_id)
        (id_payload id)

  unfoldable pub find_all : Option ℤ → Option ℤ → Action W A
  unfolding ◌-ℤ◌ ◌*ℤ◌
  find_all page limit =
      let size = default limit (pos 10) in
      call client "User service error" "Failed to fetch users" (user_patterns UserPattern.list) (
        fields (
          put "skip" (num ((default page (pos 1) -ℤ pos 1) *ℤ size))
            (put "limit" (num size) empty)))

  unfoldable pub update : String → Object → Action W A
  update id dto =
      call client "User service error" "Failed to update user" (user_patterns UserPattern.update)
        (updates id dto)

  unfoldable pub delete : String → Action W A
  delete id =
      call client "User service error" "Failed to delete user" (user_patterns UserPattern.delete)
        (id_payload id)

-- The routes of `UsersController`.
pub data Route : Type 0 where
  all_route : Option ℤ → Option ℤ → Route
  me_route : Route
  find_route delete_route : String → Route
  update_route : String → Object → Route

module _ {W A : Type 0} (client : Client W A) where
  unfoldable pub controller : JwtPayload → Route → Action W A
  unfolding find_by_id find_all update delete
  controller caller (all_route page limit) = find_all client page limit
  controller caller me_route = find_by_id client caller.sub
  controller caller (find_route id) = find_by_id client id
  controller caller (update_route id dto) = update client id dto
  controller caller (delete_route id) = delete client id

-- What `@Roles` says of each route.
unfoldable pub route_metadata : Route → Metadata
route_metadata (update_route id dto) = record {
  is_public = none;
  roles = some (role_text admin ∷ role_text user ∷ []);
}
route_metadata (delete_route id) = record { is_public = none; roles = some (role_text admin ∷ []) }
route_metadata _ = record { is_public = none; roles = none }
