-- ===== src/Gateway/Todos.antt =====
-- apps/api-gateway/src/todos: todos.service.ts and todos.controller.ts. The numbers of a query string
-- are those that JavaScript's arithmetic makes of it.
use nestjs_microservice_plat.Prelude.{ℤ, pos, String, Option}
use nestjs_microservice_plat.Prelude.Int.{◌-ℤ◌, ◌*ℤ◌}
use nestjs_microservice_plat.Js.{str, Object, empty, put, spread, default}
use nestjs_microservice_plat.Action.{Action}
use nestjs_microservice_plat.Constants.{JwtPayload}
use nestjs_microservice_plat.Constants.Patterns.{TodoPattern, todo_patterns}
use nestjs_microservice_plat.Gateway.Call.{Payload, fields, Client, call, id_payload, page_payload}

-- `{ userId, ...dto }`
unfoldable pub create_payload : String → Object → Payload
create_payload user_id dto = fields (spread (put "userId" (str user_id) empty) dto)

-- `{ id, userId, ...dto }`
unfoldable pub update_payload : String → String → Object → Payload
update_payload id user_id dto =
    fields (spread (put "id" (str id) (put "userId" (str user_id) empty)) dto)

module _ {W A : Type 0} (client : Client W A) where
  unfoldable pub create : String → Object → Action W A
  create user_id dto =
      call client "Todos service error" "Failed to create todo" (todo_patterns TodoPattern.create)
        (create_payload user_id dto)

  unfoldable pub find_by_id : String → Action W A
  find_by_id id =
      call client "Todos service error" "Failed to fetch todo"
        (todo_patterns TodoPattern.find_by_id) (id_payload id)

  unfoldable pub find_by_user : String → ℤ → ℤ → Action W A
  find_by_user user_id skip limit =
      call client "Todos service error" "Failed to fetch todos"
        (todo_patterns TodoPattern.find_by_user) (page_payload user_id skip limit)

  unfoldable pub update : String → String → Object → Action W A
  update id user_id dto =
      call client "Todos service error" "Failed to update todo" (todo_patterns TodoPattern.update)
        (update_payload id user_id dto)

  unfoldable pub delete : String → Action W A
  delete id =
      call client "Todos service error" "Failed to delete todo" (todo_patterns TodoPattern.delete)
        (id_payload id)

  unfoldable pub list : String → ℤ → ℤ → Action W A
  unfolding find_by_user
  list user_id skip limit = find_by_user user_id skip limit

-- The routes of `TodosController`.
pub data Route : Type 0 where
  create_route : Object → Route
  list_route : Option ℤ → Option ℤ → Route
  find_route delete_route : String → Route
  update_route : String → Object → Route

module _ {W A : Type 0} (client : Client W A) where
  unfoldable pub controller : JwtPayload → Route → Action W A
  unfolding create find_by_id find_by_user list update delete ◌-ℤ◌ ◌*ℤ◌
  controller user (create_route dto) = create client user.sub dto
  controller user (list_route page limit) =
      let size = default limit (pos 10) in
      list client user.sub ((default page (pos 1) -ℤ pos 1) *ℤ size) size
  controller user (find_route id) = find_by_id client id
  controller user (update_route id dto) = update client id user.sub dto
  controller user (delete_route id) = delete client id
