-- ===== src/Platform/Users.antt =====
-- The message patterns of apps/user-service/src/users.controller.ts, and the service behind the
-- gateway's client proxy.
use nestjs_microservice_plat.Prelude.{ℕ, String, Option, none, some, ◌==◌, if◌then◌else◌}
use nestjs_microservice_plat.Js.{Object, as_text, as_whole}
use nestjs_microservice_plat.Action.{Action}
use nestjs_microservice_plat.Constants.Patterns.{UserPattern, user_patterns}
use nestjs_microservice_plat.Database.{Model}
use nestjs_microservice_plat.Interceptors.{Answer}
use nestjs_microservice_plat.Gateway.Call.{Payload, fields, updates, Client}
use nestjs_microservice_plat.Users.Service.{
  Request, Reply, find_by_id_request, find_by_email_request, delete_request, list_request,
  update_request, controller,
}
use nestjs_microservice_plat.Platform.{Transport, service_client}

-- the `@MessagePattern` of each handler that takes the fields of its payload, where they have the types
-- that it declares
abbrev pub user_handler : String → Object → Option Request
user_handler name o =
    if name == user_patterns UserPattern.find_by_id
    then elim (as_text (o "id")) [ none ↦ none | some id ↦ some (find_by_id_request id) ]
    else (if name == user_patterns UserPattern.find_by_email
        then elim (as_text (o "email")) [ none ↦ none | some s ↦ some (find_by_email_request s) ]
        else (if name == user_patterns UserPattern.delete
            then elim (as_text (o "id")) [ none ↦ none | some id ↦ some (delete_request id) ]
            else (if name == user_patterns UserPattern.list
                then elim (as_whole (o "skip")) [
                  | none ↦ none
                  | some skip ↦ elim (as_whole (o "limit")) [
                    | none ↦ none
                    | some limit ↦ some (list_request skip limit)
                  ]
                ]
                else none)))

unfoldable pub user_message : String → Payload → Option Request
user_message name (fields o) = user_handler name o
user_message name (updates id o) =
    if name == user_patterns UserPattern.update then some (update_request id o) else none

module _ {W : Type 0} (model : Model W) (now : ℕ) where
  unfoldable pub user_handlers : String → Payload → Option (Action W Reply)
  unfolding user_message controller
  user_handlers name payload = elim (user_message name payload) [
    | none ↦ none
    | some m ↦ some (controller model now m)
  ]

  -- The client proxy of the gateway's UsersService, connected to the service.
  unfoldable pub users_client : Transport W Reply Answer → Client W Answer
  unfolding service_client user_handlers
  users_client transport = service_client transport user_handlers
