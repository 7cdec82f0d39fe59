-- ===== src/Todos/Repository.antt =====
-- apps/todos-service/src/todos.repository.ts
use nestjs_microservice_plat.Prelude.{ℤ, String, [], ◌∷◌, some, false}
use nestjs_microservice_plat.Js.{null, str}
use nestjs_microservice_plat.Action.{Action}
use nestjs_microservice_plat.Database.{Model, descending}
use nestjs_microservice_plat.Database.Repository.{Page, find_and_count}

module _ {W : Type 0} (model : Model W) where
  unfoldable pub find_by_user : String → ℤ → ℤ → Action W Page
  find_by_user user_id skip limit =
      find_and_count model (("userId", str user_id) ∷ ("deletedAt", null) ∷ []) (record {
        skip = some skip;
        limit = some limit;
        sort = ("createdAt", descending) ∷ [];
        return_new = false;
      })

  unfoldable pub find_by_status : String → String → ℤ → ℤ → Action W Page
  find_by_status user_id status skip limit =
      find_and_count model
        (("userId", str user_id) ∷ ("status", str status) ∷ ("deletedAt", null) ∷ [])
        (record {
          skip = some skip;
          limit = some limit;
          sort = ("priority", descending) ∷ ("createdAt", descending) ∷ [];
          return_new = false;
        })
