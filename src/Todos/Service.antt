-- ===== src/Todos/Service.antt =====
-- apps/todos-service/src/todos.service.ts; its log lines are left out.
use nestjs_microservice_plat.Prelude.{ℕ, ℤ, String, Option}
use nestjs_microservice_plat.Js.{Value, Object, field, spread}
use nestjs_microservice_plat.Action.{Action}
use nestjs_microservice_plat.Database.{Model, by_id, fields, no_options}
use nestjs_microservice_plat.Database.Repository.{Page}
use nestjs_microservice_plat.Database.Repository
use nestjs_microservice_plat.Todos.Repository as TodosRepository

module _ {W : Type 0} (model : Model W) where
  -- `{ userId, ...data }`
  unfoldable pub create : Option Value → Object → Action W Object
  create user_id todo = Repository.create model (spread (field "userId" user_id) todo)

  unfoldable pub find_by_id : String → Action W Object
  find_by_id id = Repository.find_by_id model id

  unfoldable pub find_by_user : String → ℤ → ℤ → Action W Page
  unfolding TodosRepository.find_by_user
  find_by_user user_id skip limit = TodosRepository.find_by_user model user_id skip limit

  unfoldable pub find_by_status : String → String → ℤ → ℤ → Action W Page
  unfolding TodosRepository.find_by_status
  find_by_status user_id status skip limit =
      TodosRepository.find_by_status model user_id status skip limit

  unfoldable pub update : String → Object → Action W Object
  update id todo = Repository.find_one_and_update model (by_id id) (fields todo) no_options

  -- `now` is `new Date()` in `softDelete`.
  unfoldable pub delete : ℕ → String → Action W Object
  delete now id = Repository.soft_delete model now (by_id id)

  unfoldable pub list : String → ℤ → ℤ → Action W Page
  unfolding find_by_user
  list user_id skip limit = find_by_user user_id skip limit
