-- ===== src/Todos/Controller.antt =====
-- apps/todos-service/src/todos.controller.ts: one handler for each message pattern.
use nestjs_microservice_plat.Prelude.{ℕ, ℤ, pos, String, Option}
use nestjs_microservice_plat.Js.{Object, or_num}
use nestjs_microservice_plat.Action.{Action}
use nestjs_microservice_plat.Database.{Model}
use nestjs_microservice_plat.Database.Repository.{Page}
use nestjs_microservice_plat.Todos.Service as TodosService

-- The payload of the listing patterns.
pub record PageDto : Type 0 where
  pub user_id : String
  pub skip : Option ℤ
  pub limit : Option ℤ

module _ {W : Type 0} (model : Model W) where
  unfoldable pub create : Object → Action W Object
  unfolding TodosService.create
  create dto = TodosService.create model (dto "userId") dto

  unfoldable pub find_by_id : String → Action W Object
  unfolding TodosService.find_by_id
  find_by_id id = TodosService.find_by_id model id

  unfoldable pub find_by_user : PageDto → Action W Page
  unfolding TodosService.find_by_user
  find_by_user dto =
      TodosService.find_by_user model dto.user_id (or_num dto.skip (pos 0))
        (or_num dto.limit (pos 10))

  unfoldable pub find_by_status : PageDto → String → Action W Page
  unfolding TodosService.find_by_status
  find_by_status dto status =
      TodosService.find_by_status model dto.user_id status (or_num dto.skip (pos 0))
        (or_num dto.limit (pos 10))

  -- `dto.id`, and the whole of `dto` as the update
  unfoldable pub update : String → Object → Action W Object
  unfolding TodosService.update
  update id dto = TodosService.update model id dto

  unfoldable pub delete : ℕ → String → Action W Object
  unfolding TodosService.delete
  delete now id = TodosService.delete model now id

  unfoldable pub list : PageDto → Action W Page
  unfolding TodosService.list
  list dto =
      TodosService.list model dto.user_id (or_num dto.skip (pos 0)) (or_num dto.limit (pos 10))
