-- ===== src/Users/Service.antt =====
-- apps/user-service/src/users.service.ts and users.controller.ts; log lines are left out.
use nestjs_microservice_plat.Prelude.{ℕ, ℤ, String, map, Option, none, some}
use nestjs_microservice_plat.Js.{Object, remove}
use nestjs_microservice_plat.Action.{Action, pure, ◌>>=◌}
use nestjs_microservice_plat.Database.{Model, by_id, fields, no_options}
use nestjs_microservice_plat.Database.Repository.{Page}
use nestjs_microservice_plat.Database.Repository
use nestjs_microservice_plat.Users.Repository as UsersRepository

-- `_sanitizeUser` of a user that is there
unfoldable pub sanitize_user : Object → Object
sanitize_user user = remove "password" user

module _ {W : Type 0} (model : Model W) where
  unfoldable pub find_by_id : String → Action W Object
  find_by_id id = do user ← Repository.find_by_id model id; pure (sanitize_user user)

  unfoldable pub find_by_email : String → Action W (Option Object)
  unfolding UsersRepository.find_by_email
  find_by_email email = do
    user ← UsersRepository.find_by_email model email
    pure (elim user [ none ↦ none | some u ↦ some (sanitize_user u) ])

  unfoldable pub list : ℤ → ℤ → Action W Page
  unfolding UsersRepository.list
  list skip limit = do
    page ← UsersRepository.list model skip limit
    pure (record { items = map sanitize_user page.items; total = page.total })

  unfoldable pub update : String → Object → Action W Object
  update id updates = do
    user ← Repository.find_one_and_update model (by_id id) (fields updates) no_options
    pure (sanitize_user user)

  -- `now` is `new Date()` in `softDelete`.
  unfoldable pub delete : ℕ → String → Action W Object
  delete now id = do user ← Repository.soft_delete model now (by_id id); pure (sanitize_user user)

-- The message patterns of `UsersController`, with their payloads.
pub data Request : Type 0 where
  find_by_id_request find_by_email_request delete_request : String → Request
  list_request : ℤ → ℤ → Request
  update_request : String → Object → Request

pub data Reply : Type 0 where
  a_user : Object → Reply
  maybe_user : Option Object → Reply
  a_page : Page → Reply

module _ {W : Type 0} (model : Model W) (now : ℕ) where
  -- `UsersController`
  unfoldable pub controller : Request → Action W Reply
  controller (find_by_id_request id) = do pure (a_user (← find_by_id model id))
  controller (find_by_email_request email) = do pure (maybe_user (← find_by_email model email))
  controller (list_request skip limit) = do pure (a_page (← list model skip limit))
  controller (update_request id updates) = do pure (a_user (← update model id updates))
  controller (delete_request id) = do pure (a_user (← delete model now id))
