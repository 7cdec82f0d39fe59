-- ===== src/Books/Service.antt =====
-- apps/books-service/src/books.service.ts; its log lines are left out.
use nestjs_microservice_plat.Prelude.{ℕ, ℤ, String, Bool, Option}
use nestjs_microservice_plat.Js.{Value, Object, field, spread}
use nestjs_microservice_plat.Action.{Action}
use nestjs_microservice_plat.Database.{Model, by_id, fields, no_options}
use nestjs_microservice_plat.Database.Repository.{Page}
use nestjs_microservice_plat.Database.Repository
use nestjs_microservice_plat.Books.Repository as BooksRepository

module _ {W : Type 0} (model : Model W) where
  -- `{ userId, ...data }`
  unfoldable pub create : Option Value → Object → Action W Object
  create user_id book = Repository.create model (spread (field "userId" user_id) book)

  unfoldable pub find_by_id : String → Action W Object
  find_by_id id = Repository.find_by_id model id

  unfoldable pub find_by_user : String → ℤ → ℤ → Action W Page
  unfolding BooksRepository.find_by_user
  find_by_user user_id skip limit = BooksRepository.find_by_user model user_id skip limit

  unfoldable pub find_by_read_status : String → Bool → ℤ → ℤ → Action W Page
  unfolding BooksRepository.find_by_read_status
  find_by_read_status user_id is_read skip limit =
      BooksRepository.find_by_read_status model user_id is_read skip limit

  unfoldable pub find_by_genre : String → String → ℤ → ℤ → Action W Page
  unfolding BooksRepository.find_by_genre
  find_by_genre user_id genre skip limit =
      BooksRepository.find_by_genre model user_id genre skip limit

  unfoldable pub update : String → Object → Action W Object
  update id book = Repository.find_one_and_update model (by_id id) (fields book) no_options

  -- `now` is `new Date()` in `softDelete`.
  unfoldable pub delete : ℕ → String → Action W Object
  delete now id = Repository.soft_delete model now (by_id id)

  unfoldable pub list : String → ℤ → ℤ → Action W Page
  unfolding find_by_user
  list user_id skip limit = find_by_user user_id skip limit
