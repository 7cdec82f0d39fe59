-- ===== src/Books/Controller.antt =====
-- apps/books-service/src/books.controller.ts: one handler for each message pattern.
use nestjs_microservice_plat.Prelude.{ℕ, ℤ, pos, String, Bool, Option}
use nestjs_microservice_plat.Js.{Object, or_num}
use nestjs_microservice_plat.Action.{Action}
use nestjs_microservice_plat.Database.{Model}
use nestjs_microservice_plat.Database.Repository.{Page}
use nestjs_microservice_plat.Books.Service as BooksService

-- The payload of the listing patterns.
pub record PageDto : Type 0 where
  pub user_id : String
  pub skip : Option ℤ
  pub limit : Option ℤ

module _ {W : Type 0} (model : Model W) where
  unfoldable pub create : Object → Action W Object
  unfolding BooksService.create
  create dto = BooksService.create model (dto "userId") dto

  unfoldable pub find_by_id : String → Action W Object
  unfolding BooksService.find_by_id
  find_by_id id = BooksService.find_by_id model id

  unfoldable pub find_by_user : PageDto → Action W Page
  unfolding BooksService.find_by_user
  find_by_user dto =
      BooksService.find_by_user model dto.user_id (or_num dto.skip (pos 0))
        (or_num dto.limit (pos 10))

  unfoldable pub find_by_read_status : PageDto → Bool → Action W Page
  unfolding BooksService.find_by_read_status
  find_by_read_status dto is_read =
      BooksService.find_by_read_status model dto.user_id is_read (or_num dto.skip (pos 0))
        (or_num dto.limit (pos 10))

  unfoldable pub find_by_genre : PageDto → String → Action W Page
  unfolding BooksService.find_by_genre
  find_by_genre dto genre =
      BooksService.find_by_genre model dto.user_id genre (or_num dto.skip (pos 0))
        (or_num dto.limit (pos 10))

  -- `dto.id`, and the whole of `dto` as the update
  unfoldable pub update : String → Object → Action W Object
  unfolding BooksService.update
  update id dto = BooksService.update model id dto

  unfoldable pub delete : ℕ → String → Action W Object
  unfolding BooksService.delete
  delete now id = BooksService.delete model now id

  unfoldable pub list : PageDto → Action W Page
  unfolding BooksService.list
  list dto =
      BooksService.list model dto.user_id (or_num dto.skip (pos 0)) (or_num dto.limit (pos 10))
