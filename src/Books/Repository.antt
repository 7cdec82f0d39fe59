-- ===== src/Books/Repository.antt =====
-- apps/books-service/src/books.repository.ts
use nestjs_microservice_plat.Prelude.{ℤ, String, Bool, [], ◌∷◌, some, false}
use nestjs_microservice_plat.Js.{null, bool, str}
use nestjs_microservice_plat.Action.{Action}
use nestjs_microservice_plat.Database.{Model, QueryOptions, descending}
use nestjs_microservice_plat.Database.Repository.{Page, find_and_count}

-- `{ skip, limit, sort: { createdAt: -1 } }`
abbrev newest_first : ℤ → ℤ → QueryOptions
newest_first skip limit = record {
  skip = some skip;
  limit = some limit;
  sort = ("createdAt", descending) ∷ [];
  return_new = false;
}

module _ {W : Type 0} (model : Model W) where
  unfoldable pub find_by_user : String → ℤ → ℤ → Action W Page
  find_by_user user_id skip limit =
      find_and_count model (("userId", str user_id) ∷ ("deletedAt", null) ∷ [])
        (newest_first skip limit)

  unfoldable pub find_by_read_status : String → Bool → ℤ → ℤ → Action W Page
  find_by_read_status user_id is_read skip limit =
      find_and_count model
        (("userId", str user_id) ∷ ("isRead", bool is_read) ∷ ("deletedAt", null) ∷ [])
        (newest_first skip limit)

  unfoldable pub find_by_genre : String → String → ℤ → ℤ → Action W Page
  find_by_genre user_id genre skip limit =
      find_and_count model
        (("userId", str user_id) ∷ ("genres", str genre) ∷ ("deletedAt", null) ∷ [])
        (newest_first skip limit)
