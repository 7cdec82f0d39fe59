-- ===== src/Posts/Repository.antt =====
-- apps/posts-service/src/posts/posts.repository.ts
use nestjs_microservice_plat.Prelude.{ℤ, String, [], ◌∷◌, some, false}
use nestjs_microservice_plat.Js.{null, str}
use nestjs_microservice_plat.Action.{Action}
use nestjs_microservice_plat.Database.{Model, QueryOptions, descending}
use nestjs_microservice_plat.Database.Repository.{Page, find_and_count}

-- `{ skip, limit, sort: { createdAt: -1 } }`
abbrev pub newest_first : ℤ → ℤ → QueryOptions
newest_first skip limit = record {
  skip = some skip;
  limit = some limit;
  sort = ("createdAt", descending) ∷ [];
  return_new = false;
}

module _ {W : Type 0} (model : Model W) where
  unfoldable pub find_by_user : String → ℤ → ℤ → Action W Page
  find_by_user user_id skip limit =
      find_and_count model (("userId", str user_id) ∷ ("deletedAt", null) ∷ [])
        (newest_first skip limit)

  unfoldable pub find_published : ℤ → ℤ → Action W Page
  find_published skip limit =
      find_and_count model (("status", str "published") ∷ ("deletedAt", null) ∷ [])
        (newest_first skip limit)

  unfoldable pub find_by_tag : String → ℤ → ℤ → Action W Page
  find_by_tag tag skip limit =
      find_and_count model
        (("tags", str tag) ∷ ("status", str "published") ∷ ("deletedAt", null) ∷ [])
        (newest_first skip limit)
