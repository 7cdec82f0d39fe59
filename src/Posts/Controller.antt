-- ===== src/Posts/Controller.antt =====
-- apps/posts-service/src/posts/posts.controller.ts. The numbers of a query string are those that
-- JavaScript's arithmetic makes of it.
use nestjs_microservice_plat.Prelude.{
  ℕ, ℤ, pos, String, Bool, Option, none, some, ◌==◌, ◌&&◌, not, if◌then◌else◌,
}
use nestjs_microservice_plat.Prelude.Int.{◌-ℤ◌, ◌*ℤ◌}
use nestjs_microservice_plat.Js.{Object, str, empty, put, is_text, default}
use nestjs_microservice_plat.Errors.{Exception, error}
use nestjs_microservice_plat.Constants.{JwtPayload}
use nestjs_microservice_plat.Constants.Role.{role_text, admin}
use nestjs_microservice_plat.Action.{Action, throw, ◌>>=◌}
use nestjs_microservice_plat.Database.{Model}
use nestjs_microservice_plat.Database.Repository.{Page}
use nestjs_microservice_plat.Posts.Service as PostsService

-- `throw new Error('Unauthorized')`
abbrev pub not_allowed : Exception
not_allowed = error "Unauthorized"

-- `post.userId !== user.sub && user.role !== UserRole.ADMIN`
abbrev pub is_foreign : Object → JwtPayload → Bool
is_foreign post user = not (is_text (post "userId") user.sub) && not (user.role == role_text admin)

-- `(page - 1) * limit`
unfoldable pub skip_of : ℤ → ℤ → ℤ
unfolding ◌-ℤ◌ ◌*ℤ◌
skip_of page limit = (page -ℤ pos 1) *ℤ limit

module _ {W : Type 0} (model : Model W) where
  unfoldable pub create : JwtPayload → Object → Action W Object
  unfolding PostsService.create
  create user dto = PostsService.create model user.sub dto

  unfoldable pub list : Option ℤ → Option ℤ → Option String → Action W Page
  unfolding PostsService.list PostsService.find_by_tag
  list page limit tag =
      let size = default limit (pos 10) in
      let skip = skip_of (default page (pos 1)) size in
      elim tag [
        | none ↦ PostsService.list model skip size
        | some t ↦
            if t == ""
            then PostsService.list model skip size
            else PostsService.find_by_tag model t skip size
      ]

  unfoldable pub get_user_posts : String → Option ℤ → Option ℤ → JwtPayload → Action W Page
  unfolding PostsService.find_by_user
  get_user_posts user_id page limit user =
      if not (user.sub == user_id) && not (user.role == role_text admin)
      then throw not_allowed
      else (let size = default limit (pos 10) in
          PostsService.find_by_user model user_id (skip_of (default page (pos 1)) size) size)

  unfoldable pub find_by_id : String → Action W Object
  unfolding PostsService.find_by_id
  find_by_id id = PostsService.find_by_id model id

  unfoldable pub update : String → JwtPayload → Object → Action W Object
  unfolding PostsService.find_by_id PostsService.update
  update id user dto = do
    post ← PostsService.find_by_id model id
    if is_foreign post user then throw not_allowed else PostsService.update model id dto

  unfoldable pub delete : ℕ → String → JwtPayload → Action W Object
  unfolding PostsService.find_by_id PostsService.delete
  delete now id user = do
    post ← PostsService.find_by_id model id
    if is_foreign post user then throw not_allowed else PostsService.delete model now id

  unfoldable pub like : String → JwtPayload → Action W Object
  unfolding PostsService.like
  like post_id user = PostsService.like model post_id user.sub

  unfoldable pub unlike : String → JwtPayload → Action W Object
  unfolding PostsService.unlike
  unlike post_id user = PostsService.unlike model post_id user.sub

  unfoldable pub publish : String → JwtPayload → Action W Object
  unfolding PostsService.find_by_id PostsService.update
  publish id user = do
    post ← PostsService.find_by_id model id
    if is_foreign post user
        then throw not_allowed
        else PostsService.update model id (put "status" (str "published") empty)
