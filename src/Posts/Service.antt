-- ===== src/Posts/Service.antt =====
-- apps/posts-service/src/posts/posts.service.ts; its log lines are left out.
use nestjs_microservice_plat.Prelude.{
  ℕ, ℤ, pos, String, List, [], ◌∷◌, ◌++◌, some, ◌==◌, not, if◌then◌else◌, length, keep, includes,
}
use nestjs_microservice_plat.Js.{num, str, strs, Object, field, put, spread}
use nestjs_microservice_plat.Errors.{Exception, error}
use nestjs_microservice_plat.Action.{Action, pure, throw, ◌>>=◌}
use nestjs_microservice_plat.Database.{Model, by_id, fields, no_options}
use nestjs_microservice_plat.Database.Repository.{Page}
use nestjs_microservice_plat.Database.Repository
use nestjs_microservice_plat.Posts.Repository as PostsRepository

-- The `TypeError` of a method call on a field that holds no array.
abbrev pub type_error : Exception
type_error = error "Cannot read properties of undefined"

-- `post.likedBy`, on which the caller invokes an array method
abbrev pub liked_by : {W : Type 0} → Object → Action W (List String)
liked_by post = elim (post "likedBy") [ some (strs users) ↦ pure users | _ ↦ throw type_error ]

-- `post.likedBy = users; post.likesCount = post.likedBy.length`
abbrev pub with_likes : List String → Object → Object
with_likes users post =
    put "likesCount" (num (pos (length users))) (put "likedBy" (strs users) post)

module _ {W : Type 0} (model : Model W) where
  -- `{ userId, ...data }`
  unfoldable pub create : String → Object → Action W Object
  create user_id post = Repository.create model (spread (field "userId" (some (str user_id))) post)

  unfoldable pub find_by_id : String → Action W Object
  find_by_id id = Repository.find_by_id model id

  unfoldable pub find_by_user : String → ℤ → ℤ → Action W Page
  unfolding PostsRepository.find_by_user
  find_by_user user_id skip limit = PostsRepository.find_by_user model user_id skip limit

  unfoldable pub find_published : ℤ → ℤ → Action W Page
  unfolding PostsRepository.find_published
  find_published skip limit = PostsRepository.find_published model skip limit

  unfoldable pub find_by_tag : String → ℤ → ℤ → Action W Page
  unfolding PostsRepository.find_by_tag
  find_by_tag tag skip limit = PostsRepository.find_by_tag model tag skip limit

  unfoldable pub update : String → Object → Action W Object
  update id post = Repository.find_one_and_update model (by_id id) (fields post) no_options

  -- `now` is `new Date()` in `softDelete`.
  unfoldable pub delete : ℕ → String → Action W Object
  delete now id = Repository.soft_delete model now (by_id id)

  -- `like` from where it has read the post
  abbrev pub like_found : String → String → Object → Action W Object
  like_found post_id user_id post = do
    users ← liked_by post
    if includes users user_id
        then pure post
        else Repository.find_one_and_update model (by_id post_id)
            (fields (with_likes (users ++ user_id ∷ []) post)) no_options

  unfoldable pub like : String → String → Action W Object
  like post_id user_id = do
    post ← Repository.find_by_id model post_id
    like_found post_id user_id post

  -- `unlike` from there
  abbrev pub unlike_found : String → String → Object → Action W Object
  unlike_found post_id user_id post = do
    users ← liked_by post
    Repository.find_one_and_update model (by_id post_id)
        (fields (with_likes (keep (λ id. not (id == user_id)) users) post)) no_options

  unfoldable pub unlike : String → String → Action W Object
  unlike post_id user_id = do
    post ← Repository.find_by_id model post_id
    unlike_found post_id user_id post

  unfoldable pub list : ℤ → ℤ → Action W Page
  unfolding find_published
  list skip limit = find_published skip limit
