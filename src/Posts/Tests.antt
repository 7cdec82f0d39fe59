-- ===== src/Posts/Tests.antt =====
-- The posts service on a collection with one post.
use nestjs_microservice_plat.Prelude.{
  true, false, pos, ◌≡◌, refl, ◌≤◌, ◌≢◌, String, List, [], ◌∷◌, none, some, All, length, includes,
}
use nestjs_microservice_plat.Js.{str, strs, num, Object, put, empty}
use nestjs_microservice_plat.Action.{ok}
use nestjs_microservice_plat.Constants.{JwtPayload}
use nestjs_microservice_plat.Database.{by_id, fields}
use nestjs_microservice_plat.Database.Memory.{Storable, memory, memory-laws, updated}
use nestjs_microservice_plat.Database.Repository.{
  Page, find_and_count, find_by_id, find_one_and_update,
}
use nestjs_microservice_plat.Posts.Service.{like, unlike, with_likes}
use nestjs_microservice_plat.Posts.Controller as PostsController
use nestjs_microservice_plat.Posts.Controller.{not_allowed}
use nestjs_microservice_plat.Database.Memory.{Store}
use nestjs_microservice_plat.Database.{Model}
use nestjs_microservice_plat.Database.Schema.{post_schema}
use nestjs_microservice_plat.Database.MemorySchema.{
  filled, memory_for, memory_for-laws, memory_for-creation,
}
use nestjs_microservice_plat.Posts.Likes.{like_lost, Shows, FitsLikes}
use nestjs_microservice_plat.Posts.Taps.{Tap, like_tap, unlike_tap, done, step, last_tap}
use nestjs_microservice_plat.Posts.Creation.{created_post_taps, created_post_hidden}
use nestjs_microservice_plat.Database.Repository as Base
use nestjs_microservice_plat.Js.{field, spread}
use nestjs_microservice_plat.Posts.Ownership.{IsPublished, HasTag, list-IsPublished}

abbrev pub essay : Object
essay = put "_id" (str "p1") (
    put "userId" (str "u1") (
      put "status" (str "published") (
        put "likedBy" (strs ("ann" ∷ []))
          (put "likesCount" (num (pos 1)) (put "tags" (strs ("art" ∷ [])) empty)))))

-- the essay after an update of its likes
abbrev pub essay_liked_by : List String → Object
essay_liked_by users = updated (fields (with_likes users essay)) essay

pub fits_likes : FitsLikes Storable
fits_likes = record { users = λ xs. cc; count = λ n. cc }

abbrev pub with_cat : Object
with_cat = essay_liked_by ("ann" ∷ "cat" ∷ [])

abbrev mary : JwtPayload
mary = record { sub = "mary"; email = "mary@x.org"; role = "user" }

abbrev body : Object
body = put "_id" (str "p2") (put "title" (str "Tides") empty)

abbrev new_post : Object
new_post = filled post_schema (spread (field "userId" (some (str "mary"))) body)

-- a post after an update of its likes
abbrev tapped : List String → Object → Object
tapped users post = updated (fields (with_likes users post)) post

abbrev liked_once : Object
liked_once = tapped ("ann" ∷ []) new_post

abbrev liked_twice : Object
liked_twice = tapped ("ann" ∷ "cat" ∷ []) liked_once

abbrev unliked : Object
unliked = tapped ("cat" ∷ []) liked_twice

abbrev taps : List Tap
taps = like_tap "ann" ∷ like_tap "cat" ∷ unlike_tap "ann" ∷ []

abbrev posts : Model Store
posts = memory_for post_schema

created_post_taps_example :
    (post : Object) × (posts.find_one (by_id "p2") (some unliked) ≡ ok (some post))
    × Shows (λ user. last_tap taps user false) post
unfolding PostsController.create Base.create like unlike find_by_id find_one_and_update
created_post_taps_example =
    created_post_taps posts (memory_for-laws post_schema) (memory_for-creation post_schema)
      fits_likes mary body new_post none (some new_post) (some unliked) "p2" taps refl refl refl
      refl (step liked_once refl (step liked_twice refl (step unliked refl done)))

abbrev nothing_listed : Page
nothing_listed = record { items = []; total = 0 }

created_post_hidden_example : All (λ x. x "_id" ≢ some (str "p2")) nothing_listed.items
unfolding PostsController.create Base.create PostsController.list find_and_count
created_post_hidden_example =
    created_post_hidden posts (memory_for-laws post_schema) (memory_for-creation post_schema) mary
      body new_post none (some new_post) (some new_post) "p2" none none none nothing_listed refl
      refl refl refl

abbrev root : JwtPayload
root = record { sub = "root"; email = "u3@x.org"; role = "admin" }

abbrev one_post : Page
one_post = record { items = essay ∷ []; total = 1 }

list-IsPublished_example :
    All (λ d. IsPublished d × HasTag (some "art") d) one_post.items
    × (length one_post.items ≤ 10)
    × (some essay ≡ some essay)
unfolding PostsController.list find_and_count
list-IsPublished_example =
    list-IsPublished memory memory-laws none none (some "art") (some essay) (some essay) one_post 9
      refl refl

abbrev author : JwtPayload
author = record { sub = "u1"; email = "u1@x.org"; role = "user" }

abbrev pub with_dan : Object
with_dan = updated (fields (with_likes ("ann" ∷ "daniel" ∷ []) essay)) with_cat

like_lost_example :
    (ys : List String) × (with_dan "likedBy" ≡ some (strs ys))
    × (includes ys "cat" ≡ false)
    × (includes ys "daniel" ≡ true)
    × (memory.find_one (by_id "p1") (some with_dan) ≡ ok (some with_dan))
unfolding find_one_and_update
like_lost_example =
    like_lost memory memory-laws fits_likes "p1" "cat" "daniel" (some essay) (some with_cat)
      (some with_dan) essay with_cat with_dan ("ann" ∷ []) refl refl refl (cc) refl refl
