-- ===== src/Posts/Creation.antt =====
-- What a post is like after its creation: the defaults of libs/database/src/schemas/post.schema.ts
-- under the body of the request.
use nestjs_microservice_plat.Prelude.{
  ℤ, pos, ◌≡◌, refl, ◌∙◌, ◌≢◌, String, List, [], false, ◌==◌, Option, none, some, arith, inl, inr,
  All,
}
use nestjs_microservice_plat.Js.{Value, field, spread, str, strs, num, Object}
use nestjs_microservice_plat.Action.{ok}
use nestjs_microservice_plat.Constants.{JwtPayload}
use nestjs_microservice_plat.Database.{Model, ModelLaws, by_id, Satisfies}
use nestjs_microservice_plat.Database.Schema.{SchemaLaws, default_at, post_schema}
use nestjs_microservice_plat.Database.RepositoryLaws.{find_and_count-ok, find-excludes}
use nestjs_microservice_plat.Posts.Ownership.{IsPublished, list-find}
use nestjs_microservice_plat.Database.Repository.{Page}
use nestjs_microservice_plat.Database.Repository as Base
use nestjs_microservice_plat.Posts.Service as PostsService
use nestjs_microservice_plat.Posts.Controller as PostsController
use nestjs_microservice_plat.Posts.Likes.{Shows, FitsLikes}
use nestjs_microservice_plat.Posts.Taps.{Tap, Run, last_tap, Run-Shows}

unpublished :
    (d : Object) → d "status" ≡ some (str "draft") → ¬ (Satisfies d ("status", str "published"))
unpublished d h (inl p) = cc
unpublished d h (inr (xs, p, _)) = cc

module _ {W : Type 0} (model : Model W) {Fits : String → Value → Type 0}
    (laws : ModelLaws model Fits) (creation : SchemaLaws model Fits post_schema) where
  -- A path that the body of the request leaves out gets its default.
  create-fills :
      (caller : JwtPayload) (dto d : Object) (w w' : W) (k : String) (v : Value)
      → PostsController.create model caller dto w ≡ (ok d, w')
      → ("userId" == k) ≡ false
      → dto k ≡ none
      → default_at post_schema k ≡ some v
      → d k ≡ some v
  unfolding PostsController.create PostsService.create Base.create
  create-fills caller dto d w w' k v e other left h =
      creation.create_fills (spread (field "userId" (some (str caller.sub))) dto) d w w' k v e
        (ground arith) h

  create-Shows :
      (caller : JwtPayload) (dto d : Object) (w w' : W)
      → PostsController.create model caller dto w ≡ (ok d, w')
      → dto "likedBy" ≡ none
      → dto "likesCount" ≡ none
      → Shows (λ v. false) d
  create-Shows caller dto d w w' e users count = (
    [],
    create-fills caller dto d w w' "likedBy" (strs []) e refl users refl,
    create-fills caller dto d w w' "likesCount" (num (pos 0)) e refl count refl,
    λ v. omega arith,
    λ v. refl,
  )

  create-stored :
      (caller : JwtPayload) (dto d : Object) (w w' : W) (id : String)
      → PostsController.create model caller dto w ≡ (ok d, w')
      → d "_id" ≡ some (str id)
      → model.find_one (by_id id) w' ≡ ok (some d)
  unfolding PostsController.create PostsService.create Base.create
  create-stored caller dto d w w' id e key = creation.create_stored _ d w w' id e key

  -- On a model that satisfies ModelLaws and SchemaLaws of the schema of posts, and where likedBy
  -- and likesCount are stored as they are: after the creation of a post whose body has neither
  -- field, and any run of successful likes and unlikes of it, the stored post has in likedBy
  -- exactly the users whose last tap was a like, none of them twice, and their number in
  -- likesCount.
  pub created_post_taps :
      FitsLikes Fits
      → (caller : JwtPayload) (dto d : Object) (w w1 w2 : W) (id : String) (taps : List Tap)
      → PostsController.create model caller dto w ≡ (ok d, w1)
      → dto "likedBy" ≡ none
      → dto "likesCount" ≡ none
      → d "_id" ≡ some (str id)
      → Run model id w1 taps w2
      → (post : Object) × (model.find_one (by_id id) w2 ≡ ok (some post))
        × Shows (λ user. last_tap taps user false) post
  created_post_taps fits caller dto d w w1 w2 id taps e users count key run =
      Run-Shows model laws fits id taps (λ v. false) w1 w2 d
        (create-stored caller dto d w w1 id e key) (create-Shows caller dto d w w1 e users count)
        run

  -- On a model that satisfies ModelLaws and SchemaLaws of the schema of posts: right after the
  -- creation of a post whose body has no status, no page of the public listing, with or without a
  -- tag, shows the post.
  pub created_post_hidden :
      (caller : JwtPayload) (dto d : Object) (w w1 w2 : W) (id : String) (page limit : Option ℤ)
      (tag : Option String) (listed : Page)
      → PostsController.create model caller dto w ≡ (ok d, w1)
      → dto "status" ≡ none
      → d "_id" ≡ some (str id)
      → PostsController.list model page limit tag w1 ≡ (ok listed, w2)
      → All (λ x. x "_id" ≢ some (str id)) listed.items
  created_post_hidden caller dto d w w1 w2 id page limit tag listed e status key found =
      let (f, same, holds) = list-find model page limit tag w1 in
      let (rows, _, _) = find_and_count-ok model f _ w1 w2 listed (same ∙ found) in
      let drafted = create-fills caller dto d w w1 "status" (str "draft") e refl status refl in
      find-excludes model laws IsPublished f _ w1 listed.items id d (λ x s. (holds x s).0) rows
        (create-stored caller dto d w w1 id e key) (λ p. unpublished d drafted p.0)
