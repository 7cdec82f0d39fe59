-- ===== src/Posts/Ownership.antt =====
-- Who may change a post: the checks of posts.controller.ts, and what its listings show.
use nestjs_microservice_plat.Prelude.{
  ℕ, suc, ℤ, pos, ◌≤◌, ◌≡◌, refl, ◌∙◌, ◌≢◌, ◌⊎◌, inl, inr, ap, String, [], ◌∷◌, true, false, Option,
  none, some, arith, eq_iff, All, length, ◌==◌, Bool-cases, Option-cases, if◌then◌else◌,
}
use nestjs_microservice_plat.Js.{Value, null, str, Object, is_text, put, empty, default}
use nestjs_microservice_plat.Errors.{Exception, not_found}
use nestjs_microservice_plat.Action.{ok, err, Action, throw, ◌>>=◌, Result-cases}
use nestjs_microservice_plat.Constants.{JwtPayload}
use nestjs_microservice_plat.Constants.CommonRole as CommonRole
use nestjs_microservice_plat.Database.{Filter, Model, ModelLaws, Satisfies}
use nestjs_microservice_plat.Database.Repository as Base
use nestjs_microservice_plat.Database.Repository.{Page, find_and_count}
use nestjs_microservice_plat.Database.RepositoryLaws.{find_and_count-page}
use nestjs_microservice_plat.Posts.Repository as PostsRepository
use nestjs_microservice_plat.Posts.Repository.{newest_first}
use nestjs_microservice_plat.Posts.Service as PostsService
use nestjs_microservice_plat.Posts.Controller as PostsController
use nestjs_microservice_plat.Posts.Controller.{not_allowed}

-- The routes that change a post under a check of its owner.
pub data Mutation : Type 0 where
  update : Object → Mutation
  delete : ℕ → Mutation
  publish : Mutation

-- What the check means: the user wrote the post or has the role "ADMIN".
abbrev pub MayEdit : Object → JwtPayload → Type 0
MayEdit post user = (post "userId" ≡ some (str user.sub)) ⊎ (user.role ≡ "ADMIN")

is_text_eq : (v : Option Value) (s : String) → is_text v s ≡ true → v ≡ some (str s)
is_text_eq (some (str t)) s h = ground (arith, eq_iff t s)
is_text_eq v s h = cc

foreign-MayEdit :
    (post : Object) (user : JwtPayload)
    → PostsController.is_foreign post user ≡ false
    → MayEdit post user
foreign-MayEdit post user h =
    ground (arith, is_text_eq (post "userId") user.sub, eq_iff user.role "ADMIN")

pub stranger_is_foreign :
    (post : Object) (user : JwtPayload)
    → user.role ≡ CommonRole.role_text CommonRole.admin
    → post "userId" ≢ some (str user.sub)
    → PostsController.is_foreign post user ≡ true
stranger_is_foreign post user admin other =
    rw admin (ground (arith, is_text_eq (post "userId") user.sub))

module _ {W : Type 0} (model : Model W) where
  unfoldable pub mutate : Mutation → String → JwtPayload → Action W Object
  mutate (update dto) id user = PostsController.update model id user dto
  mutate (delete now) id user = PostsController.delete model now id user
  mutate publish id user = PostsController.publish model id user

  -- `findById`, the check, and what the route does then.
  abbrev checked : Action W Object → String → JwtPayload → Action W Object
  checked k id user = do
    post ← PostsService.find_by_id model id
    if PostsController.is_foreign post user then throw not_allowed else k

  checked_guarded :
      (k : Action W Object) (id : String) (user : JwtPayload) (w : W)
      → ((post : Object) × (model.find_by_id id w ≡ ok (some post)) × MayEdit post user)
        ⊎ ((e : Exception) × (checked k id user w ≡ (err e, w)))
  unfolding PostsService.find_by_id Base.find_by_id
  checked_guarded k id user w = elim (Result-cases (model.find_by_id id w)) [
    | inr (e, failed) ↦ inr (e, rw failed)
    | inl (found, e) ↦ elim (Option-cases found) [
      | inl missing ↦ inr (not_found (Base.no_document id), rw (e, missing))
      | inr (post, there) ↦ elim (Bool-cases (PostsController.is_foreign post user)) [
        | inl foreign ↦ inr (not_allowed, rw (e, there, foreign))
        | inr own ↦ inl (post, rw (e, there), foreign-MayEdit post user own)
      ]
    ]
  ]

  checked_refused :
      (k : Action W Object) (id : String) (user : JwtPayload) (w : W) (post : Object)
      → model.find_by_id id w ≡ ok (some post)
      → PostsController.is_foreign post user ≡ true
      → checked k id user w ≡ (err not_allowed, w)
  unfolding PostsService.find_by_id Base.find_by_id
  checked_refused k id user w post found foreign = rw (found, foreign)

  -- Updating, deleting or publishing a post either is called by the author of the stored post or
  -- by a user whose role is "ADMIN", or ends in an error and leaves the store as it was.
  pub mutate_guarded :
      (m : Mutation) (id : String) (user : JwtPayload) (w : W)
      → ((post : Object) × (model.find_by_id id w ≡ ok (some post)) × MayEdit post user)
        ⊎ ((e : Exception) × (mutate m id user w ≡ (err e, w)))
  unfolding mutate PostsController.update PostsController.delete PostsController.publish
  mutate_guarded (update dto) id user w =
      checked_guarded (PostsService.update model id dto) id user w
  mutate_guarded (delete now) id user w =
      checked_guarded (PostsService.delete model now id) id user w
  mutate_guarded publish id user w =
      checked_guarded (PostsService.update model id (put "status" (str "published") empty)) id user
        w

  -- A stranger is refused with nothing changed.
  pub mutate_refused :
      (m : Mutation) (id : String) (user : JwtPayload) (w : W) (post : Object)
      → model.find_by_id id w ≡ ok (some post)
      → PostsController.is_foreign post user ≡ true
      → mutate m id user w ≡ (err not_allowed, w)
  unfolding mutate PostsController.update PostsController.delete PostsController.publish
  mutate_refused (update dto) id user w post found foreign =
      checked_refused (PostsService.update model id dto) id user w post found foreign
  mutate_refused (delete now) id user w post found foreign =
      checked_refused (PostsService.delete model now id) id user w post found foreign
  mutate_refused publish id user w post found foreign =
      checked_refused (PostsService.update model id (put "status" (str "published") empty)) id user
        w post found foreign

-- What the public listing may show: live posts that are published, with the tag if one is given.
abbrev pub IsPublished : Object → Type 0
IsPublished d = Satisfies d ("status", str "published") × Satisfies d ("deletedAt", null)

abbrev pub HasTag : Option String → Object → Type 0
HasTag none d = Unit
HasTag (some t) d = if t == "" then Unit else Satisfies d ("tags", str t)

-- The public listing is one search, for published live posts with the tag.
pub list-find :
    {W : Type 0} (model : Model W) (page limit : Option ℤ) (tag : Option String) (w : W)
    → (f : Filter) × (find_and_count model f
          (newest_first
            (PostsController.skip_of (default page (pos 1)) (default limit (pos 10)))
            (default limit (pos 10)))
          w
        ≡ PostsController.list model page limit tag w)
      × ((x : Object) → All (Satisfies x) f → IsPublished x × HasTag tag x)
unfolding PostsController.list PostsService.list PostsService.find_by_tag
    PostsService.find_published PostsRepository.find_published PostsRepository.find_by_tag
list-find model page limit none w =
    (("status", str "published") ∷ ("deletedAt", null) ∷ [], refl, λ x c. ((c.0, c.1.0), tt))
list-find model page limit (some t) w = elim (Bool-cases (t == "")) [
  | inl no_tag ↦ (
    ("status", str "published") ∷ ("deletedAt", null) ∷ [],
    rw no_tag refl,
    λ x c. ((c.0, c.1.0), rw no_tag tt),
  )
  | inr tagged ↦ (
    ("tags", str t) ∷ ("status", str "published") ∷ ("deletedAt", null) ∷ [],
    rw tagged refl,
    λ x c. ((c.1.0, c.1.1.0), rw tagged c.0),
  )
]

module _ {W : Type 0} (model : Model W) {Fits : String → Value → Type 0}
    (laws : ModelLaws model Fits) where
  -- On a model that satisfies ModelLaws and where the limit, 10 if there is none, is positive: the
  -- public listing of posts shows published posts that are not deleted, all with the tag asked
  -- for, at most limit of them, and changes nothing.
  pub list-IsPublished :
      (page limit : Option ℤ) (tag : Option String) (w w' : W) (p : Page) (n : ℕ)
      → PostsController.list model page limit tag w ≡ (ok p, w')
      → default limit (pos 10) ≡ pos (suc n)
      → All (λ d. IsPublished d × HasTag tag d) p.items × (length p.items ≤ suc n) × (w' ≡ w)
  unfolding PostsController.list
  list-IsPublished page limit tag w w' p n e h =
      let (f, same, holds) = list-find model page limit tag w in
      find_and_count-page model laws (λ d. IsPublished d × HasTag tag d) f _ w w' p n holds
        (same ∙ e) (ap some h)

  -- On a model that satisfies ModelLaws and where the limit, 10 if there is none, is positive: if
  -- the posts of a user are listed, the caller is that user or has the role "ADMIN", none of them
  -- is deleted or of another user, there are at most limit of them and nothing changes.
  pub get_user_posts_guarded :
      (user_id : String) (page limit : Option ℤ) (user : JwtPayload) (w w' : W) (p : Page) (n : ℕ)
      → PostsController.get_user_posts model user_id page limit user w ≡ (ok p, w')
      → default limit (pos 10) ≡ pos (suc n)
      → ((user.sub ≡ user_id) ⊎ (user.role ≡ "ADMIN"))
        × All (λ d. Satisfies d ("userId", str user_id) × Satisfies d ("deletedAt", null)) p.items
        × (length p.items ≤ suc n)
        × (w' ≡ w)
  unfolding PostsController.get_user_posts
  get_user_posts_guarded user_id page limit user w w' p n e h =
      let found : PostsService.find_by_user model user_id
            (PostsController.skip_of (default page (pos 1)) (default limit (pos 10)))
            (default limit (pos 10)) w
          ≡ (ok p, w') =
        ground arith in
      let allowed : (user.sub ≡ user_id) ⊎ (user.role ≡ "ADMIN") =
        ground (arith, eq_iff user.sub user_id, eq_iff user.role "ADMIN") in
      let (live, short, same) =
        find_and_count-page model laws
          (λ d. Satisfies d ("userId", str user_id) × Satisfies d ("deletedAt", null)) _ _ w w' p n
          (λ x c. (c.0, c.1.0)) found (ap some h) in
      (allowed, live, short, same)
