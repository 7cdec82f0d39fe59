-- ===== src/Http/Posts.antt =====
-- The routes of apps/posts-service that change a post, as Nest runs them.
use nestjs_microservice_plat.Prelude.{
  ◌≡◌, ◌≢◌, refl, ◌∙◌, ap, ◌⊎◌, inl, inr, String, Option, none, some,
}
use nestjs_microservice_plat.Js.{Object, str}
use nestjs_microservice_plat.Errors.{Exception, error}
use nestjs_microservice_plat.Errors.AllExceptions.{http_catch}
use nestjs_microservice_plat.Action.{ok, err, Action, throw, pure, ◌>>=◌, Result-cases}
use nestjs_microservice_plat.Constants.{JwtPayload}
use nestjs_microservice_plat.Constants.CommonRole as CommonRole
use nestjs_microservice_plat.Database.{Model}
use nestjs_microservice_plat.Interceptors.{Answer, object}
use nestjs_microservice_plat.Gateway.Access.{bare}
use nestjs_microservice_plat.Posts.Controller.{not_allowed}
use nestjs_microservice_plat.Posts.Ownership.{
  Mutation, mutate, MayEdit, mutate_guarded, mutate_refused, stranger_is_foreign,
}
use nestjs_microservice_plat.Http.{uncovered, Call, guard, filter, finish, serve}
use nestjs_microservice_plat.Http.Laws.{serve-ok, serve-err, guard-user}

-- The handler of a route that changes a post, with `request.user`. These routes have no decorator
-- that the guards read.
unfoldable pub change_post :
    {W : Type 0} → Model W → Mutation → String → Option JwtPayload → Action W Answer
unfolding mutate
change_post model m id (some user) = do post ← mutate model m id user; pure (object post)
change_post model m id none = throw (error "Cannot read properties of undefined (reading 'sub')")

-- What becomes of an exception of the handler.
change_post-err :
    {W : Type 0} (model : Model W) (m : Mutation) (id : String) (c : Call) (u : JwtPayload) (w : W)
    (e : Exception)
    → guard bare bare c ≡ ok (some u)
    → mutate model m id u w ≡ (err e, w)
    → serve bare bare c (change_post model m id) w ≡ (filter c.request e, w)
unfolding change_post finish
change_post-err model m id c u w e passed refusal =
    serve-ok bare bare c (change_post model m id) w (some u) passed ∙ rw refusal refl

-- Whatever request Nest runs for the routes that update, delete or publish a post: either passport
-- accepted the token of a caller who wrote the stored post or has the role "ADMIN", or the request
-- ends in an error and the store is as it was.
pub change_post-guarded :
    {W : Type 0} (model : Model W) (m : Mutation) (id : String) (c : Call) (w : W)
    → ((u : JwtPayload) × (post : Object) × (c.verdict.user ≡ some u)
        × (model.find_by_id id w ≡ ok (some post))
        × MayEdit post u)
      ⊎ ((e : Exception) × (serve bare bare c (change_post model m id) w ≡ (filter c.request e, w)))
change_post-guarded model m id c w = elim (Result-cases (guard bare bare c)) [
  | inr (e, refusal) ↦ inr (e, serve-err bare bare c (change_post model m id) w e refusal)
  | inl (user, passed) ↦
      let (u, is, accepted) = guard-user bare c user refl passed in
      elim (mutate_guarded model m id u w) [
        | inl (post, found, may) ↦ inl (u, post, accepted, found, may)
        | inr (e, refusal) ↦ inr (e, change_post-err model m id c u w e (passed ∙ ap ok is) refusal)
      ]
]

-- A caller whom the guards let in with the role "admin" of @app/common, and who did not write the
-- stored post, is refused to update, delete or publish it with nothing changed, by an exception
-- that HttpExceptionFilter does not cover.
pub common_admin-uncovered :
    {W : Type 0} (model : Model W) (m : Mutation) (id : String) (c : Call) (u : JwtPayload) (w : W)
    (post : Object)
    → guard bare bare c ≡ ok (some u)
    → u.role ≡ CommonRole.role_text CommonRole.admin
    → model.find_by_id id w ≡ ok (some post)
    → post "userId" ≢ some (str u.sub)
    → serve bare bare c (change_post model m id) w ≡ (uncovered (error "Unauthorized"), w)
unfolding filter http_catch
common_admin-uncovered model m id c u w post passed admin found other =
    change_post-err model m id c u w not_allowed passed
      (mutate_refused model m id u w post found (stranger_is_foreign post u admin other))
