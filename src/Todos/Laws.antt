-- ===== src/Todos/Laws.antt =====
-- What the listings of the todos service show and what its writes do to an owner.
use nestjs_microservice_plat.Prelude.{ℕ, suc, pos, ◌≤◌, ◌≡◌, ◌≢◌, ap, String, some, All, length}
use nestjs_microservice_plat.Js.{Value, null, str, date, Object, or_num}
use nestjs_microservice_plat.Action.{ok, Action}
use nestjs_microservice_plat.Database.{Model, ModelLaws, by_id, fields, no_options, Satisfies}
use nestjs_microservice_plat.Database.Repository.{Page}
use nestjs_microservice_plat.Database.RepositoryLaws.{
  update_by_id-ok, soft_delete-ok, find_by_id-soft_delete, find_and_count-page,
  find_and_count-hidden,
}
use nestjs_microservice_plat.Todos.Controller.{PageDto}
use nestjs_microservice_plat.Todos.Controller as TodosController

-- The three handlers that list todos.
pub data Listing : Type 0 where
  by_user all_of : PageDto → Listing
  by_status : PageDto → String → Listing

abbrev pub dto_of : Listing → PageDto
dto_of (by_user dto) = dto
dto_of (all_of dto) = dto
dto_of (by_status dto s) = dto

module _ {W : Type 0} (model : Model W) where
  unfoldable pub list_todos : Listing → Action W Page
  unfolding TodosController.find_by_user TodosController.list TodosController.find_by_status
  list_todos (by_user dto) = TodosController.find_by_user model dto
  list_todos (all_of dto) = TodosController.list model dto
  list_todos (by_status dto s) = TodosController.find_by_status model dto s

-- A todo of this user that is not deleted.
abbrev pub IsLiveOf : String → Object → Type 0
IsLiveOf user d = Satisfies d ("userId", str user) × Satisfies d ("deletedAt", null)

-- What a listing may show: live todos of its user, and of its status if it asks for one.
abbrev pub Shown : Listing → Object → Type 0
Shown (by_user dto) d = IsLiveOf dto.user_id d
Shown (all_of dto) d = IsLiveOf dto.user_id d
Shown (by_status dto s) d = IsLiveOf dto.user_id d × Satisfies d ("status", str s)

module _ {W : Type 0} (model : Model W) {Fits : String → Value → Type 0}
    (laws : ModelLaws model Fits) where
  -- On a model that satisfies ModelLaws and where the limit, 10 if it is 0 or left out, is
  -- positive: whatever handler lists todos, each item belongs to the user that was asked for, is
  -- not deleted and has the status asked for, if any; there are at most limit items and nothing
  -- changes.
  pub list_todos-Shown :
      (l : Listing) (w w' : W) (p : Page) (n : ℕ)
      → list_todos model l w ≡ (ok p, w')
      → or_num (dto_of l).limit (pos 10) ≡ pos (suc n)
      → All (Shown l) p.items × (length p.items ≤ suc n) × (w' ≡ w)
  unfolding list_todos
  list_todos-Shown (by_user dto) w w' p n e h =
      find_and_count-page model laws (IsLiveOf dto.user_id) _ _ w w' p n (λ x s. (s.0, s.1.0)) e
        (ap some h)
  list_todos-Shown (all_of dto) w w' p n e h =
      find_and_count-page model laws (IsLiveOf dto.user_id) _ _ w w' p n (λ x s. (s.0, s.1.0)) e
        (ap some h)
  list_todos-Shown (by_status dto s) w w' p n e h =
      find_and_count-page model laws (Shown (by_status dto s)) _ _ w w' p n
        (λ x c. ((c.0, c.1.1.0), c.1.0)) e (ap some h)

  -- On a model that satisfies ModelLaws and where the schema stores dates in deletedAt as they
  -- are: after a successful delete no listing of todos has the todo, while findById still answers
  -- with it and its deletedAt is the time of the call.
  pub todos_delete-hidden :
      (now : ℕ) (id : String) (w w1 w2 : W) (d : Object) (l : Listing) (p : Page)
      → Fits "deletedAt" (date now)
      → TodosController.delete model now id w ≡ (ok d, w1)
      → list_todos model l w1 ≡ (ok p, w2)
      → All (λ x. x "_id" ≢ some (str id)) p.items
        × (TodosController.find_by_id model id w1 ≡ (ok d, w1))
        × (d "deletedAt" ≡ some (date now))
  unfolding list_todos TodosController.delete TodosController.find_by_id
  todos_delete-hidden now id w w1 w2 d (by_user dto) p h e q = (
    find_and_count-hidden model laws _ _ now id w w1 w2 d p (λ x s. s.1.0) e h q,
    find_by_id-soft_delete model laws now id w w1 d e h,
    (soft_delete-ok model laws now id w w1 d e h).0,
  )
  todos_delete-hidden now id w w1 w2 d (all_of dto) p h e q = (
    find_and_count-hidden model laws _ _ now id w w1 w2 d p (λ x s. s.1.0) e h q,
    find_by_id-soft_delete model laws now id w w1 d e h,
    (soft_delete-ok model laws now id w w1 d e h).0,
  )
  todos_delete-hidden now id w w1 w2 d (by_status dto s) p h e q = (
    find_and_count-hidden model laws _ _ now id w w1 w2 d p (λ x s. s.1.1.0) e h q,
    find_by_id-soft_delete model laws now id w w1 d e h,
    (soft_delete-ok model laws now id w w1 d e h).0,
  )

  -- Where the schema stores the userId as it is: a successful update that carries a userId stores
  -- the todo with that user as its owner, and the updated todo is what the store then holds.
  pub todos_update_takes_over :
      (id user : String) (dto d : Object) (w w' : W)
      → Fits "userId" (str user)
      → dto "userId" ≡ some (str user)
      → TodosController.update model id dto w ≡ (ok d, w')
      → (d "userId" ≡ some (str user)) × (model.find_one (by_id id) w' ≡ ok (some d))
  unfolding TodosController.update
  todos_update_takes_over id user dto d w w' h u e =
      update_by_id-ok model laws id (fields dto) no_options w w' d "userId" (str user) e u h
