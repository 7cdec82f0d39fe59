-- ===== src/Books/Laws.antt =====
-- What the listings of the books service show and what its writes do to an owner.
use nestjs_microservice_plat.Prelude.{
  ℕ, Bool, suc, pos, ◌≤◌, ◌≡◌, ◌≢◌, ap, String, some, All, length,
}
use nestjs_microservice_plat.Js.{Value, null, bool, str, date, Object, or_num}
use nestjs_microservice_plat.Action.{ok, Action}
use nestjs_microservice_plat.Database.{Model, ModelLaws, by_id, fields, no_options, Satisfies}
use nestjs_microservice_plat.Database.Repository.{Page}
use nestjs_microservice_plat.Database.RepositoryLaws.{
  update_by_id-ok, soft_delete-ok, find_by_id-soft_delete, find_and_count-page,
  find_and_count-hidden,
}
use nestjs_microservice_plat.Books.Controller.{PageDto}
use nestjs_microservice_plat.Books.Controller as BooksController

-- The four handlers that list books.
pub data Listing : Type 0 where
  by_user all_of : PageDto → Listing
  by_read_status : PageDto → Bool → Listing
  by_genre : PageDto → String → Listing

abbrev pub dto_of : Listing → PageDto
dto_of (by_user dto) = dto
dto_of (all_of dto) = dto
dto_of (by_read_status dto r) = dto
dto_of (by_genre dto g) = dto

module _ {W : Type 0} (model : Model W) where
  unfoldable pub list_books : Listing → Action W Page
  unfolding BooksController.find_by_user BooksController.list BooksController.find_by_read_status
      BooksController.find_by_genre
  list_books (by_user dto) = BooksController.find_by_user model dto
  list_books (all_of dto) = BooksController.list model dto
  list_books (by_read_status dto r) = BooksController.find_by_read_status model dto r
  list_books (by_genre dto g) = BooksController.find_by_genre model dto g

-- A book of this user that is not deleted.
abbrev pub IsLiveOf : String → Object → Type 0
IsLiveOf user d = Satisfies d ("userId", str user) × Satisfies d ("deletedAt", null)

-- What a listing may show: live books of its user, with the reading
-- status or the genre that it asks for.
abbrev pub Shown : Listing → Object → Type 0
Shown (by_user dto) d = IsLiveOf dto.user_id d
Shown (all_of dto) d = IsLiveOf dto.user_id d
Shown (by_read_status dto r) d = IsLiveOf dto.user_id d × (d "isRead" ≡ some (bool r))
Shown (by_genre dto g) d = IsLiveOf dto.user_id d × Satisfies d ("genres", str g)

module _ {W : Type 0} (model : Model W) {Fits : String → Value → Type 0}
    (laws : ModelLaws model Fits) where
  -- On a model that satisfies ModelLaws and where the limit, 10 if it is 0 or left out, is
  -- positive: whatever handler lists books, each item belongs to the user that was asked for, is
  -- not deleted and has the reading status or genre asked for, if any; there are at most limit
  -- items and nothing changes.
  pub list_books-Shown :
      (l : Listing) (w w' : W) (p : Page) (n : ℕ)
      → list_books model l w ≡ (ok p, w')
      → or_num (dto_of l).limit (pos 10) ≡ pos (suc n)
      → All (Shown l) p.items × (length p.items ≤ suc n) × (w' ≡ w)
  unfolding list_books
  list_books-Shown (by_user dto) w w' p n e h =
      find_and_count-page model laws (IsLiveOf dto.user_id) _ _ w w' p n (λ x s. (s.0, s.1.0)) e
        (ap some h)
  list_books-Shown (all_of dto) w w' p n e h =
      find_and_count-page model laws (IsLiveOf dto.user_id) _ _ w w' p n (λ x s. (s.0, s.1.0)) e
        (ap some h)
  list_books-Shown (by_read_status dto r) w w' p n e h =
      find_and_count-page model laws (Shown (by_read_status dto r)) _ _ w w' p n
        (λ x c. ((c.0, c.1.1.0), c.1.0)) e (ap some h)
  list_books-Shown (by_genre dto g) w w' p n e h =
      find_and_count-page model laws (Shown (by_genre dto g)) _ _ w w' p n
        (λ x c. ((c.0, c.1.1.0), c.1.0)) e (ap some h)

  -- After `delete` no listing of any user has the book, while `findById` still answers with it, its
  -- `deletedAt` set to the time of the call.
  books_delete-hidden :
      (now : ℕ) (id : String) (w w1 w2 : W) (d : Object) (l : Listing) (p : Page)
      → Fits "deletedAt" (date now)
      → BooksController.delete model now id w ≡ (ok d, w1)
      → list_books model l w1 ≡ (ok p, w2)
      → All (λ x. x "_id" ≢ some (str id)) p.items
        × (BooksController.find_by_id model id w1 ≡ (ok d, w1))
        × (d "deletedAt" ≡ some (date now))
  unfolding list_books BooksController.delete BooksController.find_by_id
  books_delete-hidden now id w w1 w2 d (by_user dto) p h e q = (
    find_and_count-hidden model laws _ _ now id w w1 w2 d p (λ x s. s.1.0) e h q,
    find_by_id-soft_delete model laws now id w w1 d e h,
    (soft_delete-ok model laws now id w w1 d e h).0,
  )
  books_delete-hidden now id w w1 w2 d (all_of dto) p h e q = (
    find_and_count-hidden model laws _ _ now id w w1 w2 d p (λ x s. s.1.0) e h q,
    find_by_id-soft_delete model laws now id w w1 d e h,
    (soft_delete-ok model laws now id w w1 d e h).0,
  )
  books_delete-hidden now id w w1 w2 d (by_read_status dto r) p h e q = (
    find_and_count-hidden model laws _ _ now id w w1 w2 d p (λ x s. s.1.1.0) e h q,
    find_by_id-soft_delete model laws now id w w1 d e h,
    (soft_delete-ok model laws now id w w1 d e h).0,
  )
  books_delete-hidden now id w w1 w2 d (by_genre dto g) p h e q = (
    find_and_count-hidden model laws _ _ now id w w1 w2 d p (λ x s. s.1.1.0) e h q,
    find_by_id-soft_delete model laws now id w w1 d e h,
    (soft_delete-ok model laws now id w w1 d e h).0,
  )

  -- An update that carries a `userId`, as those of the gateway do, hands the book over to that user,
  -- whoever owned it: nothing compares it with the owner that is stored.
  books_update_takes_over :
      (id user : String) (dto d : Object) (w w' : W)
      → Fits "userId" (str user)
      → dto "userId" ≡ some (str user)
      → BooksController.update model id dto w ≡ (ok d, w')
      → (d "userId" ≡ some (str user)) × (model.find_one (by_id id) w' ≡ ok (some d))
  unfolding BooksController.update
  books_update_takes_over id user dto d w w' h u e =
      update_by_id-ok model laws id (fields dto) no_options w w' d "userId" (str user) e u h
