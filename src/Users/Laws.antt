-- ===== src/Users/Laws.antt =====
-- No answer of the users service carries a password.
use nestjs_microservice_plat.Prelude.{
  ℕ, ◌≡◌, refl, List, [], ◌∷◌, map, none, some, arith, All, inl, inr,
}
use nestjs_microservice_plat.Js.{Object}
use nestjs_microservice_plat.Action.{ok, Result-cases}
use nestjs_microservice_plat.Database.{Model}
use nestjs_microservice_plat.Users.Service.{
  Request, Reply, a_user, maybe_user, a_page, sanitize_user, controller, find_by_id_request,
  find_by_email_request, delete_request, list_request, update_request,
}
use nestjs_microservice_plat.Users.Service as Service
use nestjs_microservice_plat.Users.Repository as UsersRepository

abbrev pub NoPassword : Object → Type 0
NoPassword d = d "password" ≡ none

abbrev pub IsClean : Reply → Type 0
IsClean (a_user d) = NoPassword d
IsClean (maybe_user none) = Unit
IsClean (maybe_user (some d)) = NoPassword d
IsClean (a_page p) = All NoPassword p.items

sanitize_user-NoPassword : (d : Object) → NoPassword (sanitize_user d)
unfolding sanitize_user
sanitize_user-NoPassword d = refl

map-sanitize_user-NoPassword : (ds : List Object) → All NoPassword (map sanitize_user ds)
map-sanitize_user-NoPassword [] = tt
map-sanitize_user-NoPassword (d ∷ ds) =
    (sanitize_user-NoPassword d, map-sanitize_user-NoPassword ds)

module _ {W : Type 0} (model : Model W) (now : ℕ) where
  -- No answer of the users service, whatever pattern is sent, has a document with a password.
  pub controller-IsClean :
      (q : Request) (w w' : W) (r : Reply) → controller model now q w ≡ (ok r, w') → IsClean r
  unfolding controller Service.find_by_id Service.find_by_email Service.list Service.update
      Service.delete sanitize_user
  controller-IsClean (find_by_id_request id) w w' r e = ground arith
  controller-IsClean (find_by_email_request email) w w' r e = ground arith
  controller-IsClean (list_request skip limit) w w' r e =
      elim (Result-cases (UsersRepository.list model skip limit w).0) [
        | inr (x, failed) ↦ absurd (ground arith)
        | inl (p, found) ↦
            let answer : r
                ≡ a_page (record { items = map sanitize_user p.items; total = p.total }) =
              ground arith in
            rw answer (map-sanitize_user-NoPassword p.items)
      ]
  controller-IsClean (update_request id updates) w w' r e = ground arith
  controller-IsClean (delete_request id) w w' r e = ground arith
