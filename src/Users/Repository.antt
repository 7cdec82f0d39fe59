-- ===== src/Users/Repository.antt =====
-- apps/user-service/src/users.repository.ts
use nestjs_microservice_plat.Prelude.{ℤ, String, [], ◌∷◌, Option, some, false}
use nestjs_microservice_plat.Js.{Object, str}
use nestjs_microservice_plat.Action.{Action}
use nestjs_microservice_plat.Database.{Model}
use nestjs_microservice_plat.Database.Repository.{Page, find_and_count, find_one}

module _ {W : Type 0} (model : Model W) where
  unfoldable pub find_by_email : String → Action W (Option Object)
  find_by_email email = find_one model (("email", str email) ∷ [])

  unfoldable pub list : ℤ → ℤ → Action W Page
  list skip limit =
      find_and_count model []
        (record { skip = some skip; limit = some limit; sort = []; return_new = false })
