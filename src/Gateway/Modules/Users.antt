-- ===== src/Gateway/Modules/Users.antt =====
-- apps/api-gateway/src/modules/user: user.service.ts and user.controller.ts.
use nestjs_microservice_plat.Prelude.{ℕ, ℤ, String, List, Option}
use nestjs_microservice_plat.Js.{str, bool, date, Object, empty, put, spread, default}
use nestjs_microservice_plat.Prelude.{true, []}
use nestjs_microservice_plat.Constants.{JwtPayload}
use nestjs_microservice_plat.Config.Numbers.{parse_int}

-- `{ items: [], total: 0, page, limit }`; a number that is `none` is `NaN`.
pub record UserPage : Type 0 where
  pub items : List Object
  pub total : ℕ
  pub page : Option ℤ
  pub limit : Option ℤ

-- `now` is `new Date()`.
unfoldable pub get_user_by_id : ℕ → String → Object
get_user_by_id now id = put "id" (str id) (
    put "email" (str "user@example.com")
      (put "name" (str "User Name") (put "role" (str "user") (put "createdAt" (date now) empty))))

-- `{ id: 'generated-id', ...dto, createdAt }`
unfoldable pub create_user : ℕ → Object → Object
create_user now dto = put "createdAt" (date now) (spread (put "id" (str "generated-id") empty) dto)

-- `{ id, ...dto, updatedAt }`
unfoldable pub update_user : ℕ → String → Object → Object
update_user now id dto = put "updatedAt" (date now) (spread (put "id" (str id) empty) dto)

unfoldable pub delete_user : String → Object
delete_user id = put "success" (bool true) empty

unfoldable pub list_users : Option ℤ → Option ℤ → UserPage
list_users page limit = record { items = []; total = 0; page = page; limit = limit }

-- The routes of `UserController`.
pub data Route : Type 0 where
  me_route : Route
  find_route delete_route : String → Route
  create_route : Object → Route
  update_route : String → Object → Route
  list_route : Option String → Option String → Route

pub data Answer : Type 0 where
  user : Object → Answer
  page : UserPage → Answer

unfoldable pub controller : ℕ → JwtPayload → Route → Answer
unfolding get_user_by_id create_user update_user delete_user list_users
controller now caller me_route = user (get_user_by_id now caller.sub)
controller now caller (find_route id) = user (get_user_by_id now id)
controller now caller (delete_route id) = user (delete_user id)
controller now caller (create_route dto) = user (create_user now dto)
controller now caller (update_route id dto) = user (update_user now id dto)
controller now caller (list_route number size) =
    page (list_users (parse_int (default number "1")) (parse_int (default size "10")))
