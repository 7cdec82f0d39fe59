-- ===== src/Dto.antt =====
-- libs/dto/src and the DTOs of apps/api-gateway/src/modules: what their decorators tell
-- class-validator of each field. Decorators of Swagger are left out.
pub mod Password
pub mod Validation
pub mod Laws
pub mod Tests
use nestjs_microservice_plat.Prelude.{ℕ, pos, String, List, [], ◌∷◌, ◌++◌, map}
use nestjs_microservice_plat.Js.{Value, num, str}
use nestjs_microservice_plat.Constants.Role.{role_text, super_admin, admin, user, guest}

-- A decorator: `at_least` and `at_most` are `@Min` and `@Max`, `strong` is `@Matches` with the
-- expression for passwords, `to_int` is the `@Transform` with `parseInt`, and `initially` the value
-- of a field that the client leaves out.
pub data Rule : Type 0 where
  is_string is_email is_int is_optional strong to_int : Rule
  min_length max_length at_least at_most : ℕ → Rule
  is_in : List String → Rule
  initially : Value → Rule

abbrev pub Dto : Type 0
Dto = List (String × List Rule)

-- `@IsEnum(UserRole)`
abbrev pub is_role : Rule
is_role = is_in (map role_text (super_admin ∷ admin ∷ user ∷ guest ∷ []))

-- libs/dto/src/auth
abbrev pub login_dto : Dto
login_dto =
    ("email", is_email ∷ max_length 254 ∷ [])
    ∷ ("password", is_string ∷ min_length 1 ∷ max_length 128 ∷ [])
    ∷ []

abbrev pub register_dto : Dto
register_dto =
    ("email", is_email ∷ max_length 254 ∷ [])
    ∷ ("name", is_string ∷ min_length 2 ∷ max_length 80 ∷ [])
    ∷ ("password", is_string ∷ min_length 8 ∷ max_length 128 ∷ strong ∷ [])
    ∷ []

abbrev pub refresh_dto : Dto
refresh_dto = ("refreshToken", is_string ∷ []) ∷ []

-- libs/dto/src/common
abbrev pub pagination_dto : Dto
pagination_dto =
    ("page", is_optional ∷ to_int ∷ is_int ∷ at_least 1 ∷ initially (num (pos 1)) ∷ [])
    ∷ (
      "limit",
      is_optional ∷ to_int ∷ is_int ∷ at_least 1 ∷ at_most 100 ∷ initially (num (pos 20)) ∷ [],
    )
    ∷ ("sortBy", is_optional ∷ is_string ∷ initially (str "createdAt") ∷ [])
    ∷ ("sortOrder", is_optional ∷ is_in ("asc" ∷ "desc" ∷ []) ∷ initially (str "desc") ∷ [])
    ∷ ("search", is_optional ∷ is_string ∷ [])
    ∷ []

-- libs/dto/src/user
abbrev pub list_users_dto : Dto
list_users_dto = pagination_dto ++ ("role", is_optional ∷ is_role ∷ []) ∷ []

abbrev pub change_password_dto : Dto
change_password_dto =
    ("currentPassword", is_string ∷ min_length 1 ∷ max_length 128 ∷ [])
    ∷ ("newPassword", is_string ∷ min_length 8 ∷ max_length 128 ∷ strong ∷ [])
    ∷ []

abbrev pub create_user_dto : Dto
create_user_dto =
    ("email", is_email ∷ max_length 254 ∷ [])
    ∷ ("name", is_string ∷ min_length 2 ∷ max_length 80 ∷ [])
    ∷ ("password", is_string ∷ min_length 8 ∷ max_length 128 ∷ [])
    ∷ ("role", is_optional ∷ is_role ∷ initially (str (role_text user)) ∷ [])
    ∷ []

abbrev pub update_user_dto : Dto
update_user_dto =
    ("name", is_optional ∷ is_string ∷ min_length 2 ∷ max_length 80 ∷ [])
    ∷ ("role", is_optional ∷ is_role ∷ [])
    ∷ []

-- The DTOs of apps/api-gateway/src/modules.
abbrev pub mod_register_dto : Dto
mod_register_dto =
    ("email", is_email ∷ [])
    ∷ ("name", is_string ∷ min_length 2 ∷ max_length 100 ∷ [])
    ∷ ("password", is_string ∷ min_length 8 ∷ max_length 100 ∷ [])
    ∷ []

abbrev pub mod_login_dto : Dto
mod_login_dto = ("email", is_email ∷ []) ∷ ("password", is_string ∷ min_length 8 ∷ []) ∷ []

abbrev pub mod_refresh_token_dto : Dto
mod_refresh_token_dto = ("refreshToken", is_string ∷ []) ∷ []

abbrev pub mod_update_user_dto : Dto
mod_update_user_dto =
    ("email", is_optional ∷ is_email ∷ [])
    ∷ ("name", is_optional ∷ is_string ∷ min_length 2 ∷ max_length 100 ∷ [])
    ∷ ("phone", is_optional ∷ is_string ∷ [])
    ∷ []
