-- ===== src/Database/UserSchemas.antt =====
-- The schemas of users that the services declare for themselves: schemas/user.schema.ts of
-- apps/user-service/src and of apps/auth-service/src, and libs/database/src/base.schema.ts.
use nestjs_microservice_plat.Prelude.{pos, ◌≡◌, refl, [], ◌∷◌, true}
use nestjs_microservice_plat.Js.{null, bool, num, strs}
use nestjs_microservice_plat.Database.Schema.{
  required, unique, lowercase, initially, Schema, user_schema, default_at,
}

-- `UserSchema` of apps/user-service
abbrev pub user_service_schema : Schema
user_service_schema =
    ("email", required ∷ unique ∷ lowercase ∷ [])
    ∷ ("name", required ∷ [])
    ∷ ("phone", [])
    ∷ ("roles", initially (strs ("user" ∷ [])) ∷ [])
    ∷ ("isActive", initially (bool true) ∷ [])
    ∷ ("lastLoginAt", [])
    ∷ ("deletedAt", initially null ∷ [])
    ∷ []

-- `UserSchema` of apps/auth-service
abbrev pub auth_service_schema : Schema
auth_service_schema =
    ("email", required ∷ unique ∷ lowercase ∷ [])
    ∷ ("password", required ∷ [])
    ∷ ("name", required ∷ [])
    ∷ ("roles", initially (strs ("user" ∷ [])) ∷ [])
    ∷ ("isActive", initially (bool true) ∷ [])
    ∷ ("deletedAt", initially null ∷ [])
    ∷ []

-- `BaseSchema`
abbrev pub base_schema : Schema
base_schema = ("deletedAt", initially null ∷ []) ∷ ("__v", initially (num (pos 0)) ∷ []) ∷ []

-- Whichever schema makes an account, it has the role "user" and is not deleted.
accounts_alike :
    (default_at user_service_schema "roles" ≡ default_at user_schema "roles")
    × (default_at auth_service_schema "roles" ≡ default_at user_schema "roles")
    × (default_at user_service_schema "deletedAt" ≡ default_at base_schema "deletedAt")
    × (default_at auth_service_schema "deletedAt" ≡ default_at base_schema "deletedAt")
    × (default_at user_schema "deletedAt" ≡ default_at base_schema "deletedAt")
accounts_alike = (refl, refl, refl, refl, refl)
