-- ===== src/Constants/Role.antt =====
-- The `UserRole` of @app/constants and its ranks (libs/constants/src/roles.constants.ts).
use nestjs_microservice_plat.Prelude.{ℕ, String, Option, none, some, ◌==◌, if◌then◌else◌}

pub data UserRole : Type 0 where
  super_admin admin user guest : UserRole

-- the text of a member
abbrev pub role_text : UserRole → String
role_text super_admin = "SUPER_ADMIN"
role_text admin = "ADMIN"
role_text user = "USER"
role_text guest = "GUEST"

-- `ROLE_RANK`
abbrev pub rank : UserRole → ℕ
rank super_admin = 100
rank admin = 50
rank user = 10
rank guest = 1

-- `ROLE_RANK[text]`, which is `undefined` for a text that is no member
abbrev pub role_rank : String → Option ℕ
role_rank s =
    if s == "SUPER_ADMIN"
    then some (rank super_admin)
    else if s == "ADMIN"
    then some (rank admin)
    else if s == "USER"
    then some (rank user)
    else if s == "GUEST"
    then some (rank guest)
    else none
