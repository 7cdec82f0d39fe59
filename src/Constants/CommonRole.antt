-- ===== src/Constants/CommonRole.antt =====
-- The `UserRole` of @app/common (libs/common/src/constants/index.ts), which the auth service signs
-- into its tokens.
use nestjs_microservice_plat.Prelude.{String}

pub data UserRole : Type 0 where
  admin user guest : UserRole

-- the text of a member
abbrev pub role_text : UserRole → String
role_text admin = "admin"
role_text user = "user"
role_text guest = "guest"
