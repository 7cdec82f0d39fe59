-- ===== src/Constants.antt =====
-- The names that the applications agree on: libs/common/src/constants/index.ts,
-- libs/constants/src/roles.constants.ts and libs/common/src/interfaces/jwt-payload.interface.ts.
pub mod CommonRole
pub mod Role
pub mod Patterns
use nestjs_microservice_plat.Prelude.{String}

-- `JwtPayload`: a role is a text on the wire.
pub record JwtPayload : Type 0 where
  pub sub : String
  pub email : String
  pub role : String
