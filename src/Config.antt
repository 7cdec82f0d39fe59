-- ===== src/Config.antt =====
-- libs/common/src/config: what the services read of the environment.
pub mod Numbers
pub mod Configuration
pub mod Validation
pub mod Origins
pub mod Laws
pub mod Tests
use nestjs_microservice_plat.Prelude.{String, Option}

-- `process.env`
abbrev pub Env : Type 0
Env = String → Option String
