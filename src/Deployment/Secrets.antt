-- ===== src/Deployment/Secrets.antt =====
-- The secrets of tokens: jwt.strategy.ts and the JwtModule of apps/api-gateway and apps/posts-service,
-- the strategies and the JwtModule of libs/auth, and what apps/auth-service/src/auth.service.ts reads
-- of `process.env`. passport-jwt is a parameter.
use nestjs_microservice_plat.Prelude.{ℕ, String, Bool, true, false, Option, none, some}
use nestjs_microservice_plat.Js.{default}
use nestjs_microservice_plat.Action.{Action, pure, ◌>>=◌}
use nestjs_microservice_plat.Config.{Env}
use nestjs_microservice_plat.Rabbit.Module.{ConfigService, get_or_throw}
use nestjs_microservice_plat.Auth.{Settings}
use nestjs_microservice_plat.Auth.Strategies.{Extractor, jwt_from_request}

-- What a strategy hands to passport-jwt.
pub record StrategyOptions : Type 0 where
  pub token_from : Extractor
  pub ignore_expiration : Bool
  pub secret_or_key : String
  pub pass_req_to_callback : Bool

-- What a JwtModule is registered with.
pub record JwtModuleOptions : Type 0 where
  pub secret : String
  pub expires_in : Option String

module _ {W : Type 0} (config : ConfigService) where
  -- the constructor of `JwtStrategy`, in the gateway and in the posts service
  unfoldable pub jwt_strategy_options : Extractor → Action W StrategyOptions
  jwt_strategy_options from_header = do
    secret ← get_or_throw config "JWT_ACCESS_SECRET"
    pure (record {
      token_from = from_header;
      ignore_expiration = false;
      secret_or_key = secret;
      pass_req_to_callback = false;
    })

  -- the constructor of `JwtAccessStrategy`
  unfoldable pub access_strategy_options : Extractor → Action W StrategyOptions
  access_strategy_options from_header = do
    secret ← get_or_throw config "jwt.accessSecret"
    pure (record {
      token_from = from_header;
      ignore_expiration = false;
      secret_or_key = secret;
      pass_req_to_callback = false;
    })

  -- the constructor of `JwtRefreshStrategy`
  unfoldable pub refresh_strategy_options :
      (Extractor → Extractor → Extractor) → Extractor → Action W StrategyOptions
  unfolding jwt_from_request
  refresh_strategy_options from_extractors from_header = do
    secret ← get_or_throw config "jwt.refreshSecret"
    pure (record {
      token_from = jwt_from_request from_extractors from_header;
      ignore_expiration = false;
      secret_or_key = secret;
      pass_req_to_callback = true;
    })

  -- the JwtModule of the gateway and of the posts service
  unfoldable pub app_jwt_options : Action W JwtModuleOptions
  app_jwt_options = do
    secret ← get_or_throw config "JWT_ACCESS_SECRET"
    pure (record {
      secret = secret;
      expires_in = some (default (config.text_at "JWT_ACCESS_EXPIRES_IN") "15m");
    })

  -- the JwtModule of libs/auth
  unfoldable pub lib_jwt_options : Action W JwtModuleOptions
  lib_jwt_options = do
    secret ← get_or_throw config "jwt.accessSecret"
    pure (record {
      secret = secret;
      expires_in = some (default (config.text_at "jwt.accessExpiresIn") "15m");
    })

  -- the JwtModule of the auth service
  unfoldable pub auth_jwt_options : Action W JwtModuleOptions
  auth_jwt_options = do
    secret ← get_or_throw config "JWT_ACCESS_SECRET"
    pure (record { secret = secret; expires_in = none })

-- What the auth service reads of the environment, where `BCRYPT_ROUNDS` is a number.
abbrev pub auth_settings : Env → ℕ → Settings
auth_settings env rounds = record {
  bcrypt_rounds = rounds;
  access_secret = env "JWT_ACCESS_SECRET";
  access_expires_in = env "JWT_ACCESS_EXPIRES_IN";
  refresh_secret = env "JWT_REFRESH_SECRET";
  refresh_expires_in = env "JWT_REFRESH_EXPIRES_IN";
}
