-- ===== src/Auth/TokenService.antt =====
-- libs/auth/src/token.service.ts. The id that `uuidv4` mints is a parameter.
use nestjs_microservice_plat.Prelude.{String, Option, none, some}
use nestjs_microservice_plat.Js.{Object, str, put, default}
use nestjs_microservice_plat.Errors.{error}
use nestjs_microservice_plat.Action.{Action, pure, throw, query, ◌>>=◌}
use nestjs_microservice_plat.Auth.{Jwt}

-- The settings under `jwt`, where they are configured.
pub record JwtConfig : Type 0 where
  pub access_secret : Option String
  pub access_expires_in : Option String
  pub refresh_secret : Option String
  pub refresh_expires_in : Option String

-- `TokenPair & { tokenId }`
pub record TokenPair : Type 0 where
  pub access_token : String
  pub refresh_token : String
  pub access_token_expires_in : String
  pub refresh_token_expires_in : String
  pub token_id : String

-- `config.getOrThrow`, whose message names the key, which is left out here
abbrev pub get_or_throw : {W : Type 0} → Option String → Action W String
get_or_throw none = throw (error "Configuration key does not exist")
get_or_throw (some s) = pure s

-- `{ ...payload, tokenId }`
abbrev pub refresh_payload : Object → String → Object
refresh_payload payload token_id = put "tokenId" (str token_id) payload

module _ {W : Type 0} (jwt : Jwt W) (config : JwtConfig) where
  unfoldable pub issue_token_pair : String → Object → Action W TokenPair
  issue_token_pair token_id payload = do
    let access_expires_in = default config.access_expires_in "15m"
    let refresh_expires_in = default config.refresh_expires_in "7d"
    access_secret ← get_or_throw config.access_secret
    access ← query (jwt.sign payload (some access_secret) access_expires_in)
    refresh_secret ← get_or_throw config.refresh_secret
    refresh ←
        query (jwt.sign (refresh_payload payload token_id) (some refresh_secret) refresh_expires_in)
    pure (record {
      access_token = access;
      refresh_token = refresh;
      access_token_expires_in = access_expires_in;
      refresh_token_expires_in = refresh_expires_in;
      token_id = token_id;
    })

  unfoldable pub verify_access : String → Action W Object
  verify_access token = do
    secret ← get_or_throw config.access_secret
    query (jwt.verify token (some secret))

  unfoldable pub verify_refresh : String → Action W Object
  verify_refresh token = do
    secret ← get_or_throw config.refresh_secret
    query (jwt.verify token (some secret))
