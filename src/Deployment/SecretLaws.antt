-- ===== src/Deployment/SecretLaws.antt =====
-- Which tokens of the auth service the gateway and the posts service take.
use Prim.Native.String.{◌++◌}
use nestjs_microservice_plat.Prelude.{
  ℕ, ◌≡◌, ◌≢◌, refl, ◌∙◌, sym, String, false, Option, none, some, arith,
}
use nestjs_microservice_plat.Js.{Object, str, or_text}
use nestjs_microservice_plat.Action.{ok}
use nestjs_microservice_plat.Config.{Env}
use nestjs_microservice_plat.Guards.{Verdict, admit}
use nestjs_microservice_plat.Gateway.Access.{bare}
use nestjs_microservice_plat.Onboarding.{accepted}
use nestjs_microservice_plat.Auth.{Jwt}
use nestjs_microservice_plat.Auth.Service.{
  Tokens, generate_tokens, first_role, token_payload, sign_access, sign_refresh,
}
use nestjs_microservice_plat.Auth.Strategies.{Request, Extractor, Extraction, StartsPlain}
use nestjs_microservice_plat.Deployment.{env_service}
use nestjs_microservice_plat.Deployment.Secrets.{
  StrategyOptions, JwtModuleOptions, jwt_strategy_options, auth_jwt_options, auth_settings,
}

-- The two tokens of a session, and the environments in which they are signed under one secret.
pub data Kind : Type 0 where
  access refresh : Kind

abbrev pub token_of : Kind → Tokens → String
token_of access tokens = tokens.access_token
token_of refresh tokens = tokens.refresh_token

abbrev pub Shares : Env → Kind → Type 0
Shares env access = Unit {0}
Shares env refresh = env "JWT_REFRESH_SECRET" ≡ none

-- `JwtService` of a module with a secret: a token is no empty text and starts with no blank, it
-- verifies under its secret to the claims that were signed as long as it lasts, and a sign without
-- a secret takes that of the module.
pub record JwtLaws {W : Type 0} (jwt : Jwt W) (Lasts : String → W → Type 0) (secret : String)
    : Type 0 where
  pub plain :
      (payload : Object) (s : Option String) (expires token : String) (v : W)
      → jwt.sign payload s expires v ≡ ok token
      → (token ≢ "") × StartsPlain token
  pub verifies :
      (payload : Object) (s : Option String) (expires token : String) (v u : W)
      → jwt.sign payload s expires v ≡ ok token
      → Lasts token u
      → (claims : Object) × (jwt.verify token s u ≡ ok claims)
        × (claims "sub" ≡ payload "sub")
        × (claims "email" ≡ payload "email")
        × (claims "role" ≡ payload "role")
  pub of_module :
      (payload : Object) (expires : String) (v : W)
      → jwt.sign payload none expires v ≡ jwt.sign payload (some secret) expires v

-- passport-jwt: a token that is found and verifies is taken, with what `validate` makes of it.
pub record PassportLaws {W : Type 0} (jwt : Jwt W)
    (authenticate : StrategyOptions → Request → W → Verdict) : Type 0 where
  pub takes :
      (options : StrategyOptions) (request : Request) (token : String) (claims : Object) (u : W)
      → options.ignore_expiration ≡ false
      → options.token_from request ≡ some token
      → jwt.verify token (some options.secret_or_key) u ≡ ok claims
      → authenticate options request u ≡ accepted claims

module _ {W : Type 0} (jwt : Jwt W) (Lasts : String → W → Type 0) (env : Env) where
  signs :
      (rounds : ℕ) (account : Object) (role : String) (tokens : Tokens) (w w' : W)
      → first_role (account "roles") ≡ ok role
      → generate_tokens jwt (auth_settings env rounds) account w ≡ (ok tokens, w')
      → (sign_access jwt (auth_settings env rounds) (token_payload account role) w
          ≡ ok tokens.access_token)
        × (sign_refresh jwt (auth_settings env rounds) (token_payload account role) w
            ≡ ok tokens.refresh_token)
  unfolding generate_tokens
  signs rounds account role tokens w w' is e = ground arith

  -- Both tokens are signed, and the second one under the secret of the first where they share it.
  tokens-signed :
      (rounds : ℕ) (account : Object) (role : String) (tokens : Tokens) (w w' : W)
      (module' : JwtModuleOptions) (kind : Kind)
      → JwtLaws jwt Lasts module'.secret
      → env "JWT_ACCESS_SECRET" ≡ some module'.secret
      → Shares env kind
      → first_role (account "roles") ≡ ok role
      → generate_tokens jwt (auth_settings env rounds) account w ≡ (ok tokens, w')
      → (expires : String) × (jwt.sign (token_payload account role) (some module'.secret) expires w
          ≡ ok (token_of kind tokens))
  tokens-signed rounds account role tokens w w' module' access laws has shares is e =
      let (signed, _) = signs rounds account role tokens w w' is e in
      (or_text (env "JWT_ACCESS_EXPIRES_IN") "15m", rw has at signed)
  tokens-signed rounds account role tokens w w' module' refresh laws has shares is e =
      let (_, signed) = signs rounds account role tokens w w' is e in
      (
        or_text (env "JWT_REFRESH_EXPIRES_IN") "7d",
        sym (laws.of_module (token_payload account role) _ w) ∙ rw shares at signed,
      )

  -- With JwtService, passport-jwt and its extractors as documented, where the auth service and the
  -- gateway or the posts service started from one environment: a request with the access token of
  -- a session in its header, or with the refresh token where the environment has no
  -- JWT_REFRESH_SECRET, is admitted by the guards as the account that the session was made for,
  -- with its first role, as long as the token lasts.
  pub session_tokens_admitted :
      (from_extractors : Extractor → Extractor → Extractor) (from_header : Extractor)
      (authenticate : StrategyOptions → Request → W → Verdict) (rounds : ℕ) (account : Object)
      (id email role : String) (tokens : Tokens) (kind : Kind) (module' : JwtModuleOptions)
      (options : StrategyOptions) (request : Request) (u v v' w w' : W)
      → Extraction from_extractors from_header
      → PassportLaws jwt authenticate
      → JwtLaws jwt Lasts module'.secret
      → auth_jwt_options (env_service env) v ≡ (ok module', v)
      → jwt_strategy_options (env_service env) from_header v' ≡ (ok options, v')
      → Shares env kind
      → account "_id" ≡ some (str id)
      → account "email" ≡ some (str email)
      → first_role (account "roles") ≡ ok role
      → generate_tokens jwt (auth_settings env rounds) account w ≡ (ok tokens, w')
      → request.authorization ≡ some ("Bearer " ++ token_of kind tokens)
      → Lasts (token_of kind tokens) u
      → admit bare bare (authenticate options request u)
        ≡ ok (some (record { sub = id; email = email; role = role }))
  unfolding admit accepted auth_jwt_options jwt_strategy_options
  session_tokens_admitted from_extractors from_header authenticate rounds account id email role
        tokens kind module' options request u v v' w w' extraction passport laws registered started
        shares has_id has_email is generated sent lasts =
      let has : env "JWT_ACCESS_SECRET" ≡ some module'.secret = ground arith in
      let same : some module'.secret ≡ some options.secret_or_key = ground arith in
      let (expires, signed) =
        tokens-signed rounds account role tokens w w' module' kind laws has shares is generated in
      let (given, plain) = laws.plain _ _ expires _ w signed in
      let (claims, verified, sub, mail, held) = laws.verifies _ _ expires _ w u signed lasts in
      let from : options.token_from ≡ from_header = ground arith in
      let taken : authenticate options request u ≡ accepted claims =
        passport.takes options request (token_of kind tokens) claims u (ground arith)
          (rw from (extraction.header request (token_of kind tokens) sent given plain))
          (rw same at verified) in
      let is_id : claims "sub" ≡ some (str id) = sub ∙ rw has_id refl in
      let is_email : claims "email" ≡ some (str email) = mail ∙ rw has_email refl in
      let is_role : claims "role" ≡ some (str role) = held in
      rw (taken, is_id, is_email, is_role) refl
