-- ===== src/Gateway/Modules/Auth.antt =====
-- apps/api-gateway/src/modules/auth: auth.service.ts and auth.controller.ts. `HashUtil` of
-- libs/common/src/utils/hash.util.ts calls bcrypt with 12 rounds where none are given.
use nestjs_microservice_plat.Prelude.{ℕ, String, Bool, [], ◌∷◌, Option, none, some}
use nestjs_microservice_plat.Js.{str, strs, date, Object, empty, put, field, spread, default}
use nestjs_microservice_plat.Errors.{unauthorized}
use nestjs_microservice_plat.Action.{Action, pure, throw, query, try_catch, ◌>>=◌, ◌>>◌}
use nestjs_microservice_plat.Auth.{Bcrypt, Jwt}
use nestjs_microservice_plat.Auth.TokenService.{
  JwtConfig, TokenPair, issue_token_pair, verify_refresh,
}
use nestjs_microservice_plat.Constants.Role.{role_text, user}

-- `HashUtil.hashPassword(plain, saltRounds = 12)`
unfoldable pub hash_password : {W : Type 0} → Bcrypt W → String → Option ℕ → Action W String
hash_password bcrypt plain salt_rounds = bcrypt.hash plain (default salt_rounds 12)

-- `HashUtil.comparePassword`
unfoldable pub compare_password : {W : Type 0} → Bcrypt W → String → String → Action W Bool
compare_password bcrypt plain hashed = query (bcrypt.compare plain (some hashed))

-- The DTOs, whose fields the decorators require.
pub record RegisterDto : Type 0 where
  pub email : String
  pub name : String
  pub password : String

pub record LoginDto : Type 0 where
  pub email : String
  pub password : String

pub record RefreshTokenDto : Type 0 where
  pub refresh_token : String

-- `{ user, ...tokens }`
pub record LoginAnswer : Type 0 where
  pub user : Object
  pub tokens : TokenPair

-- `{ sub, email, role }`; a value that is `undefined` is a missing field.
abbrev pub payload_of : Object → Object
payload_of claims =
    spread (field "sub" (claims "sub"))
      (spread (field "email" (claims "email")) (field "role" (claims "role")))

-- The claims of a login.
abbrev pub login_payload : String → Object
login_payload email =
    put "sub" (str "mock-user-id")
      (put "email" (str email) (put "role" (str (role_text user)) empty))

module _ {W : Type 0} (bcrypt : Bcrypt W) (jwt : Jwt W) (config : JwtConfig) where
  -- `now` is `new Date()`.
  unfoldable pub register : ℕ → RegisterDto → Action W Object
  unfolding hash_password
  register now dto = do
    hash_password bcrypt dto.password none
    pure (
        put "id" (str "mock-user-id") (
          put "email" (str dto.email)
            (put "name" (str dto.name) (put "createdAt" (date now) empty))))

  -- `token_id` is what `uuidv4()` returns.
  unfoldable pub login : String → LoginDto → Action W LoginAnswer
  unfolding issue_token_pair
  login token_id dto = do
    tokens ← issue_token_pair jwt config token_id (login_payload dto.email)
    pure (record {
      user =
          put "id" (str "mock-user-id")
            (put "email" (str dto.email) (put "roles" (strs ("user" ∷ [])) empty));
      tokens = tokens;
    })

  unfoldable pub refresh : String → RefreshTokenDto → Action W TokenPair
  unfolding verify_refresh issue_token_pair
  refresh token_id dto =
      try_catch
        (do
          claims ← verify_refresh jwt config dto.refresh_token
          issue_token_pair jwt config token_id (payload_of claims))
        (λ e. throw (unauthorized "Invalid refresh token"))

-- The routes of `AuthController`, all of them public, which pass their body on.
pub data Route : Type 0 where
  register_route : RegisterDto → Route
  login_route : LoginDto → Route
  refresh_route : RefreshTokenDto → Route

pub data Answer : Type 0 where
  registered : Object → Answer
  logged_in : LoginAnswer → Answer
  refreshed : TokenPair → Answer

module _ {W : Type 0} (bcrypt : Bcrypt W) (jwt : Jwt W) (config : JwtConfig) where
  unfoldable pub controller : ℕ → String → Route → Action W Answer
  unfolding register login refresh
  controller now token_id (register_route dto) = do
    answer ← register bcrypt jwt config now dto
    pure (registered answer)
  controller now token_id (login_route dto) = do
    answer ← login bcrypt jwt config token_id dto
    pure (logged_in answer)
  controller now token_id (refresh_route dto) = do
    answer ← refresh bcrypt jwt config token_id dto
    pure (refreshed answer)
