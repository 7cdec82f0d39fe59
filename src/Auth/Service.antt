-- ===== src/Auth/Service.antt =====
-- apps/auth-service/src/auth.service.ts and auth.controller.ts; log lines are left out.
use nestjs_microservice_plat.Prelude.{ℕ, String, [], ◌∷◌, Bool, true, false, Option, none, some}
use nestjs_microservice_plat.Js.{
  Value, null, str, strs, date, Object, empty, put, field, remove, spread, or_text, default,
  as_text,
}
use nestjs_microservice_plat.Errors.{Exception, error, bad_request, unauthorized}
use nestjs_microservice_plat.Action.{
  Result, ok, err, Action, pure, throw, query, try_catch, ◌>>=◌, ◌>>◌,
}
use nestjs_microservice_plat.Database.{Model, Filter, fields}
use nestjs_microservice_plat.Constants.CommonRole.{role_text, user}
use nestjs_microservice_plat.Constants.Patterns.{EventPattern, event_patterns}
use nestjs_microservice_plat.Auth.{Bcrypt, Jwt, Emit, Settings}

pub record Tokens : Type 0 where
  pub access_token : String
  pub refresh_token : String

-- `{ user, ...tokens }`
pub record Session : Type 0 where
  pub account : Object
  pub tokens : Tokens

pub record RegisterDto : Type 0 where
  pub email : String
  pub password : String
  pub name : String

pub record LoginDto : Type 0 where
  pub email : String
  pub password : String

-- the answer of `validateToken`
pub record Validity : Type 0 where
  pub valid : Bool
  pub payload : Option Object

-- `{ email }`
abbrev pub by_email : String → Filter
by_email email = ("email", str email) ∷ []

-- `user.roles[0] || UserRole.USER`
abbrev pub first_role : Option Value → Result String
first_role (some (strs [])) = ok (role_text user)
first_role (some (strs (r ∷ rs))) = ok (or_text (some r) (role_text user))
first_role _ = err (error "Cannot read properties of undefined (reading '0')")

-- the payload that `_generateTokens` signs
abbrev pub token_payload : Object → String → Object
token_payload account role =
    spread (field "sub" (account "_id"))
      (spread (field "email" (account "email")) (put "role" (str role) empty))

-- `_sanitizeUser`
unfoldable pub sanitize_user : Object → Object
sanitize_user account = remove "password" account

module _ {W : Type 0} (jwt : Jwt W) (settings : Settings) where
  abbrev pub sign_access : Object → W → Result String
  sign_access payload =
      jwt.sign payload settings.access_secret (or_text settings.access_expires_in "15m")

  abbrev pub sign_refresh : Object → W → Result String
  sign_refresh payload =
      jwt.sign payload settings.refresh_secret (or_text settings.refresh_expires_in "7d")

  -- `_generateTokens`
  unfoldable pub generate_tokens : Object → Action W Tokens
  generate_tokens account = do
    role ← query (λ w. first_role (account "roles"))
    access ← query (sign_access (token_payload account role))
    refresh ← query (sign_refresh (token_payload account role))
    pure (record { access_token = access; refresh_token = refresh })

abbrev pub invalid_credentials : Exception
invalid_credentials = unauthorized "Invalid credentials"

module _ {W : Type 0} where
  -- `if (existing) throw …`
  abbrev pub refuse_known : Option Object → Action W (Unit {0})
  refuse_known none = pure tt
  refuse_known (some account) = throw (bad_request "Email already registered")

  -- `if (!user) throw …`
  abbrev pub or_refuse : Exception → Option Object → Action W Object
  or_refuse e none = throw e
  or_refuse e (some account) = pure account

  -- `if (!isPasswordValid) throw …`
  abbrev pub check_password : Bool → Action W (Unit {0})
  check_password true = pure tt
  check_password false = throw invalid_credentials

-- The data of the event USER_CREATED.
abbrev pub created_event : Object → Object
created_event account =
    spread (field "userId" (account "_id"))
      (spread (field "email" (account "email")) (field "name" (account "name")))

module _ {W : Type 0} (model : Model W) (bcrypt : Bcrypt W) (jwt : Jwt W) (emit : Emit W)
    (settings : Settings) where
  -- the `try` round the event: its failure is only logged
  abbrev pub announce : Object → Action W (Unit {0})
  announce account =
      try_catch (emit (event_patterns EventPattern.user_created) (created_event account))
        (λ e. pure tt)

  -- the document that `register` stores
  abbrev pub new_account : RegisterDto → String → Object
  new_account dto hashed = put "email" (str dto.email) (
      put "password" (str hashed)
        (put "name" (str dto.name) (put "roles" (strs (role_text user ∷ [])) empty)))

  unfoldable pub register : RegisterDto → Action W Session
  unfolding generate_tokens sanitize_user
  register dto = do
    existing ← query (model.find_one (by_email dto.email))
    refuse_known existing
    hashed ← bcrypt.hash dto.password settings.bcrypt_rounds
    account ← model.create (new_account dto hashed)
    tokens ← generate_tokens jwt settings account
    announce account
    pure (record { account = sanitize_user account; tokens = tokens })

  -- `now` is `new Date()`.
  unfoldable pub login : ℕ → LoginDto → Action W Session
  unfolding generate_tokens sanitize_user
  login now dto = do
    found ← query (model.find_one_selecting "+password" (by_email dto.email))
    account ← or_refuse invalid_credentials found
    valid ← query (bcrypt.compare dto.password (as_text (account "password")))
    check_password valid
    model.update_one (("_id", default (account "_id") null) ∷ [])
        (fields (put "lastLoginAt" (date now) empty))
    tokens ← generate_tokens jwt settings account
    pure (record { account = sanitize_user account; tokens = tokens })

  -- The answer is `{ success: true }`.
  unfoldable pub logout : String → Action W Bool
  logout user_id = pure true

  -- `findById(payload.sub)`, where `sub` may be missing
  abbrev pub find_subject : Option String → W → Result (Option Object)
  find_subject none w = ok none
  find_subject (some id) w = model.find_by_id id w

  unfoldable pub refresh_token : String → Action W Tokens
  unfolding generate_tokens
  refresh_token token =
      try_catch
        (do
          payload ← query (jwt.verify token settings.refresh_secret)
          found ← query (find_subject (as_text (payload "sub")))
          account ← or_refuse (unauthorized "User not found") found
          generate_tokens jwt settings account)
        (λ e. throw (unauthorized "Invalid refresh token"))

  unfoldable pub validate_token : String → Action W Validity
  validate_token token =
      try_catch
        (do
          payload ← query (jwt.verify token none)
          pure (record { valid = true; payload = some payload }))
        (λ e. pure (record { valid = false; payload = none }))

-- The message patterns of `AuthController`, with their payloads.
pub data Request : Type 0 where
  register_request : RegisterDto → Request
  login_request : LoginDto → Request
  logout_request refresh_request validate_request : String → Request

pub data Reply : Type 0 where
  a_session : Session → Reply
  success : Bool → Reply
  some_tokens : Tokens → Reply
  validity : Validity → Reply

module _ {W : Type 0} (model : Model W) (bcrypt : Bcrypt W) (jwt : Jwt W) (emit : Emit W)
    (settings : Settings) where
  unfoldable pub controller : ℕ → Request → Action W Reply
  unfolding register login logout refresh_token validate_token
  controller now (register_request dto) = do
    session ← register model bcrypt jwt emit settings dto
    pure (a_session session)
  controller now (login_request dto) = do
    session ← login model bcrypt jwt emit settings now dto
    pure (a_session session)
  controller now (logout_request user_id) = do
    done ← logout model bcrypt jwt emit settings user_id
    pure (success done)
  controller now (refresh_request token) = do
    tokens ← refresh_token model bcrypt jwt emit settings token
    pure (some_tokens tokens)
  controller now (validate_request token) = do
    answer ← validate_token model bcrypt jwt emit settings token
    pure (validity answer)
