-- ===== src/Auth.antt =====
-- apps/auth-service. Outside the repository stand, as records over the world: bcrypt, `JwtService` of
-- @nestjs/jwt and the client proxy of the events queue.
pub mod Service
pub mod Registration
pub mod Race
pub mod RaceLaws
pub mod RaceWinners
pub mod RaceTests
pub mod Sessions
pub mod TokenService
pub mod TokenPairs
pub mod Strategies
pub mod StrategyTests
pub mod Tests
use nestjs_microservice_plat.Prelude.{ℕ, String, Bool, Option}
use nestjs_microservice_plat.Js.{Object}
use nestjs_microservice_plat.Action.{Result, Action}

-- `bcrypt.hash(password, rounds)` and `bcrypt.compare(password, hash)`.
pub record Bcrypt (W : Type 0) : Type 0 where
  pub hash : String → ℕ → Action W String
  pub compare : String → Option String → W → Result Bool

-- `sign(payload, { secret, expiresIn })` and `verify(token, { secret })`; without a secret the one
-- that the module is registered with. They read the clock.
pub record Jwt (W : Type 0) : Type 0 where
  pub sign : Object → Option String → String → W → Result String
  pub verify : String → Option String → W → Result Object

-- `firstValueFrom(eventsClient.emit(pattern, data))`
abbrev pub Emit : Type 0 → Type 0
Emit W = String → Object → Action W (Unit {0})

-- What the service reads of `process.env`.
pub record Settings : Type 0 where
  pub bcrypt_rounds : ℕ
  pub access_secret : Option String
  pub access_expires_in : Option String
  pub refresh_secret : Option String
  pub refresh_expires_in : Option String
