-- ===== src/Http.antt =====
-- How a request runs through an HTTP application: apps/api-gateway/src/main.ts and app.module.ts,
-- and the same files of apps/posts-service. Three global guards stand before every route, the
-- answer of the handler goes through TransformInterceptor and what is thrown through
-- HttpExceptionFilter. The ThrottlerGuard is a parameter, a result; the pipes are left out.
pub mod Gateway
pub mod Laws
pub mod Posts
pub mod Auth
pub mod AuthTests
pub mod Tests
use nestjs_microservice_plat.Prelude.{ℕ, true, Option, none, some}
use nestjs_microservice_plat.Errors.{Exception, Status}
use nestjs_microservice_plat.Errors.AllExceptions.{Request, HttpErrorPayload, http_catch}
use nestjs_microservice_plat.Action.{Result, ok, err, Action}
use nestjs_microservice_plat.Constants.{JwtPayload}
use nestjs_microservice_plat.Guards.{Metadata, Verdict, admit}
use nestjs_microservice_plat.Interceptors.{Answer, Context, Transformed, transform}

-- How a request ends: with the envelope of the interceptor, with the status and the payload that the
-- filter hands to express, which fails where the status is no code of HTTP, or with what Nest itself makes of an exception that the filter does not cover.
pub data Outcome : Type 0 where
  answered : Transformed → Outcome
  refused : Status → HttpErrorPayload → Outcome
  uncovered : Exception → Outcome

-- What Nest runs a request with.
pub record Call : Type 0 where
  pub request : Request
  pub context : Context
  pub throttled : Result (Unit {0})
  pub verdict : Verdict

-- the guards of `app.module.ts`, in the order in which they are provided
unfoldable pub guard : Metadata → Metadata → Call → Result (Option JwtPayload)
unfolding admit
guard handler class c = elim c.throttled [ err e ↦ err e | ok _ ↦ admit handler class c.verdict ]

-- the global filter of `main.ts`
unfoldable pub filter : Request → Exception → Outcome
unfolding http_catch
filter request e = elim (http_catch request e) [
  | none ↦ uncovered e
  | some (status, payload) ↦ refused status payload
]

-- the global interceptor and the global filter of `main.ts`
unfoldable pub finish : Call → Result Answer → Outcome
unfolding filter transform
finish c (ok answer) = answered (transform c.context answer)
finish c (err e) = filter c.request e

-- A request to a route with its metadata: the guards, then the handler with the user that they left.
unfoldable pub serve :
    {W : Type 0}
    → Metadata
    → Metadata
    → Call
    → (Option JwtPayload → Action W Answer)
    → W
    → Outcome × W
unfolding guard finish
serve handler class c run w = elim (guard handler class c) [
  | err e ↦ (finish c (err e), w)
  | ok user ↦ (let (result, w') = run user w in (finish c result, w'))
]
