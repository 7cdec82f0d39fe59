-- ===== src/Interceptors.antt =====
-- libs/interceptors/src/response.interceptor.ts and timeout.interceptor.ts, and
-- libs/common/src/interceptors/transform.interceptor.ts: what becomes of the answer of a handler.
pub mod Laws
use nestjs_microservice_plat.Prelude.{
  ℕ, String, Bool, true, false, Option, none, some, nat_eq, if◌then◌else◌,
}
use nestjs_microservice_plat.Js.{Value, Object}
use nestjs_microservice_plat.Errors.{Exception, named_exception}
use nestjs_microservice_plat.Action.{Result, ok, err}

-- What the interceptors read of the request and the response, and the clock's text.
pub record Context : Type 0 where
  pub url : String
  pub correlation_id : Option String
  pub status_code : ℕ
  pub now : String

-- `ApiResponse` of libs/common/src/interfaces, but for the `data`.
pub record ApiResponse : Type 0 where
  pub success : Bool
  pub status_code : ℕ
  pub message : String
  pub timestamp : String
  pub path : String
  pub correlation_id : Option String

-- What a handler answers: a value, a plain object or an envelope with its `data`.
pub data Answer : Type 0 where
  value : Value → Answer
  object : Object → Answer
  enveloped : ApiResponse → Answer → Answer

-- `data && typeof data === 'object' && 'success' in data`
abbrev pub has_success : Answer → Bool
has_success (value v) = false
has_success (object o) = elim (o "success") [ none ↦ false | some v ↦ true ]
has_success (enveloped e content) = true

-- `ResponseInterceptor.intercept`
unfoldable pub respond : Context → Answer → Answer
respond context answer =
    if has_success answer
    then answer
    else enveloped
        (record {
          success = true;
          status_code = if nat_eq context.status_code 0 then 200 else context.status_code;
          message = "OK";
          timestamp = context.now;
          path = context.url;
          correlation_id = context.correlation_id;
        })
        answer

-- The envelope of `TransformInterceptor`.
pub record Transformed : Type 0 where
  pub success : Bool
  pub content : Answer
  pub timestamp : String
  pub path : String

-- `TransformInterceptor.intercept`
unfoldable pub transform : Context → Answer → Transformed
transform context answer = record {
  success = true;
  content = answer;
  timestamp = context.now;
  path = context.url;
}

-- How a handler ends: within the time, with a value or an error, or not.
pub data Ending : Type 0 where
  answered : Answer → Ending
  failed : Exception → Ending
  late : Ending

-- `TimeoutInterceptor.intercept`
unfoldable pub limit_time : Ending → Result Answer
limit_time (answered a) = ok a
limit_time (failed e) = err e
limit_time late = err (named_exception "Request Timeout" 408)
