-- ===== src/Logger.antt =====
-- libs/logger/src/app-logger.service.ts over a PinoLogger, which is a parameter, and
-- libs/interceptors/src/logging.interceptor.ts over Nest's Logger.
pub mod Options
use Prim.Native.String as Text
use nestjs_microservice_plat.Prelude.{◌≡◌, refl, String, Option, none, some, ◌==◌, if◌then◌else◌}
use nestjs_microservice_plat.Js.{Value, default}
use nestjs_microservice_plat.Errors.{Exception}
use nestjs_microservice_plat.Action.{Action, Result, ok, err}

-- A field of a log entry: a value, or what is kept of an `Error`.
pub data Field : Type 0 where
  plain : Value → Field
  error_of : String → Option String → Field

abbrev pub Meta : Type 0
Meta = String → Option Field

abbrev pub no_meta : Meta
no_meta key = none

-- The second argument of `error`.
pub data Thrown : Type 0 where
  an_error : String → Option String → Thrown
  another : Option Value → Thrown

-- `{ err: ... }`, where the value may be `undefined`
abbrev pub err_field : Thrown → Option Field
err_field (an_error message stack) = some (error_of message stack)
err_field (another none) = none
err_field (another (some v)) = some (plain v)

-- `{ ...meta, ...err }`
abbrev pub with_err : Meta → Thrown → Meta
with_err meta thrown key = if key == "err" then err_field thrown else meta key

pub record PinoLogger (W : Type 0) : Type 0 where
  pub set_context : String → W → W
  pub info : Meta → String → W → W
  pub warn : Meta → String → W → W
  pub error : Meta → String → W → W
  pub debug : Meta → String → W → W
  pub trace : Meta → String → W → W

-- The calls of `AppLoggerService`.
pub data LogCall : Type 0 where
  set_context_call : String → LogCall
  info_call warn_call debug_call trace_call : String → Option Meta → LogCall
  error_call : String → Thrown → Option Meta → LogCall

unfoldable pub app_logger : {W : Type 0} → PinoLogger W → LogCall → W → W
app_logger pino (set_context_call context) w = pino.set_context context w
app_logger pino (info_call message meta) w = pino.info (default meta no_meta) message w
app_logger pino (warn_call message meta) w = pino.warn (default meta no_meta) message w
app_logger pino (debug_call message meta) w = pino.debug (default meta no_meta) message w
app_logger pino (trace_call message meta) w = pino.trace (default meta no_meta) message w
app_logger pino (error_call message thrown meta) w =
    pino.error (with_err (default meta no_meta) thrown) message w

pub record LoggedRequest : Type 0 where
  pub method : String
  pub original_url : String
  pub correlation_id : Option String

-- the line of a request; the texts of the status and of the milliseconds are given
unfoldable pub log_line : LoggedRequest → String → String → String → String
log_line req status outcome elapsed = Text.◌++◌ req.method (
    Text.◌++◌ " " (
      Text.◌++◌ req.original_url (
        Text.◌++◌ " " (
          Text.◌++◌ status (
            Text.◌++◌ " " (
              Text.◌++◌ outcome (
                Text.◌++◌ " "
                  (Text.◌++◌ elapsed (Text.◌++◌ "ms cid=" (default req.correlation_id "-"))))))))))

module _ {W A : Type 0} (log : String → W → W) (status_of : W → String)
    (elapsed_at : W → String) where
  -- `tap`: the line is written with the status and the time at the end.
  unfoldable pub log_answer : LoggedRequest → Result A → W → Result A × W
  unfolding log_line
  log_answer req (ok a) w = (ok a, log (log_line req (status_of w) "OK" (elapsed_at w)) w)
  log_answer req (err e) w = (err e, log (log_line req (status_of w) "ERR" (elapsed_at w)) w)

  -- `LoggingInterceptor.intercept` round a handler that answers once: `status_of` reads
  -- `res.statusCode`, and `elapsed_at` the clock.
  unfoldable pub log_request : LoggedRequest → Action W A → Action W A
  unfolding log_answer
  log_request req next w = log_answer req (next w).0 (next w).1

  -- The line of a request that failed says the status that the response had before the error was
  -- answered, whatever the error's own status is.
  log_request_failed :
      (req : LoggedRequest) (next : Action W A) (w : W) (e : Exception)
      → next w ≡ (err e, w)
      → log_request req next w ≡ (err e, log (log_line req (status_of w) "ERR" (elapsed_at w)) w)
  unfolding log_request log_answer
  log_request_failed req next w e failed = rw failed refl
