-- ===== src/Gateway/Call.antt =====
-- The call that every method of the gateway's services makes: `send` through a client proxy, which is
-- a parameter, `timeout(5000)`, `catchError` and the `try` round `firstValueFrom`.
use nestjs_microservice_plat.Prelude.{ℤ, String, Option, none, some, if◌then◌else◌}
use nestjs_microservice_plat.Js.{Value, num, str, Object, empty, put, or_text}
use nestjs_microservice_plat.Errors.{Exception, http_exception, Status, coded, status_of}
use nestjs_microservice_plat.Errors.AllExceptions.{truthy}
use nestjs_microservice_plat.Action.{Result, ok, err, Action}

-- The data of a message; `updates` stands under `{ id, updates: dto }`.
pub data Payload : Type 0 where
  fields : Object → Payload
  updates : String → Object → Payload

-- What the gateway reads of an error that is not its own: `err.message`, where it is a text, and `err.status`.
pub record Failure : Type 0 where
  pub message : Option String
  pub status : Option Value

-- How an observable of one answer ends within five seconds: with a value, with an error, with
-- none of them, without a value; or `send` itself throws.
pub data Reply (A : Type 0) : Type 0 where
  value : A → Reply A
  failed broken : Failure → Reply A
  late : Reply A
  completed : Reply A

-- A client proxy for answers of type `A`.
abbrev pub Client : Type 0 → Type 0 → Type 0
Client W A = String → Payload → W → Reply A × W

-- `err.status || HttpStatus.INTERNAL_SERVER_ERROR`
abbrev pub or_status : Option Value → Status
or_status none = coded 500
or_status (some v) = if truthy v then status_of v else coded 500

-- the exception that `catchError` throws
abbrev pub service_error : String → Failure → Exception
service_error fallback f = http_exception (or_text f.message fallback) (or_status f.status)

-- the `TimeoutError` of rxjs
abbrev pub timeout_error : Failure
timeout_error = record { message = some "Timeout has occurred"; status = none }

-- What the promise of the method settles to: `catchError` covers the errors of the observable, and
-- the `catch` of the method the rest.
abbrev pub settle : {A : Type 0} → String → String → Reply A → Result A
settle fallback message (value a) = ok a
settle fallback message (failed f) = err (service_error fallback f)
settle fallback message late = err (service_error fallback timeout_error)
settle fallback message completed = err (http_exception message (coded 500))
settle fallback message (broken f) = err (http_exception message (coded 500))

unfoldable pub call : {W A : Type 0} → Client W A → String → String → String → Payload → Action W A
call client fallback message name payload w =
    let (reply, w') = client name payload w in (settle fallback message reply, w')

-- `{ id }`
abbrev pub id_payload : String → Payload
id_payload id = fields (put "id" (str id) empty)

-- `{ userId, skip, limit }`
abbrev pub page_payload : String → ℤ → ℤ → Payload
page_payload user_id skip limit =
    fields (put "userId" (str user_id) (put "skip" (num skip) (put "limit" (num limit) empty)))
