-- ===== src/Errors/AllExceptions.antt =====
-- libs/filters/src/all-exceptions.filter.ts and libs/common/src/filters/http-exception.filter.ts:
-- what the gateway writes to the client for each exception.
use Prim.Native.String
use nestjs_microservice_plat.Prelude.{
  zero, pos, String, List, [], ◌∷◌, Bool, true, false, Option, none, some, ◌==◌, not, if◌then◌else◌,
}
use nestjs_microservice_plat.Js.{Value, null, bool, num, str, nan}
use nestjs_microservice_plat.Errors.{
  Message, text, texts, Response, plain, object, Exception, domain, http, domain_body, Status,
  coded, uncoded,
}
use nestjs_microservice_plat.Errors.Codes.{ErrorCode, error_codes, status_to_code}

-- What the filters read of the request, and the clock's text when they run.
pub record Request : Type 0 where
  pub url : String
  pub correlation_id : Option String
  pub now : String

-- `ApiErrorResponse`
pub record ApiErrorResponse : Type 0 where
  pub success : Bool
  pub status_code : Status
  pub code : String
  pub message : String
  pub errors : Option Value
  pub timestamp : String
  pub path : String
  pub correlation_id : Option String

-- `value` as a condition
abbrev pub truthy : Value → Bool
truthy null = false
truthy (bool b) = b
truthy (num (pos zero)) = false
truthy nan = false
truthy (str s) = not (s == "")
truthy _ = true

-- `messages.join('; ')`
unfoldable pub join : List String → String
join [] = ""
join (m ∷ []) = m
join (m ∷ n ∷ ms) = String.◌++◌ m (String.◌++◌ "; " (join (n ∷ ms)))

-- the local variables of `catch`
pub record Fields : Type 0 where
  pub status : Status
  pub code : String
  pub message : String
  pub errors : Option Value

-- `Array.isArray(obj.message) ? obj.message.join('; ') : (obj.message ?? exception.message)`
abbrev pub message_of : Option Message → String → String
message_of none fallback = fallback
message_of (some (text m)) fallback = m
message_of (some (texts ms)) fallback = join ms

-- `statusToCode` of what `getStatus()` returns, and `if (obj.code) code = obj.code; … if (!obj.code) code = this.statusToCode(status)`
abbrev pub code_for : Status → ErrorCode
code_for (coded n) = status_to_code n
code_for (uncoded v) = ErrorCode.internal_error

abbrev pub code_of : Option String → Status → String
code_of none status = error_codes (code_for status)
code_of (some c) status = if c == "" then error_codes (code_for status) else c

-- `if (obj.errors) errors = obj.errors`
abbrev pub errors_of : Option Value → Option Value
errors_of none = none
errors_of (some v) = if truthy v then some v else none

-- the branches of `AllExceptionsFilter.catch`
pub classify : Exception → Fields
classify (domain d) = record {
  status = coded d.status;
  code = d.code;
  message = d.message;
  errors = d.details;
}
classify (http m (plain body) status) = record {
  status = status;
  code = error_codes ErrorCode.internal_error;
  message = body;
  errors = none;
}
classify (http m (object body) status) = record {
  status = status;
  code = code_of body.code status;
  message = message_of body.message m;
  errors = errors_of body.errors;
}
classify _ = record {
  status = coded 500;
  code = error_codes ErrorCode.internal_error;
  message = "Internal server error";
  errors = none;
}

-- `AllExceptionsFilter.catch`: the status and the payload that are sent.
unfoldable pub catch : Request → Exception → Status × ApiErrorResponse
unfolding classify
catch req e =
    let f = classify e in
    (
      f.status,
      record {
        success = false;
        status_code = f.status;
        code = f.code;
        message = f.message;
        errors = f.errors;
        timestamp = req.now;
        path = req.url;
        correlation_id = req.correlation_id;
      },
    )

-- The payload of `HttpExceptionFilter`: its message is the response object, or the text.
pub record HttpErrorPayload : Type 0 where
  pub success : Bool
  pub status_code : Status
  pub message : Response
  pub timestamp : String
  pub path : String

abbrev http_message : String → Response → Response
http_message m (object body) = object body
http_message m (plain _) = plain m

-- `HttpExceptionFilter.catch`; `none` for what `@Catch(HttpException)` does not cover.
unfoldable pub http_catch : Request → Exception → Option (Status × HttpErrorPayload)
http_catch req (http m response status) = some (
  status,
  record {
    success = false;
    status_code = status;
    message = http_message m response;
    timestamp = req.now;
    path = req.url;
  },
)
http_catch req (domain d) = some (
  coded d.status,
  record {
    success = false;
    status_code = coded d.status;
    message = object (domain_body d);
    timestamp = req.now;
    path = req.url;
  },
)
http_catch req _ = none
