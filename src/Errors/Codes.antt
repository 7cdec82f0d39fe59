-- ===== src/Errors/Codes.antt =====
-- libs/constants/src/error-codes.constants.ts, and the two `statusToCode` of libs/filters.
use nestjs_microservice_plat.Prelude.{ℕ, String, nat_eq, if◌then◌else◌}

pub data ErrorCode : Type 0 where
  validation_failed unauthorized forbidden not_found conflict rate_limited : ErrorCode
  internal_error service_unavailable token_expired token_invalid : ErrorCode
  credentials_invalid user_not_found user_already_exists : ErrorCode

-- `ERROR_CODES`
abbrev pub error_codes : ErrorCode → String
error_codes ErrorCode.validation_failed = "VALIDATION_FAILED"
error_codes ErrorCode.unauthorized = "UNAUTHORIZED"
error_codes ErrorCode.forbidden = "FORBIDDEN"
error_codes ErrorCode.not_found = "NOT_FOUND"
error_codes ErrorCode.conflict = "CONFLICT"
error_codes ErrorCode.rate_limited = "RATE_LIMITED"
error_codes ErrorCode.internal_error = "INTERNAL_ERROR"
error_codes ErrorCode.service_unavailable = "SERVICE_UNAVAILABLE"
error_codes ErrorCode.token_expired = "TOKEN_EXPIRED"
error_codes ErrorCode.token_invalid = "TOKEN_INVALID"
error_codes ErrorCode.credentials_invalid = "CREDENTIALS_INVALID"
error_codes ErrorCode.user_not_found = "USER_NOT_FOUND"
error_codes ErrorCode.user_already_exists = "USER_ALREADY_EXISTS"

-- `AllExceptionsFilter.statusToCode`
unfoldable pub status_to_code : ℕ → ErrorCode
status_to_code status =
    if nat_eq status 400
    then ErrorCode.validation_failed
    else if nat_eq status 401
    then ErrorCode.unauthorized
    else if nat_eq status 403
    then ErrorCode.forbidden
    else if nat_eq status 404
    then ErrorCode.not_found
    else if nat_eq status 409
    then ErrorCode.conflict
    else if nat_eq status 429
    then ErrorCode.rate_limited
    else if nat_eq status 503
    then ErrorCode.service_unavailable
    else ErrorCode.internal_error

-- `RpcExceptionsFilter.statusToCode`: without 429 and 503.
unfoldable pub rpc_status_to_code : ℕ → ErrorCode
rpc_status_to_code status =
    if nat_eq status 400
    then ErrorCode.validation_failed
    else if nat_eq status 401
    then ErrorCode.unauthorized
    else if nat_eq status 403
    then ErrorCode.forbidden
    else if nat_eq status 404
    then ErrorCode.not_found
    else if nat_eq status 409
    then ErrorCode.conflict
    else ErrorCode.internal_error
