-- ===== src/Errors/RpcExceptions.antt =====
-- libs/filters/src/rpc-exceptions.filter.ts and libs/common/src/filters/rpc-exception.filter.ts:
-- what a microservice sends back for each exception.
use nestjs_microservice_plat.Prelude.{String, Option, none, some}
use nestjs_microservice_plat.Js.{default}
use nestjs_microservice_plat.Errors.{
  text, Response, plain, object, Content, body, RpcErrorShape, Exception, domain, http, rpc,
  domain_body, Status, coded, uncoded,
}
use nestjs_microservice_plat.Errors.Codes.{ErrorCode, error_codes, rpc_status_to_code}

-- `statusToCode` of what `getStatus()` returns
abbrev code_for : Status → ErrorCode
code_for (coded n) = rpc_status_to_code n
code_for (uncoded v) = ErrorCode.internal_error

-- the `HttpException` branch of `RpcExceptionsFilter.catch`
unfoldable pub http_shape : String → Response → Status → RpcErrorShape
http_shape m (object b) status = record {
  code = some (default b.code (error_codes (code_for status)));
  content = Content.message (default b.message (text m));
  status = status;
  details = b.errors;
}
http_shape m (plain b) status = record {
  code = some (error_codes (code_for status));
  content = Content.message (text b);
  status = status;
  details = none;
}

-- `RpcExceptionsFilter.catch`: the shape of the `RpcException` that is thrown instead. An
-- `RpcException` goes to Nest's own filter, which sends its payload on.
unfoldable pub catch : Exception → RpcErrorShape
unfolding http_shape
catch (rpc shape) = shape
catch (domain d) = http_shape d.message (object (domain_body d)) (coded d.status)
catch (http m response status) = http_shape m response status
catch _ = record {
  code = some (error_codes ErrorCode.internal_error);
  content = Content.message (text "Internal microservice error");
  status = coded 500;
  details = none;
}

abbrev content_of : String → Response → Content
content_of m (object b) = body b
content_of m (plain _) = Content.message (text m)

-- `RpcExceptionFilter.catch`; `none` for what `@Catch(HttpException)` does not cover.
unfoldable pub http_only_catch : Exception → Option RpcErrorShape
http_only_catch (http m response status) =
    some (record { code = none; content = content_of m response; status = status; details = none })
http_only_catch (domain d) = some (record {
  code = none;
  content = body (domain_body d);
  status = coded d.status;
  details = none;
})
http_only_catch _ = none
