-- ===== src/Errors.antt =====
-- The exceptions that the services throw: libs/common/src/exceptions, and Nest's own classes
-- `HttpException` and `RpcException` as far as the filters read them.
pub mod Codes
pub mod AllExceptions
pub mod RpcExceptions
pub mod Laws
use nestjs_microservice_plat.Prelude.{ℕ, pos, String, List, Option, none, some}
use nestjs_microservice_plat.Js.{Value, num}

-- The `message` of a response body: one text, or the list that a validation pipe gives.
pub data Message : Type 0 where
  text : String → Message
  texts : List String → Message

-- The status of an `HttpException`: a number, or another value that its constructor was given.
pub data Status : Type 0 where
  coded : ℕ → Status
  uncoded : Value → Status

abbrev pub status_of : Value → Status
status_of (num (pos n)) = coded n
status_of v = uncoded v

-- The object that `getResponse()` returns, as far as the filters read it.
pub record Body : Type 0 where
  pub code : Option String
  pub message : Option Message
  pub errors : Option Value
  pub details : Option Value

pub data Response : Type 0 where
  plain : String → Response
  object : Body → Response

-- The payload of an `RpcException`: `message` is a text, a list of texts or a whole body.
pub data Content : Type 0 where
  message : Message → Content
  body : Body → Content

pub record RpcErrorShape : Type 0 where
  pub code : Option String
  pub content : Content
  pub status : Status
  pub details : Option Value

pub record DomainException : Type 0 where
  pub code : String
  pub message : String
  pub status : ℕ
  pub details : Option Value

-- Whatever a `catch` may receive: a `DomainException`, another `HttpException` (its message, its
-- response and its status), an `RpcException`, another `Error`, a thrown value of another class.
pub data Exception : Type 0 where
  domain : DomainException → Exception
  http : String → Response → Status → Exception
  rpc : RpcErrorShape → Exception
  error : String → Exception
  thrown : Value → Exception

-- The `super({ code, message, details }, status)` of `DomainException`: what `getResponse` gives.
abbrev pub domain_body : DomainException → Body
domain_body d = record {
  code = some d.code;
  message = some (text d.message);
  errors = none;
  details = d.details;
}

-- `new HttpException(message, status)`: the response is the text itself.
abbrev pub http_exception : String → Status → Exception
http_exception m status = http m (plain m) status

-- `new NotFoundException(message)` and its siblings: the response is an object with the message.
abbrev pub named_exception : String → ℕ → Exception
named_exception m status =
    http m (object (record { code = none; message = some (text m); errors = none; details = none }))
      (coded status)

abbrev pub not_found : String → Exception
not_found m = named_exception m 404

abbrev pub bad_request : String → Exception
bad_request m = named_exception m 400

abbrev pub unauthorized : String → Exception
unauthorized m = named_exception m 401

abbrev pub forbidden : String → Exception
forbidden m = named_exception m 403

-- `toRpcException`
unfoldable pub to_rpc_exception : RpcErrorShape → Exception
to_rpc_exception shape = rpc shape
