-- ===== src/Logger/Options.antt =====
-- libs/logger/src/app-logger.module.ts: what the AppLoggerModule hands to nestjs-pino. pino and the
-- truth of a configured value are outside.
use nestjs_microservice_plat.Prelude.{
  ◌≡◌, String, List, [], ◌∷◌, Bool, true, false, Option, none, some, if◌then◌else◌, arith, includes,
}
use nestjs_microservice_plat.Js.{Object, field, spread, default}
use nestjs_microservice_plat.Rabbit.Module.{ConfigService}

-- `{ target, options }` of the pretty printer
pub record Target : Type 0 where
  pub target : String
  pub colorize : Bool
  pub single_line : Bool
  pub translate_time : String

pub record Redaction : Type 0 where
  pub paths : List String
  pub censor : String

pub record PinoOptions : Type 0 where
  pub level : String
  pub transport : Option Target
  pub redact : Redaction
  pub custom_props : Object → Object
  pub request_fields : Object → Object
  pub response_fields : Object → Object

-- a field of one object under a name of another
abbrev pub copied : String → String → Object → Object
copied name key o = field name (o key)

-- `customProps`
abbrev pub custom_props : Object → Object
custom_props req = copied "correlationId" "correlationId" req

-- the serializer of requests
abbrev pub request_fields : Object → Object
request_fields req = spread (copied "id" "id" req) (
    spread (copied "method" "method" req)
      (spread (copied "url" "url" req) (copied "remoteAddress" "remoteAddress" req)))

-- the serializer of responses
abbrev pub response_fields : Object → Object
response_fields res = copied "statusCode" "statusCode" res

-- `pretty` says whether `config.get('logging.pretty')` is truthy.
unfoldable pub pino_options : ConfigService → Bool → PinoOptions
pino_options config pretty = record {
  level = default (config.text_at "logging.level") "info";
  transport =
      if pretty
      then some (record {
        target = "pino-pretty";
        colorize = true;
        single_line = true;
        translate_time = "SYS:HH:MM:ss.l";
      })
      else none;
  redact = record {
    paths =
        "req.headers.authorization" ∷ "req.headers.cookie" ∷ "*.password" ∷ "*.refreshToken"
        ∷ "*.accessToken" ∷ [];
    censor = "[REDACTED]";
  };
  custom_props = custom_props;
  request_fields = request_fields;
  response_fields = response_fields;
}

-- Of a request nothing is logged but its id, method, url and address.
request_fields-Bounded :
    (req : Object) (key : String)
    → includes ("id" ∷ "method" ∷ "url" ∷ "remoteAddress" ∷ []) key ≡ false
    → request_fields req key ≡ none
request_fields-Bounded req key other = ground arith
