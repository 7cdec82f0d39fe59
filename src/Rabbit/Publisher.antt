-- ===== src/Rabbit/Publisher.antt =====
-- libs/rabbitmq/src/rabbitmq.publisher.ts. The payload is the text that the channel makes of it.
use nestjs_microservice_plat.Prelude.{ℕ, pos, String, Bool, true, Option, some}
use nestjs_microservice_plat.Js.{num, Object, empty, field, spread, default}
use nestjs_microservice_plat.Action.{Action, try_catch, throw}
use nestjs_microservice_plat.Rabbit.{Message, Op, publish}

pub record PublishOptions : Type 0 where
  pub message_id : Option String
  pub persistent : Option Bool
  pub correlation_id : Option String
  pub headers : Option Object
  pub expiration : Option ℕ

-- The message that goes to the channel.
unfoldable pub message_for : String → String → String → PublishOptions → Message
message_for exchange routing_key payload options = record {
  exchange = exchange;
  routing_key = routing_key;
  content = payload;
  properties = record {
    content_type = some "application/json";
    persistent = default options.persistent true;
    message_id = options.message_id;
    correlation_id = options.correlation_id;
    headers = spread (field "x-attempt" (some (num (pos 0)))) (default options.headers empty);
    expiration = options.expiration;
  };
}

-- The `catch` logs the error and throws it again.
unfoldable pub publish_event :
    {W : Type 0}
    → (Op → Action W (Unit {0}))
    → String
    → String
    → String
    → PublishOptions
    → Action W (Unit {0})
unfolding message_for
publish_event perform exchange routing_key payload options =
    try_catch (perform (publish (message_for exchange routing_key payload options))) throw
