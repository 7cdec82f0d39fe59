-- ===== src/Rabbit.antt =====
-- libs/rabbitmq: the retry of a consumer, the publisher and the declared topology. The broker and
-- its client library are parameters.
pub mod Consumer
pub mod Publisher
pub mod Settlement
pub mod Retries
pub mod Topology
pub mod Module
pub mod Tests
use nestjs_microservice_plat.Prelude.{ℕ, String, Bool, List, ◌∷◌, [], ◌++◌, Option, ◌≡◌}
use nestjs_microservice_plat.Js.{Object}
use nestjs_microservice_plat.Action.{Action, Result, ok}

-- The properties of a message, as far as the code sets them.
pub record Properties : Type 0 where
  pub content_type : Option String
  pub persistent : Bool
  pub message_id : Option String
  pub correlation_id : Option String
  pub headers : Object
  pub expiration : Option ℕ

pub record Message : Type 0 where
  pub exchange : String
  pub routing_key : String
  pub content : String
  pub properties : Properties

-- The calls of a channel. `nack` has `allUpTo` and `requeue`.
pub data Op : Type 0 where
  ack : Message → Op
  nack : Message → Bool → Bool → Op
  publish : Message → Op

-- What is relied on of a channel that stays open: each call succeeds and is recorded.
pub record OpenChannel {W : Type 0} (perform : Op → Action W (Unit {0})) (log : W → List Op)
    : Type 0 where
  pub succeeds : (op : Op) (w : W) → (perform op w).0 ≡ ok tt
  pub recorded : (op : Op) (w : W) → log (perform op w).1 ≡ log w ++ op ∷ []
