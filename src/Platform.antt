-- ===== src/Platform.antt =====
-- The gateway over the services that it calls: what Nest's TCP transport does is a record of
-- parameters, and one request runs at a time.
pub mod Todos
pub mod TodosLaws
pub mod Users
pub mod Escalation
pub mod EscalationTests
pub mod Laws
pub mod Tests
use nestjs_microservice_plat.Prelude.{Option, none, some}
use nestjs_microservice_plat.Errors.{Exception}
use nestjs_microservice_plat.Action.{Action, Result, ok, err}
use nestjs_microservice_plat.Prelude.{String}
use nestjs_microservice_plat.Gateway.Call.{Reply, value, failed, Failure, Payload, Client}

-- What the transport makes of an answer of type `A`, of an exception of a handler and of `other`
-- messages: those that no handler takes, and those whose data have not the types that the handler
-- declares, of which JavaScript makes what the transport and the handler's checks make of them.
pub record Transport (W A B : Type 0) : Type 0 where
  pub render : A → B
  pub sent : Exception → Failure
  pub other : String → Payload → W → Reply B × W

module _ {W A B : Type 0} (transport : Transport W A B) where
  abbrev pub reply_of : Result A → Reply B
  reply_of (ok a) = value (transport.render a)
  reply_of (err e) = failed (transport.sent e)

  -- The proxy's view of a service: `none` is one of the other messages.
  abbrev pub deliver : String → Payload → Option (Action W A) → W → Reply B × W
  deliver name payload none w = transport.other name payload w
  deliver name payload (some handler) w = (reply_of (handler w).0, (handler w).1)

  -- The client proxy for a service, by the handler that takes a message.
  unfoldable pub service_client : (String → Payload → Option (Action W A)) → Client W B
  service_client handlers name payload = deliver name payload (handlers name payload)
