-- ===== src/Onboarding.antt =====
-- A registration across the services: apps/auth-service announces the account, and
-- apps/notification-worker greets it; the gateway lets the tokens of the account through its guards.
pub mod Laws
pub mod Tests
use nestjs_microservice_plat.Prelude.{String, none, some, ◌==◌, if◌then◌else◌}
use nestjs_microservice_plat.Js.{Object, as_text, default}
use nestjs_microservice_plat.Action.{Action, pure}
use nestjs_microservice_plat.Constants.{JwtPayload}
use nestjs_microservice_plat.Constants.Patterns.{EventPattern, event_patterns}
use nestjs_microservice_plat.Guards.{Verdict}
use nestjs_microservice_plat.Rabbit.{Message, Op}
use nestjs_microservice_plat.Auth.{Emit}
use nestjs_microservice_plat.Auth.Strategies.{validate_access}
use nestjs_microservice_plat.Notification.{Transports, Settings}
use nestjs_microservice_plat.Notification.Controller.{handle_user_created}

-- The queue between the two services, when it delivers an event at once: the worker's handler by
-- its pattern, with the delivery that the event makes.
abbrev pub delivered :
    {W : Type 0} → Transports W → Settings → (Op → Action W (Unit {0})) → Message → Emit W
delivered transports settings perform m name content =
    if name == event_patterns EventPattern.user_created
    then handle_user_created transports settings perform content m
    else pure tt

-- The claims of a verified token as `JwtStrategy.validate` reads them.
abbrev pub payload_of : Object → JwtPayload
payload_of claims = record {
  sub = default (as_text (claims "sub")) "";
  email = default (as_text (claims "email")) "";
  role = default (as_text (claims "role")) "";
}

-- What passport hands to the guard for such a token.
unfoldable pub accepted : Object → Verdict
unfolding validate_access
accepted claims = record { error = none; user = some (validate_access (payload_of claims)) }
