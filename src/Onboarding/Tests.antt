-- ===== src/Onboarding/Tests.antt =====
-- Ann registers; the worker's mails and the store are one world.
use nestjs_microservice_plat.Prelude.{◌≡◌, refl, none, some, true, arith}
use nestjs_microservice_plat.Js.{str, Object, put, empty, remove, default, as_text}
use nestjs_microservice_plat.Errors.{forbidden}
use nestjs_microservice_plat.Action.{ok, err, Action, pure}
use nestjs_microservice_plat.Database.{Model}
use nestjs_microservice_plat.Database.Schema.{user_schema}
use nestjs_microservice_plat.Database.Memory.{Store, Storable}
use nestjs_microservice_plat.Database.MemorySchema.{filled, memory_for, memory_for-creation}
use nestjs_microservice_plat.Guards.{admit}
use nestjs_microservice_plat.Rabbit.{Message, Op}
use nestjs_microservice_plat.Auth.{Bcrypt, Jwt, Emit}
use nestjs_microservice_plat.Auth as Auth
use nestjs_microservice_plat.Auth.Service.{
  Session, RegisterDto, register, generate_tokens, sanitize_user, new_account,
}
use nestjs_microservice_plat.Notification.{Transports, Settings}
use nestjs_microservice_plat.Notification.Service.{send, send_email}
use nestjs_microservice_plat.Notification.Controller.{handle_user_created}
use nestjs_microservice_plat.Gateway.Users as Users
use nestjs_microservice_plat.Gateway.Access.{bare}
use nestjs_microservice_plat.Onboarding.{delivered, accepted}
use nestjs_microservice_plat.Onboarding.Laws.{greet, register-greets, new_account-no_admin}

abbrev users : Model Store
users = memory_for user_schema

-- Transports and a channel that take everything.
abbrev transports : Transports Store
transports = record {
  send_mail = λ mail. pure tt;
  is_initialized = λ w. true;
  initialize_app = pure tt;
  send_push = λ p. pure tt;
  create_sms = λ s. pure tt;
  emit_to = λ r content. pure tt;
}

abbrev settings : Settings
settings = record { smtp_from_email = none; twilio_phone_number = none }

abbrev perform : Op → Action Store (Unit {0})
perform op = pure tt

abbrev message : Message
message = record {
  exchange = "";
  routing_key = "notification.queue";
  content = "{}";
  properties = record {
    content_type = none;
    persistent = true;
    message_id = none;
    correlation_id = none;
    headers = empty;
    expiration = none;
  };
}

abbrev queue : Emit Store
queue = delivered transports settings perform message

abbrev bcrypt : Bcrypt Store
bcrypt = record { hash = λ s n. pure "$hash"; compare = λ s h w. ok true }

-- A token is the role.
abbrev role_tokens : Jwt Store
role_tokens = record {
  sign = λ payload secret expires w. ok (default (as_text (payload "role")) "");
  verify = λ token secret w. ok (put "role" (str token) empty);
}

abbrev auth : Auth.Settings
auth = record {
  bcrypt_rounds = 12;
  access_secret = some "a";
  access_expires_in = none;
  refresh_secret = some "r";
  refresh_expires_in = none;
}

abbrev ann : RegisterDto
ann = record { email = "ann@x.org"; password = "secret"; name = "Ann" }

abbrev ann_stored : Object
ann_stored = filled user_schema (new_account users bcrypt role_tokens queue auth ann "$hash")

abbrev session : Session
session = record {
  account = remove "password" ann_stored;
  tokens = record { access_token = "user"; refresh_token = "user" };
}

register-greets_example :
    (account : Object) × (before : Store) × (stored : Store) × (o : Object) × (users.create o before
      ≡ (ok account, stored))
    × (o "email" ≡ some (str "ann@x.org"))
    × (some ann_stored ≡ (greet transports settings perform message "ann@x.org" stored).1)
unfolding register generate_tokens sanitize_user handle_user_created send send_email
register-greets_example =
    register-greets transports settings perform message users bcrypt role_tokens auth Storable
      (memory_for-creation user_schema) ann none (some ann_stored) session (cc) (cc) refl

new_account-no_admin_example :
    (claims : Object) × (role_tokens.verify "user" (some "a") (some ann_stored) ≡ ok claims)
    × (admit (Users.route_metadata (Users.delete_route "u7")) bare (accepted claims)
        ≡ err (forbidden "Insufficient permissions"))
unfolding register generate_tokens sanitize_user handle_user_created send send_email
new_account-no_admin_example =
    new_account-no_admin users bcrypt role_tokens auth queue Storable (λ token w. Unit {0})
      (memory_for-creation user_schema) (cc)
      (λ payload expires token v u role signed lasts.
        let is : token ≡ "user" = ground arith in (put "role" (str token) empty, refl, rw is refl))
      ann none (some ann_stored) session "u7" refl tt
