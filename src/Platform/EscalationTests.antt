-- ===== src/Platform/EscalationTests.antt =====
-- Ann makes herself an administrator.
use nestjs_microservice_plat.Prelude.{◌≡◌, refl, none, some, true, arith, [], ◌∷◌}
use nestjs_microservice_plat.Js.{str, strs, Object, put, empty, default, as_text}
use nestjs_microservice_plat.Action.{ok, pure}
use nestjs_microservice_plat.Database.{fields}
use nestjs_microservice_plat.Database.Memory.{memory, memory-laws, updated, Store}
use nestjs_microservice_plat.Database.Repository.{find_one_and_update}
use nestjs_microservice_plat.Guards.{admit}
use nestjs_microservice_plat.Auth.{Bcrypt, Jwt, Emit}
use nestjs_microservice_plat.Auth as Auth
use nestjs_microservice_plat.Auth.Service.{refresh_token, generate_tokens}
use nestjs_microservice_plat.Interceptors.{Answer, transform, value}
use nestjs_microservice_plat.Gateway.Access.{bare}
use nestjs_microservice_plat.Gateway.Call.{call, Failure, failed}
use nestjs_microservice_plat.Gateway.Users as Gateway
use nestjs_microservice_plat.Users.Service.{
  Reply, a_user, maybe_user, a_page, sanitize_user, controller,
}
use nestjs_microservice_plat.Users.Service as UsersService
use nestjs_microservice_plat.Http.{Call, serve, guard, finish}
use nestjs_microservice_plat.Http.Gateway.{run, route_metadata}
use nestjs_microservice_plat.Onboarding.{accepted}
use nestjs_microservice_plat.Platform.{Transport}
use nestjs_microservice_plat.Platform.Users.{user_message, user_handlers, users_client}
use nestjs_microservice_plat.Platform.Escalation.{promotion, user_becomes_admin}

abbrev account : Object
account =
    put "_id" (str "u1") (put "email" (str "ann@x.org") (put "roles" (strs ("user" ∷ [])) empty))

abbrev promoted : Object
promoted = updated (fields promotion) account

-- What the gateway sends of an answer is not looked at.
abbrev unknown : Failure
unknown = record { message = none; status = none }

abbrev tcp : Transport Store Reply Answer
tcp = record {
  render = λ r. value (str "an answer");
  sent = λ e. unknown;
  other = λ name payload w. (failed unknown, w);
}

abbrev ann : Call
ann = record {
  request = record { url = "/api/users/u1"; correlation_id = none; now = "" };
  context = record { url = "/api/users/u1"; correlation_id = none; status_code = 200; now = "" };
  throttled = ok tt;
  verdict = record {
    error = none;
    user = some (record { sub = "u1"; email = "ann@x.org"; role = "user" });
  };
}

abbrev bcrypt : Bcrypt Store
bcrypt = record { hash = λ s n. pure "$hash"; compare = λ s h w. ok true }

-- A token is the role, and all are of the account "u1".
abbrev jwt : Jwt Store
jwt = record {
  sign = λ payload secret expires w. ok (default (as_text (payload "role")) "");
  verify = λ token secret w. ok (put "sub" (str "u1") (put "role" (str token) empty));
}

abbrev emit : Emit Store
emit = λ event payload. pure tt

abbrev settings : Auth.Settings
settings = record {
  bcrypt_rounds = 12;
  access_secret = some "a";
  access_expires_in = none;
  refresh_secret = some "r";
  refresh_expires_in = none;
}

user_becomes_admin_example :
    (claims : Object) × (jwt.verify "admin" (some "a") (some promoted) ≡ ok claims)
    × (admit (Gateway.route_metadata (Gateway.delete_route "u7")) bare (accepted claims)
        ≡ ok (accepted claims).user)
unfolding serve guard finish run route_metadata Gateway.route_metadata Gateway.controller
    Gateway.update call users_client user_handlers user_message controller UsersService.update
    sanitize_user find_one_and_update transform refresh_token generate_tokens
user_becomes_admin_example =
    user_becomes_admin memory memory-laws tcp bcrypt jwt emit settings (λ token w. Unit {0}) (cc)
      (λ payload expires token v u role signed lasts.
        let is : token ≡ "admin" = ground arith in
        (put "sub" (str "u1") (put "role" (str token) empty), refl, rw is refl))
      5 "u1" "u7" "user" ann (some account) (some promoted) (some promoted)
      (transform ann.context (value (str "an answer")))
      (put "sub" (str "u1") (put "role" (str "user") empty))
      (record { access_token = "admin"; refresh_token = "admin" }) refl refl refl refl tt
