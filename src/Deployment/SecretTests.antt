-- ===== src/Deployment/SecretTests.antt =====
-- An environment without a secret for refresh tokens.
use nestjs_microservice_plat.Prelude.{
  ◌≡◌, refl, ap, ◌∙◌, String, true, false, Option, none, some, ◌==◌, ◌&&◌, if◌then◌else◌, arith,
  eq_iff, [], ◌∷◌,
}
use nestjs_microservice_plat.Js.{Value, is_text, Object, str, strs, empty, put}
use nestjs_microservice_plat.Errors.{error}
use nestjs_microservice_plat.Action.{Result, ok, err}
use nestjs_microservice_plat.Config.{Env}
use nestjs_microservice_plat.Config.Numbers.{is_blank}
use nestjs_microservice_plat.Guards.{Verdict, admit}
use nestjs_microservice_plat.Gateway.Access.{bare}
use nestjs_microservice_plat.Onboarding.{accepted}
use nestjs_microservice_plat.Auth.{Jwt}
use nestjs_microservice_plat.Auth.Service.{generate_tokens}
use nestjs_microservice_plat.Auth.Strategies.{Request}
use nestjs_microservice_plat.Auth.StrategyTests.{first_token, header_token, first_token-Extraction}
use nestjs_microservice_plat.Deployment.Secrets.{
  StrategyOptions, jwt_strategy_options, auth_jwt_options,
}
use nestjs_microservice_plat.Deployment.SecretLaws.{
  refresh, JwtLaws, PassportLaws, session_tokens_admitted,
}

abbrev env : Env
env name = if name == "JWT_ACCESS_SECRET" then some "a" else none

abbrev ann : Object
ann = put "_id" (str "u1") (put "email" (str "ann@x.org") (put "roles" (strs ("user" ∷ [])) empty))

abbrev claims : Object
claims = put "sub" (str "u1") (put "email" (str "ann@x.org") (put "role" (str "user") empty))

-- It signs for Ann alone, and her token says who she is.
abbrev jwt : Jwt (Unit {0})
jwt = record {
  sign = λ payload secret expires w.
      if is_text (payload "sub") "u1"
        && (is_text (payload "email") "ann@x.org" && is_text (payload "role") "user")
      then ok "ann"
      else err (error "not Ann");
  verify = λ token secret w. if token == "ann" then ok claims else err (error "jwt malformed");
}

abbrev Lasts : String → Unit {0} → Type 0
Lasts token w = Unit {0}

is_text_sound : (o : Option Value) (s : String) → is_text o s ≡ true → some (str s) ≡ o
is_text_sound (some (str t)) s h = ground (arith, eq_iff t s)
is_text_sound o s h = cc

ann_signs : JwtLaws jwt Lasts "a"
unfolding is_blank
ann_signs = record {
  plain = λ payload s expires token v signed.
      let is : token ≡ "ann" = ground arith in ((rw is (cc)), rw is refl);
  verifies = λ payload s expires token v u signed going.
      let is : token ≡ "ann" = ground arith in
      (
        claims,
        rw is refl,
        is_text_sound (payload "sub") "u1" (ground arith),
        is_text_sound (payload "email") "ann@x.org" (ground arith),
        is_text_sound (payload "role") "user" (ground arith),
      );
  of_module = λ payload expires v. refl;
}

abbrev on_verified : Option (Result Object) → Verdict
on_verified (some (ok found)) = accepted found
on_verified (some (err e)) = record { error = some e; user = none }
on_verified none = record { error = none; user = none }

abbrev on_token : StrategyOptions → Option String → Verdict
on_token options none = on_verified none
on_token options (some token) =
    on_verified (some (jwt.verify token (some options.secret_or_key) tt))

abbrev authenticate : StrategyOptions → Request → Unit {0} → Verdict
authenticate options request w = on_token options (options.token_from request)

takes_what_verifies : PassportLaws jwt authenticate
takes_what_verifies = record {
  takes = λ options request token found u strict sent verified.
      ap (on_token options) sent ∙ ap (λ r. on_verified (some r)) verified;
}

session_tokens_admitted_example :
    admit bare bare (
      authenticate
        (record {
          token_from = header_token;
          ignore_expiration = false;
          secret_or_key = "a";
          pass_req_to_callback = false;
        })
        (record { cookie = none; authorization = some "Bearer ann" })
        tt)
    ≡ ok (some (record { sub = "u1"; email = "ann@x.org"; role = "user" }))
unfolding generate_tokens jwt_strategy_options auth_jwt_options is_blank
session_tokens_admitted_example =
    session_tokens_admitted jwt Lasts env first_token header_token authenticate 12 ann "u1"
      "ann@x.org" "user" (record { access_token = "ann"; refresh_token = "ann" }) refresh
      (record { secret = "a"; expires_in = none })
      (record {
        token_from = header_token;
        ignore_expiration = false;
        secret_or_key = "a";
        pass_req_to_callback = false;
      })
      (record { cookie = none; authorization = some "Bearer ann" }) tt tt tt tt tt
      first_token-Extraction takes_what_verifies ann_signs refl refl refl refl refl refl refl refl
      tt
