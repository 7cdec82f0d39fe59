-- ===== src/Http/AuthTests.antt =====
-- A login without a token.
use nestjs_microservice_plat.Prelude.{ℕ, suc, ◌≡◌, ◌⊎◌, refl, none}
use nestjs_microservice_plat.Js.{null, str, put, empty}
use nestjs_microservice_plat.Action.{ok}
use nestjs_microservice_plat.Interceptors.{Answer, value}
use nestjs_microservice_plat.Gateway.Call as Call
use nestjs_microservice_plat.Gateway.Auth.{route_metadata}
use nestjs_microservice_plat.Gateway.Access.{bare}
use nestjs_microservice_plat.Http.{Call, serve}
use nestjs_microservice_plat.Http.Laws.{IsCovered, HandsOn}
use nestjs_microservice_plat.Http.Auth.{
  OpenRequest, logging_in, open_route, open_message, run_auth, serve_open-IsCovered,
}

-- An auth service that counts its messages.
abbrev counting : Call.Client ℕ Answer
counting name payload w = (Call.value (value null), suc w)

abbrev ann : OpenRequest
ann = logging_in (put "email" (str "ann@x.org") empty)

abbrev anonymous : Call
anonymous = record {
  request = record { url = "/api/auth/login"; correlation_id = none; now = "" };
  context = record { url = "/api/auth/login"; correlation_id = none; status_code = 200; now = "" };
  throttled = ok tt;
  verdict = record { error = none; user = none };
}

serve_open-IsCovered_example :
    let out =
      serve
        (route_metadata (open_route ann))
        bare
        anonymous
        (run_auth counting (open_route ann))
        0 in
    let sent = counting (open_message ann).0 (open_message ann).1 0 in
    (out.1 ≡ sent.1) × (IsCovered out.0 ⊎ HandsOn sent.0 out.0)
serve_open-IsCovered_example = serve_open-IsCovered counting ann anonymous 0 refl
