-- ===== src/Http/Tests.antt =====
-- Requests to the gateway and to the posts service.
use nestjs_microservice_plat.Prelude.{ℕ, suc, ◌≡◌, refl, false, ◌⊎◌, none, some}
use nestjs_microservice_plat.Js.{null, str, Object, put, empty}
use nestjs_microservice_plat.Errors.{Exception, error, uncoded, plain}
use nestjs_microservice_plat.Errors.AllExceptions.{Request}
use nestjs_microservice_plat.Action.{ok, err}
use nestjs_microservice_plat.Constants.{JwtPayload}
use nestjs_microservice_plat.Guards.{admit}
use nestjs_microservice_plat.Database.Memory.{memory}
use nestjs_microservice_plat.Interceptors.{Answer, Context, value}
use nestjs_microservice_plat.Gateway.Call as Call
use nestjs_microservice_plat.Gateway.Todos as Todos
use nestjs_microservice_plat.Gateway.Access.{bare}
use nestjs_microservice_plat.Posts.Ownership.{publish, MayEdit}
use nestjs_microservice_plat.Http.{Call, uncovered, refused, guard, filter, finish, serve}
use nestjs_microservice_plat.Http.Gateway.{Route, todos, run, route_metadata, route_message}
use nestjs_microservice_plat.Http.Laws.{serve-needs_user, serve-IsCovered, IsCovered, HandsOn}
use nestjs_microservice_plat.Http.Posts.{change_post, change_post-guarded, common_admin-uncovered}

-- A service that counts its messages.
abbrev counting : Call.Client ℕ Answer
counting name payload w = (Call.value (value null), suc w)

abbrev root : JwtPayload
root = record { sub = "root"; email = "root@x.org"; role = "admin" }

abbrev request : Request
request = record { url = "/api/todos/t1"; correlation_id = none; now = "2024-01-01T00:00:00.000Z" }

abbrev context : Context
context = record {
  url = "/api/todos/t1";
  correlation_id = none;
  status_code = 200;
  now = "2024-01-01T00:00:00.000Z";
}

-- A request without a token, and one with a token of an administrator.
abbrev anonymous : Call
anonymous = record {
  request = request;
  context = context;
  throttled = ok tt;
  verdict = record { error = none; user = none };
}

abbrev of_root : Call
of_root = record anonymous { verdict = record { error = none; user = some root } }

abbrev find_milk : Route
find_milk = todos (Todos.find_route "t1")

serve-needs_user_example :
    ((u : JwtPayload) × (of_root.verdict.user ≡ some u)
      × (guard (route_metadata find_milk) bare of_root ≡ ok (some u))
      × ((serve (route_metadata find_milk) bare of_root (run counting find_milk) 0).1
          ≡ (counting (route_message u find_milk).0 (route_message u find_milk).1 0).1))
    ⊎ ((e : Exception) × (guard (route_metadata find_milk) bare of_root ≡ err e)
        × (serve (route_metadata find_milk) bare of_root (run counting find_milk) 0
            ≡ (filter of_root.request e, 0)))
serve-needs_user_example = serve-needs_user counting find_milk of_root 0

-- A service whose exceptions are not RpcExceptions: Nest gives them the status 'error'.
abbrev failing : Call.Client ℕ Answer
failing name payload w = (
  Call.failed (record { message = some "Internal server error"; status = some (str "error") }),
  suc w,
)

serve-IsCovered_example :
    IsCovered (serve (route_metadata find_milk) bare of_root (run failing find_milk) 0).0
    ⊎ ((u : JwtPayload) × (guard (route_metadata find_milk) bare of_root ≡ ok (some u))
        × HandsOn
            (failing (route_message u find_milk).0 (route_message u find_milk).1 0).0
            (serve (route_metadata find_milk) bare of_root (run failing find_milk) 0).0)
serve-IsCovered_example = serve-IsCovered failing find_milk of_root 0 (λ x e. cc) (λ x e. cc)

-- The text is what the filter hands to express.
text_for_status : serve (route_metadata find_milk) bare of_root (run failing find_milk) 0 ≡ (
  refused (uncoded (str "error")) (record {
    success = false;
    status_code = uncoded (str "error");
    message = plain "Internal server error";
    timestamp = "2024-01-01T00:00:00.000Z";
    path = "/api/todos/t1";
  }),
  1,
)
unfolding serve route_metadata guard finish filter run Todos.controller Todos.find_by_id Call.call
text_for_status = refl

abbrev essay : Object
essay = put "_id" (str "p1") (put "userId" (str "u1") empty)

change_post-guarded_example :
    ((u : JwtPayload) × (post : Object) × (of_root.verdict.user ≡ some u)
      × (memory.find_by_id "p1" (some essay) ≡ ok (some post))
      × MayEdit post u)
    ⊎ ((e : Exception) × (serve bare bare of_root (change_post memory publish "p1") (some essay)
          ≡ (filter of_root.request e, some essay)))
change_post-guarded_example = change_post-guarded memory publish "p1" of_root (some essay)

common_admin-uncovered_example :
    serve bare bare of_root (change_post memory publish "p1") (some essay)
    ≡ (uncovered (error "Unauthorized"), some essay)
unfolding guard admit
common_admin-uncovered_example =
    common_admin-uncovered memory publish "p1" of_root root (some essay) essay refl refl refl (cc)
