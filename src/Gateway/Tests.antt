-- ===== src/Gateway/Tests.antt =====
-- Routes of the gateway over a client that answers at once.
use nestjs_microservice_plat.Prelude.{ℕ, suc, ◌≡◌, refl, String, none, some}
use nestjs_microservice_plat.Js.{str, Object, put, empty, spread}
use nestjs_microservice_plat.Errors.{DomainException}
use nestjs_microservice_plat.Errors.AllExceptions.{Request}
use nestjs_microservice_plat.Action.{ok}
use nestjs_microservice_plat.Constants.{JwtPayload}
use nestjs_microservice_plat.Guards.{Verdict}
use nestjs_microservice_plat.Gateway.Call.{value, Client}
use nestjs_microservice_plat.Gateway.Todos as Todos
use nestjs_microservice_plat.Database.{by_id}
use nestjs_microservice_plat.Database
use nestjs_microservice_plat.Database.Memory.{memory, memory-laws, updated}
use nestjs_microservice_plat.Database.Repository.{find_one_and_update}
use nestjs_microservice_plat.Todos.Controller as TodosController
use nestjs_microservice_plat.Gateway.Access.{gateway_update_takes_over}

-- A client that counts its calls.
abbrev counting : Client ℕ String
counting name payload w = (value "done", suc w)

abbrev ann : JwtPayload
ann = record { sub = "u1"; email = "ann@x.org"; role = "user" }

abbrev update_todo : Todos.Route
update_todo = Todos.update_route "t1" (put "title" (str "milk") empty)

abbrev root : JwtPayload
root = record { sub = "u2"; email = "root@x.org"; role = "admin" }

abbrev accepted : Verdict
accepted = record { error = none; user = some root }

abbrev missing : DomainException
missing = record { code = "NOT_FOUND"; message = "No such todo"; status = 404; details = none }

abbrev request : Request
request = record { url = "/api/todos/t1"; correlation_id = none; now = "2024-01-01T00:00:00.000Z" }

abbrev milk : Object
milk = put "_id" (str "t1") (put "userId" (str "u1") empty)

abbrev mallory : JwtPayload
mallory = record { sub = "mallory"; email = "mallory@x.org"; role = "user" }

-- what the gateway sends for Mallory's update of Ann's todo
abbrev sent : Object
sent =
    spread (put "id" (str "t1") (put "userId" (str "mallory") empty))
      (put "title" (str "tea") empty)

abbrev tea : Object
tea = updated (Database.fields sent) milk

gateway_update_takes_over_example :
    (tea "userId" ≡ some (str "mallory"))
    × (memory.find_one (by_id "t1") (some tea) ≡ ok (some tea))
unfolding Todos.update_payload TodosController.update find_one_and_update
gateway_update_takes_over_example =
    gateway_update_takes_over memory memory-laws mallory "t1" (put "title" (str "tea") empty) sent
      tea (some milk) (some tea) (cc) refl refl refl
