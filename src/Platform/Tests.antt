-- ===== src/Platform/Tests.antt =====
-- A caller, the gateway and the todos service on a collection with one todo.
use nestjs_microservice_plat.Prelude.{◌≡◌, refl, ◌≢◌, ◌≤◌, [], ◌∷◌, none, some, All, length}
use nestjs_microservice_plat.Js.{str, date, Object, put, empty, null}
use nestjs_microservice_plat.Action.{ok}
use nestjs_microservice_plat.Constants.{JwtPayload}
use nestjs_microservice_plat.Database.{fields}
use nestjs_microservice_plat.Database.Memory.{memory, memory-laws, updated, Store}
use nestjs_microservice_plat.Database.Repository.{
  Page, find_and_count, soft_delete, find_one_and_update,
}
use nestjs_microservice_plat.Interceptors.{Answer, Transformed, transform, object, value}
use nestjs_microservice_plat.Gateway.Call.{call, Failure, failed}
use nestjs_microservice_plat.Gateway.Todos as Gateway
use nestjs_microservice_plat.Todos.Controller as TodosController
use nestjs_microservice_plat.Todos.Laws.{IsLiveOf}
use nestjs_microservice_plat.Http.{Call, answered, serve, guard, finish}
use nestjs_microservice_plat.Http.Gateway.{run, route_metadata}
use nestjs_microservice_plat.Platform.{Transport}
use nestjs_microservice_plat.Platform.Todos.{
  TodoAnswer, a_todo, a_page, todo_message, handle_todo, todos_client,
}
use nestjs_microservice_plat.Platform.TodosLaws.{
  request, own_todos_listed, any_todo_read, deleted_todo_hidden,
}

abbrev milk : Object
milk = put "_id" (str "t1") (put "userId" (str "u1") (put "status" (str "pending") empty))

-- The first item stands for a page.
abbrev render : TodoAnswer → Answer
render (a_todo todo) = object todo
render (a_page page) = elim page.items [ [] ↦ value null | todo ∷ rest ↦ object todo ]

abbrev unknown : Failure
unknown = record { message = none; status = none }

abbrev tcp : Transport Store TodoAnswer Answer
tcp = record { render = render; sent = λ e. unknown; other = λ name payload w. (failed unknown, w) }

abbrev call_of : JwtPayload → Call
call_of caller = record {
  request = record { url = "/api/todos"; correlation_id = none; now = "" };
  context = record { url = "/api/todos"; correlation_id = none; status_code = 200; now = "" };
  throttled = ok tt;
  verdict = record { error = none; user = some caller };
}

abbrev ann : JwtPayload
ann = record { sub = "u1"; email = "ann@x.org"; role = "user" }

abbrev bob : JwtPayload
bob = record { sub = "u2"; email = "bob@x.org"; role = "user" }

abbrev answer_of : JwtPayload → Answer → Transformed
answer_of caller a = transform (call_of caller).context a

own_todos_listed_example :
    (u : JwtPayload) × (p : Page) × ((call_of ann).verdict.user ≡ some u)
    × ((answer_of ann (object milk)).content ≡ tcp.render (a_page p))
    × All (IsLiveOf u.sub) p.items
    × (length p.items ≤ 10)
    × (some milk ≡ some milk)
unfolding serve guard finish run route_metadata call todos_client todo_message handle_todo
    TodosController.find_by_user find_and_count transform Gateway.controller Gateway.list
    Gateway.find_by_user
own_todos_listed_example =
    own_todos_listed memory memory-laws tcp 5 none none (call_of ann) (some milk) (some milk)
      (answer_of ann (object milk)) 9 refl refl

-- Bob reads what Ann wrote.
any_todo_read_example :
    request memory 5 tcp (Gateway.find_route "t1") (call_of bob) (some milk)
    ≡ (answered (transform (call_of bob).context (tcp.render (a_todo milk))), some milk)
unfolding guard
any_todo_read_example =
    any_todo_read memory memory-laws tcp 5 "t1" milk (call_of bob) (some milk) bob refl refl

-- the todo after the deletion
abbrev gone : Object
gone = updated (fields (put "deletedAt" (date 5) empty)) milk

deleted_todo_hidden_example :
    (p : Page) × ((answer_of ann (value null)).content ≡ tcp.render (a_page p))
    × All (λ x. x "_id" ≢ some (str "t1")) p.items
unfolding serve guard finish run route_metadata call todos_client todo_message handle_todo
    TodosController.find_by_user TodosController.delete soft_delete find_one_and_update
    find_and_count transform Gateway.controller Gateway.list Gateway.find_by_user Gateway.delete
deleted_todo_hidden_example =
    deleted_todo_hidden memory memory-laws tcp 5 6 "t1" none none (call_of bob) (call_of ann)
      (some milk) (some gone) (some gone) (answer_of bob (object gone)) (answer_of ann (value null))
      (cc) refl refl
