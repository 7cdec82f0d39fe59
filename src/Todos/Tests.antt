-- ===== src/Todos/Tests.antt =====
-- The todos service on a collection with one todo.
use nestjs_microservice_plat.Prelude.{◌≡◌, refl, ◌≤◌, [], ◌∷◌, none, some, All, length}
use nestjs_microservice_plat.Js.{str, Object, put, empty}
use nestjs_microservice_plat.Database.Memory.{memory, memory-laws}
use nestjs_microservice_plat.Database.Repository.{Page, find_and_count}
use nestjs_microservice_plat.Todos.Controller.{PageDto}
use nestjs_microservice_plat.Todos.Laws.{by_status, list_todos, Shown, list_todos-Shown}

abbrev milk : Object
milk = put "_id" (str "t1") (put "userId" (str "u1") (put "status" (str "pending") empty))

abbrev first_page : PageDto
first_page = record { user_id = "u1"; skip = none; limit = none }

abbrev one_item : Page
one_item = record { items = milk ∷ []; total = 1 }

list_todos-Shown_example :
    All (Shown (by_status first_page "pending")) one_item.items
    × (length one_item.items ≤ 10)
    × (some milk ≡ some milk)
unfolding list_todos find_and_count
list_todos-Shown_example =
    list_todos-Shown memory memory-laws (by_status first_page "pending") (some milk) (some milk)
      one_item 9 refl refl
