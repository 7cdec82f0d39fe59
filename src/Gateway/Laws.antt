-- ===== src/Gateway/Laws.antt =====
-- What the gateway sends for each route, and how the answer comes out.
use nestjs_microservice_plat.Prelude.{pos, ◌≡◌, refl, String}
use nestjs_microservice_plat.Prelude.Int.{◌-ℤ◌, ◌*ℤ◌}
use nestjs_microservice_plat.Js.{str, num, put, spread, empty, or_text, default}
use nestjs_microservice_plat.Errors.{http_exception, coded}
use nestjs_microservice_plat.Action.{Result, ok, err}
use nestjs_microservice_plat.Constants.{JwtPayload}
use nestjs_microservice_plat.Gateway.Call.{
  Payload, fields, updates, Reply, value, failed, broken, late, completed, Client, or_status,
  settle, call, page_payload,
}
use nestjs_microservice_plat.Gateway.Todos as Todos
use nestjs_microservice_plat.Gateway.Books as Books
use nestjs_microservice_plat.Gateway.Users as Users

-- How an answer of a service may come out: a value as it is, an error of the service as an
-- `HttpException` with its status, 500 where it has none, and anything else with status 500.
abbrev pub Settles : {A : Type 0} → Reply A → Result A → Type 0
Settles (value a) r = r ≡ ok a
Settles (failed f) r =
    (fallback : String) × (r
      ≡ err (http_exception (or_text f.message fallback) (or_status f.status)))
Settles _ r = (message : String) × (r ≡ err (http_exception message (coded 500)))

-- One message is sent, nothing else happens, and its answer comes out.
abbrev pub Forwards : {W A : Type 0} → Client W A → String × Payload → W → Result A × W → Type 0
Forwards client (name, payload) w out =
    (out.1 ≡ (client name payload w).1) × Settles (client name payload w).0 out.0

settle-Settles :
    {A : Type 0} (fallback message : String) (reply : Reply A)
    → Settles reply (settle fallback message reply)
settle-Settles fallback message (value a) = refl
settle-Settles fallback message (failed f) = (fallback, refl)
settle-Settles fallback message (broken f) = (message, refl)
settle-Settles fallback message late = ("Timeout has occurred", refl)
settle-Settles fallback message completed = (message, refl)

pub call-Forwards :
    {W A : Type 0} (client : Client W A) (fallback message name : String) (payload : Payload)
    (w : W)
    → Forwards client (name, payload) w (call client fallback message name payload w)
unfolding call
call-Forwards client fallback message name payload w =
    (refl, settle-Settles fallback message (client name payload w).0)

-- The message of each todos route: the caller's id goes into the payloads of the routes that create,
-- list and update, and the page number becomes the number of documents to skip.
abbrev pub todos_message : JwtPayload → Todos.Route → String × Payload
unfolding ◌-ℤ◌ ◌*ℤ◌
todos_message caller (Todos.create_route dto) =
    ("todo.create", fields (spread (put "userId" (str caller.sub) empty) dto))
todos_message caller (Todos.list_route page limit) = (
  "todo.findByUser",
  page_payload caller.sub ((default page (pos 1) -ℤ pos 1) *ℤ default limit (pos 10))
      (default limit (pos 10)),
)
todos_message caller (Todos.find_route id) = ("todo.findById", fields (put "id" (str id) empty))
todos_message caller (Todos.update_route id dto) =
    ("todo.update", fields (spread (put "id" (str id) (put "userId" (str caller.sub) empty)) dto))
todos_message caller (Todos.delete_route id) = ("todo.delete", fields (put "id" (str id) empty))

abbrev pub books_message : JwtPayload → Books.Route → String × Payload
unfolding ◌-ℤ◌ ◌*ℤ◌
books_message caller (Books.create_route dto) =
    ("book.create", fields (spread (put "userId" (str caller.sub) empty) dto))
books_message caller (Books.list_route page limit) = (
  "book.findByUser",
  page_payload caller.sub ((default page (pos 1) -ℤ pos 1) *ℤ default limit (pos 10))
      (default limit (pos 10)),
)
books_message caller (Books.find_route id) = ("book.findById", fields (put "id" (str id) empty))
books_message caller (Books.update_route id dto) =
    ("book.update", fields (spread (put "id" (str id) (put "userId" (str caller.sub) empty)) dto))
books_message caller (Books.delete_route id) = ("book.delete", fields (put "id" (str id) empty))

abbrev pub users_message : JwtPayload → Users.Route → String × Payload
unfolding ◌-ℤ◌ ◌*ℤ◌
users_message caller (Users.all_route page limit) = (
  "user.list",
  fields (
      put "skip" (num ((default page (pos 1) -ℤ pos 1) *ℤ default limit (pos 10)))
        (put "limit" (num (default limit (pos 10))) empty)),
)
users_message caller Users.me_route = ("user.findById", fields (put "id" (str caller.sub) empty))
users_message caller (Users.find_route id) = ("user.findById", fields (put "id" (str id) empty))
users_message caller (Users.update_route id dto) = ("user.update", updates id dto)
users_message caller (Users.delete_route id) = ("user.delete", fields (put "id" (str id) empty))

module _ {W A : Type 0} (client : Client W A) (caller : JwtPayload) where
  -- Each route of the gateway for todos sends one message, the one of the table for it, and
  -- nothing else happens; it answers with the value of the service, with the status of its error,
  -- 500 where that has none, or with status 500 for everything else.
  pub todos_routes-Forward :
      (route : Todos.Route) (w : W)
      → Forwards client (todos_message caller route) w (Todos.controller client caller route w)
  unfolding Todos.controller Todos.create Todos.find_by_id Todos.find_by_user Todos.update
      Todos.delete Todos.list Todos.create_payload Todos.update_payload
  todos_routes-Forward (Todos.create_route dto) w = call-Forwards client _ _ _ _ w
  todos_routes-Forward (Todos.list_route page limit) w = call-Forwards client _ _ _ _ w
  todos_routes-Forward (Todos.find_route id) w = call-Forwards client _ _ _ _ w
  todos_routes-Forward (Todos.update_route id dto) w = call-Forwards client _ _ _ _ w
  todos_routes-Forward (Todos.delete_route id) w = call-Forwards client _ _ _ _ w

  -- The same for each route of the books controller.
  pub books_routes-Forward :
      (route : Books.Route) (w : W)
      → Forwards client (books_message caller route) w (Books.controller client caller route w)
  unfolding Books.controller Books.create Books.find_by_id Books.find_by_user Books.update
      Books.delete Books.list Books.create_payload Books.update_payload
  books_routes-Forward (Books.create_route dto) w = call-Forwards client _ _ _ _ w
  books_routes-Forward (Books.list_route page limit) w = call-Forwards client _ _ _ _ w
  books_routes-Forward (Books.find_route id) w = call-Forwards client _ _ _ _ w
  books_routes-Forward (Books.update_route id dto) w = call-Forwards client _ _ _ _ w
  books_routes-Forward (Books.delete_route id) w = call-Forwards client _ _ _ _ w

  -- The same for each route of the users controller.
  pub users_routes-Forward :
      (route : Users.Route) (w : W)
      → Forwards client (users_message caller route) w (Users.controller client caller route w)
  unfolding Users.controller Users.find_by_id Users.find_all Users.update Users.delete
  users_routes-Forward (Users.all_route page limit) w = call-Forwards client _ _ _ _ w
  users_routes-Forward Users.me_route w = call-Forwards client _ _ _ _ w
  users_routes-Forward (Users.find_route id) w = call-Forwards client _ _ _ _ w
  users_routes-Forward (Users.update_route id dto) w = call-Forwards client _ _ _ _ w
  users_routes-Forward (Users.delete_route id) w = call-Forwards client _ _ _ _ w
