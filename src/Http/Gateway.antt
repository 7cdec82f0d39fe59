-- ===== src/Http/Gateway.antt =====
-- The routes of apps/api-gateway for todos, books and users as Nest runs them.
use nestjs_microservice_plat.Prelude.{String, Option, none, some}
use nestjs_microservice_plat.Errors.{error}
use nestjs_microservice_plat.Action.{Action, throw}
use nestjs_microservice_plat.Constants.{JwtPayload}
use nestjs_microservice_plat.Guards.{Metadata}
use nestjs_microservice_plat.Interceptors.{Answer}
use nestjs_microservice_plat.Gateway.Call.{Client, Payload}
use nestjs_microservice_plat.Gateway.Laws.{todos_message, books_message, users_message}
use nestjs_microservice_plat.Gateway.Access.{bare}
use nestjs_microservice_plat.Gateway.Todos as Todos
use nestjs_microservice_plat.Gateway.Books as Books
use nestjs_microservice_plat.Gateway.Users as Users

pub data Route : Type 0 where
  todos : Todos.Route → Route
  books : Books.Route → Route
  users : Users.Route → Route

-- The controllers of todos and books have no decorator that the guards read.
unfoldable pub route_metadata : Route → Metadata
unfolding Users.route_metadata
route_metadata (users route) = Users.route_metadata route
route_metadata _ = bare

unfoldable pub route_message : JwtPayload → Route → String × Payload
route_message caller (todos route) = todos_message caller route
route_message caller (books route) = books_message caller route
route_message caller (users route) = users_message caller route

-- The handler of a route with `request.user`; without one its `sub` cannot be read.
unfoldable pub run : {W : Type 0} → Client W Answer → Route → Option JwtPayload → Action W Answer
unfolding Todos.controller Books.controller Users.controller
run client (todos route) (some caller) = Todos.controller client caller route
run client (books route) (some caller) = Books.controller client caller route
run client (users route) (some caller) = Users.controller client caller route
run client route none = throw (error "Cannot read properties of undefined (reading 'sub')")
