-- ===== src/Platform/TodosLaws.antt =====
-- What a client of the gateway gets of todos, through the guards, the gateway and the service.
use nestjs_microservice_plat.Prelude.{
  ℕ, suc, ℤ, pos, ◌≤◌, ◌≡◌, ◌≢◌, refl, ap, ◌∙◌, String, Option, none, some, All, length, arith,
}
use nestjs_microservice_plat.Prelude.Int.{◌-ℤ◌, ◌*ℤ◌}
use nestjs_microservice_plat.Js.{Value, str, date, Object, default, as_text, put, spread, empty}
use nestjs_microservice_plat.Action.{ok, bind-pure}
use nestjs_microservice_plat.Constants.{JwtPayload}
use nestjs_microservice_plat.Constants.Patterns.{TodoPattern, todo_patterns}
use nestjs_microservice_plat.Database.{Model, ModelLaws, by_id}
use nestjs_microservice_plat.Database.Repository.{Page}
use nestjs_microservice_plat.Database.RepositoryLaws.{find_by_id-of_stored}
use nestjs_microservice_plat.Interceptors.{Answer, Transformed, transform}
use nestjs_microservice_plat.Gateway.Access.{bare}
use nestjs_microservice_plat.Gateway.Call.{call, Payload, fields}
use nestjs_microservice_plat.Gateway.Todos as Gateway
use nestjs_microservice_plat.Todos.Controller.{PageDto}
use nestjs_microservice_plat.Todos.Controller as TodosController
use nestjs_microservice_plat.Todos.Laws.{
  by_user, list_todos, list_todos-Shown, todos_delete-hidden, IsLiveOf,
}
use nestjs_microservice_plat.Http.{Call, Outcome, answered, serve, guard, finish}
use nestjs_microservice_plat.Http.Gateway.{todos, run, route_metadata}
use nestjs_microservice_plat.Http.Laws.{guard-user, serve-answered, serve-ok}
use nestjs_microservice_plat.Platform.{Transport}
use nestjs_microservice_plat.Platform.Laws.{call-answered}
use nestjs_microservice_plat.Platform.Todos.{
  TodoMessage, TodoAnswer, a_todo, a_page, create_todo, find_todo, delete_todo, find_by_user,
  update_todo, todo_message, handle_todo, todo_handlers, todos_client,
}

-- The request for a page of todos that the gateway makes of a page number and a limit.
abbrev pub page_asked : JwtPayload → Option ℤ → Option ℤ → PageDto
page_asked caller page limit = record {
  user_id = caller.sub;
  skip = some ((default page (pos 1) -ℤ pos 1) *ℤ default limit (pos 10));
  limit = some (default limit (pos 10));
}

module _ {W : Type 0} (model : Model W) (now : ℕ) (transport : Transport W TodoAnswer Answer) where
  -- A request to a route of todos at the gateway, with the service behind it.
  abbrev pub request : Gateway.Route → Call → W → Outcome × W
  request route c =
      serve (route_metadata (todos route)) bare c
        (run (todos_client model now transport) (todos route))

  todo-answered :
      (fallback message name : String) (payload : Payload) (m : TodoMessage) (w w' : W) (a : Answer)
      → todo_message name payload ≡ some m
      → call (todos_client model now transport) fallback message name payload w ≡ (ok a, w')
      → (r : TodoAnswer) × (handle_todo model now m w ≡ (ok r, w')) × (a ≡ transport.render r)
  unfolding todos_client todo_handlers
  todo-answered fallback message name payload m w w' a known e =
      call-answered transport (todo_handlers model now) fallback message name payload
        (handle_todo model now m) w w' a (rw (todo_handlers, known) refl) e

  -- What a route of the gateway asks the service for.
  abbrev pub meant : JwtPayload → Gateway.Route → TodoMessage
  meant caller (Gateway.create_route dto) =
      create_todo (spread (put "userId" (str caller.sub) empty) dto)
  meant caller (Gateway.list_route page limit) = find_by_user (page_asked caller page limit)
  meant caller (Gateway.find_route id) = find_todo id
  meant caller (Gateway.update_route id dto) =
      update_todo id (spread (put "id" (str id) (put "userId" (str caller.sub) empty)) dto)
  meant caller (Gateway.delete_route id) = delete_todo id

  -- The body of an update does not name another todo.
  abbrev pub IsPlain : Gateway.Route → Type 0
  IsPlain (Gateway.update_route id dto) = dto "id" ≡ none
  IsPlain route = Unit

  update-Handled :
      (id : String) (o : Object)
      → as_text (o "id") ≡ some id
      → todo_message (todo_patterns TodoPattern.update) (fields o) ≡ some (update_todo id o)
  unfolding todo_message
  update-Handled id o names = ground arith

  route-answered :
      (route : Gateway.Route) (u : JwtPayload) (w w' : W) (a : Answer)
      → IsPlain route
      → run (todos_client model now transport) (todos route) (some u) w ≡ (ok a, w')
      → (r : TodoAnswer) × (handle_todo model now (meant u route) w ≡ (ok r, w'))
        × (a ≡ transport.render r)
  unfolding run Gateway.controller Gateway.create Gateway.find_by_id Gateway.find_by_user
      Gateway.update Gateway.delete Gateway.list Gateway.create_payload Gateway.update_payload
      todo_message
  route-answered (Gateway.create_route dto) u w w' a plain e =
      todo-answered _ _ _ _ (meant u (Gateway.create_route dto)) w w' a refl e
  route-answered (Gateway.list_route page limit) u w w' a plain e =
      todo-answered _ _ _ _ (meant u (Gateway.list_route page limit)) w w' a refl e
  route-answered (Gateway.find_route id) u w w' a plain e =
      todo-answered _ _ _ _ (meant u (Gateway.find_route id)) w w' a refl e
  route-answered (Gateway.update_route id dto) u w w' a plain e =
      todo-answered _ _ _ _ (meant u (Gateway.update_route id dto)) w w' a
        (update-Handled id _ (rw (spread, plain) refl)) e
  route-answered (Gateway.delete_route id) u w w' a plain e =
      todo-answered _ _ _ _ (meant u (Gateway.delete_route id)) w w' a refl e

  -- A route that was answered was answered by the service, for a caller whom passport accepted.
  request-answered :
      (route : Gateway.Route) (c : Call) (w w' : W) (t : Transformed)
      → IsPlain route
      → request route c w ≡ (answered t, w')
      → (u : JwtPayload) × (r : TodoAnswer) × (c.verdict.user ≡ some u)
        × (handle_todo model now (meant u route) w ≡ (ok r, w'))
        × (t.content ≡ transport.render r)
  unfolding route_metadata transform
  request-answered route c w w' t plain e =
      let (user, a, passed, done, is) =
        serve-answered (route_metadata (todos route)) bare c
          (run (todos_client model now transport) (todos route)) w w' t e in
      let (u, is_u, accepted) = guard-user (route_metadata (todos route)) c user refl passed in
      let by_user : run (todos_client model now transport) (todos route) (some u) w ≡ (ok a, w') =
        rw (← is_u) done in
      let (r, handled, rendered) = route-answered route u w w' a plain by_user in
      (u, r, accepted, handled, ap (λ x. x.content) is ∙ rendered)

module _ {W : Type 0} (model : Model W) {Fits : String → Value → Type 0}
    (laws : ModelLaws model Fits) (transport : Transport W TodoAnswer Answer) where
  -- On a model that satisfies ModelLaws, with the todos service behind the gateway and where the
  -- limit, 10 if it is left out, is positive: a request for a page of todos that is answered
  -- carries a token that passport accepted, and the page has at most limit todos, all of the
  -- caller and none deleted; nothing changes.
  pub own_todos_listed :
      (now : ℕ) (page limit : Option ℤ) (c : Call) (w w' : W) (t : Transformed) (n : ℕ)
      → default limit (pos 10) ≡ pos (suc n)
      → request model now transport (Gateway.list_route page limit) c w ≡ (answered t, w')
      → (u : JwtPayload) × (p : Page) × (c.verdict.user ≡ some u)
        × (t.content ≡ transport.render (a_page p))
        × All (IsLiveOf u.sub) p.items
        × (length p.items ≤ suc n)
        × (w' ≡ w)
  unfolding handle_todo list_todos
  own_todos_listed now page limit c w w' t n positive e =
      let (u, r, accepted, handled, shown) =
        request-answered model now transport (Gateway.list_route page limit) c w w' t tt e in
      let (p, found, is_page) =
        bind-pure (TodosController.find_by_user model (page_asked u page limit)) a_page w w' r
          handled in
      let (live, short, same) =
        list_todos-Shown model laws (by_user (page_asked u page limit)) w w' p n found
          (rw positive (ground arith)) in
      (u, p, accepted, shown ∙ ap transport.render is_page, live, short, same)

  -- On a model that satisfies ModelLaws, with the todos service behind the gateway: a request for
  -- a todo by its id that the guards let in is answered with the stored todo, whoever the caller
  -- and whoever the owner is, and also if the todo is deleted; nothing changes.
  pub any_todo_read :
      (now : ℕ) (id : String) (d : Object) (c : Call) (w : W) (u : JwtPayload)
      → guard bare bare c ≡ ok (some u)
      → model.find_one (by_id id) w ≡ ok (some d)
      → request model now transport (Gateway.find_route id) c w
        ≡ (answered (transform c.context (transport.render (a_todo d))), w)
  unfolding route_metadata run Gateway.controller Gateway.find_by_id call todos_client todo_message
      handle_todo TodosController.find_by_id finish
  any_todo_read now id d c w u passed stored =
      let handled : handle_todo model now (find_todo id) w ≡ (ok (a_todo d), w) =
        rw (find_by_id-of_stored model laws id w d stored) refl in
      let route = todos (Gateway.find_route id) in
      serve-ok (route_metadata route) bare c (run (todos_client model now transport) route) w
        (some u) passed
      ∙ rw handled refl

  -- On a model that satisfies ModelLaws and where the schema stores dates in deletedAt as they
  -- are, with the todos service behind the gateway: once a request that deletes a todo was
  -- answered, whoever sent it, no page of todos that the gateway then answers with, to whomever,
  -- has the todo.
  pub deleted_todo_hidden :
      (now later : ℕ) (id : String) (page limit : Option ℤ) (c c' : Call) (w w1 w2 : W)
      (t t' : Transformed)
      → Fits "deletedAt" (date now)
      → request model now transport (Gateway.delete_route id) c w ≡ (answered t, w1)
      → request model later transport (Gateway.list_route page limit) c' w1 ≡ (answered t', w2)
      → (p : Page) × (t'.content ≡ transport.render (a_page p))
        × All (λ x. x "_id" ≢ some (str id)) p.items
  unfolding handle_todo list_todos
  deleted_todo_hidden now later id page limit c c' w w1 w2 t t' fits deleted listed =
      let (u, r, _, handled, _) =
        request-answered model now transport (Gateway.delete_route id) c w w1 t tt deleted in
      let (u', r', _, handled', shown) =
        request-answered model later transport (Gateway.list_route page limit) c' w1 w2 t' tt
          listed in
      let (d, gone, _) = bind-pure (TodosController.delete model now id) a_todo w w1 r handled in
      let (p, found, is_page) =
        bind-pure (TodosController.find_by_user model (page_asked u' page limit)) a_page w1 w2 r'
          handled' in
      let (hidden, _, _) =
        todos_delete-hidden model laws now id w w1 w2 d (by_user (page_asked u' page limit)) p fits
          gone found in
      (p, shown ∙ ap transport.render is_page, hidden)
