-- ===== src/Platform/Todos.antt =====
-- The message patterns of apps/todos-service/src/todos.controller.ts, and the service behind the
-- gateway's client proxy.
use nestjs_microservice_plat.Prelude.{ℕ, String, Option, none, some, ◌==◌, if◌then◌else◌}
use nestjs_microservice_plat.Js.{Object, as_text, as_whole}
use nestjs_microservice_plat.Action.{Action, pure, ◌>>=◌}
use nestjs_microservice_plat.Constants.Patterns.{TodoPattern, todo_patterns}
use nestjs_microservice_plat.Database.{Model}
use nestjs_microservice_plat.Database.Repository.{Page}
use nestjs_microservice_plat.Interceptors.{Answer}
use nestjs_microservice_plat.Gateway.Call.{Payload, fields, updates, Client}
use nestjs_microservice_plat.Todos.Controller.{PageDto}
use nestjs_microservice_plat.Todos.Controller as TodosController
use nestjs_microservice_plat.Platform.{Transport, service_client}

-- A message that a handler takes.
pub data TodoMessage : Type 0 where
  create_todo : Object → TodoMessage
  find_todo delete_todo : String → TodoMessage
  find_by_user list_of : PageDto → TodoMessage
  find_by_status : PageDto → String → TodoMessage
  update_todo : String → Object → TodoMessage

pub data TodoAnswer : Type 0 where
  a_todo : Object → TodoAnswer
  a_page : Page → TodoAnswer

-- The types that the handlers declare for their payloads; `none` where a field that the handler reads
-- is no text, which is left to the transport's `other`.
abbrev pub with_text : String → Object → (String → Option TodoMessage) → Option TodoMessage
with_text key o next = elim (as_text (o key)) [ none ↦ none | some s ↦ next s ]

abbrev pub page_of : Object → String → PageDto
page_of o user_id = record {
  user_id = user_id;
  skip = as_whole (o "skip");
  limit = as_whole (o "limit");
}

-- the `@MessagePattern` of each handler
abbrev pub todo_handler : String → Object → Option TodoMessage
todo_handler name o =
    if name == todo_patterns TodoPattern.create
    then some (create_todo o)
    else (if name == todo_patterns TodoPattern.find_by_id
        then with_text "id" o (λ id. some (find_todo id))
        else (if name == todo_patterns TodoPattern.find_by_user
            then with_text "userId" o (λ user. some (find_by_user (page_of o user)))
            else (if name == todo_patterns TodoPattern.find_by_status
                then with_text "userId" o (λ user.
                  with_text "status" o (λ status. some (find_by_status (page_of o user) status)))
                else (if name == todo_patterns TodoPattern.update
                    then with_text "id" o (λ id. some (update_todo id o))
                    else (if name == todo_patterns TodoPattern.delete
                        then with_text "id" o (λ id. some (delete_todo id))
                        else (if name == todo_patterns TodoPattern.list
                            then with_text "userId" o (λ user. some (list_of (page_of o user)))
                            else none))))))

unfoldable pub todo_message : String → Payload → Option TodoMessage
todo_message name (fields o) = todo_handler name o
todo_message name (updates id o) = none

module _ {W : Type 0} (model : Model W) (now : ℕ) where
  unfoldable pub handle_todo : TodoMessage → Action W TodoAnswer
  handle_todo (create_todo dto) = do todo ← TodosController.create model dto; pure (a_todo todo)
  handle_todo (find_todo id) = do todo ← TodosController.find_by_id model id; pure (a_todo todo)
  handle_todo (delete_todo id) = do todo ← TodosController.delete model now id; pure (a_todo todo)
  handle_todo (find_by_user dto) = do
    page ← TodosController.find_by_user model dto
    pure (a_page page)
  handle_todo (list_of dto) = do page ← TodosController.list model dto; pure (a_page page)
  handle_todo (find_by_status dto status) = do
    page ← TodosController.find_by_status model dto status
    pure (a_page page)
  handle_todo (update_todo id dto) = do
    todo ← TodosController.update model id dto
    pure (a_todo todo)

  unfoldable pub todo_handlers : String → Payload → Option (Action W TodoAnswer)
  unfolding todo_message handle_todo
  todo_handlers name payload = elim (todo_message name payload) [
    | none ↦ none
    | some m ↦ some (handle_todo m)
  ]

  -- The client proxy of the gateway's TodosService, connected to the service.
  unfoldable pub todos_client : Transport W TodoAnswer Answer → Client W Answer
  unfolding service_client todo_handlers
  todos_client transport = service_client transport todo_handlers
