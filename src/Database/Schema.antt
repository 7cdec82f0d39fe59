-- ===== src/Database/Schema.antt =====
-- libs/database/src/schemas: what the schemas tell mongoose of the paths of a document, and what the
-- code relies on when a document is created.
use nestjs_microservice_plat.Prelude.{
  ℕ, pos, String, List, [], ◌∷◌, false, Option, none, some, ◌==◌, ◌≡◌, if◌then◌else◌, map,
}
use nestjs_microservice_plat.Js.{Value, null, bool, num, str, strs, Object}
use nestjs_microservice_plat.Action.{ok}
use nestjs_microservice_plat.Constants.CommonRole as CommonRole
use nestjs_microservice_plat.Database.{Model, by_id}

-- An option of `@Prop`; `one_of` is the option `enum`, `at_least` and `at_most` are `min` and `max`,
-- and `hidden` is `select: false`.
pub data Rule : Type 0 where
  required unique lowercase trimmed hidden : Rule
  initially : Value → Rule
  one_of : List String → Rule
  at_least at_most min_length : ℕ → Rule

-- The paths of a schema that have options, with their options.
abbrev pub Schema : Type 0
Schema = List (String × List Rule)

pub data TodoStatus : Type 0 where
  pending in_progress completed : TodoStatus

abbrev pub todo_status_text : TodoStatus → String
todo_status_text pending = "pending"
todo_status_text in_progress = "in_progress"
todo_status_text completed = "completed"

pub data PostStatus : Type 0 where
  draft published archived : PostStatus

abbrev pub post_status_text : PostStatus → String
post_status_text draft = "draft"
post_status_text published = "published"
post_status_text archived = "archived"

abbrev pub todo_schema : Schema
todo_schema =
    ("userId", required ∷ [])
    ∷ ("title", required ∷ [])
    ∷ ("description", [])
    ∷ (
      "status",
      one_of (map todo_status_text (pending ∷ in_progress ∷ completed ∷ []))
          ∷ initially (str (todo_status_text pending))
          ∷ [],
    )
    ∷ ("dueDate", initially null ∷ [])
    ∷ ("priority", initially (num (pos 0)) ∷ [])
    ∷ ("deletedAt", initially null ∷ [])
    ∷ []

abbrev pub book_schema : Schema
book_schema =
    ("userId", required ∷ [])
    ∷ ("title", required ∷ [])
    ∷ ("author", required ∷ [])
    ∷ ("description", [])
    ∷ ("isbn", [])
    ∷ ("pages", initially (num (pos 0)) ∷ [])
    ∷ ("publishedDate", [])
    ∷ ("publisher", [])
    ∷ ("genres", initially (strs []) ∷ [])
    ∷ ("rating", at_least 0 ∷ at_most 5 ∷ initially (num (pos 0)) ∷ [])
    ∷ ("isRead", initially (bool false) ∷ [])
    ∷ ("deletedAt", initially null ∷ [])
    ∷ []

abbrev pub post_schema : Schema
post_schema =
    ("userId", required ∷ [])
    ∷ ("title", required ∷ [])
    ∷ ("content", required ∷ [])
    ∷ ("images", initially (strs []) ∷ [])
    ∷ ("tags", initially (strs []) ∷ [])
    ∷ (
      "status",
      one_of (map post_status_text (draft ∷ published ∷ archived ∷ []))
          ∷ initially (str (post_status_text draft))
          ∷ [],
    )
    ∷ ("likesCount", initially (num (pos 0)) ∷ [])
    ∷ ("likedBy", initially (strs []) ∷ [])
    ∷ ("deletedAt", initially null ∷ [])
    ∷ []

abbrev pub user_schema : Schema
user_schema =
    ("email", required ∷ unique ∷ lowercase ∷ trimmed ∷ [])
    ∷ ("password", required ∷ min_length 6 ∷ hidden ∷ [])
    ∷ ("name", required ∷ [])
    ∷ (
      "roles",
      one_of (map CommonRole.role_text (CommonRole.admin ∷ CommonRole.user ∷ CommonRole.guest ∷ []))
          ∷ initially (strs (CommonRole.role_text CommonRole.user ∷ []))
          ∷ [],
    )
    ∷ ("lastLoginAt", initially null ∷ [])
    ∷ ("deletedAt", initially null ∷ [])
    ∷ []

-- The default of a path.
abbrev pub default_among : List Rule → Option Value
default_among [] = none
default_among (initially v ∷ rules) = some v
default_among (rule ∷ rules) = default_among rules

abbrev pub default_at : Schema → String → Option Value
default_at [] k = none
default_at ((path, rules) ∷ schema) k =
    if path == k then default_among rules else default_at schema k

-- What the code relies on when it creates a document: a path that the code leaves out gets its
-- default, a value that the schema stores as it is stands in the document, and the document is
-- found under its id.
pub record SchemaLaws {W : Type 0} (m : Model W) (Fits : String → Value → Type 0) (schema : Schema)
    : Type 0 where
  pub create_fills :
      (o d : Object) (w w' : W) (k : String) (v : Value)
      → m.create o w ≡ (ok d, w')
      → o k ≡ none
      → default_at schema k ≡ some v
      → d k ≡ some v
  pub create_keeps :
      (o d : Object) (w w' : W) (k : String) (v : Value)
      → m.create o w ≡ (ok d, w')
      → o k ≡ some v
      → Fits k v
      → d k ≡ some v
  pub create_stored :
      (o d : Object) (w w' : W) (id : String)
      → m.create o w ≡ (ok d, w')
      → d "_id" ≡ some (str id)
      → m.find_one (by_id id) w' ≡ ok (some d)
