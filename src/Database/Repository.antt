-- ===== src/Database/Repository.antt =====
-- libs/database/src/abstract.repository.ts, the base class of every repository.
use Prim.Native.String
use nestjs_microservice_plat.Prelude.{ℕ, String, List, true, Option, none, some}
use nestjs_microservice_plat.Js.{date, Object, empty, put}
use nestjs_microservice_plat.Errors.{not_found}
use nestjs_microservice_plat.Action.{Action, pure, throw, query, ◌>>=◌}
use nestjs_microservice_plat.Database.{Filter, QueryOptions, Update, fields, Model, no_options}

-- `if (!doc) throw new NotFoundException(message); return doc`
abbrev pub or_not_found : {W : Type 0} → String → Option Object → Action W Object
or_not_found message none = throw (not_found message)
or_not_found message (some doc) = pure doc

-- `Document with id ${id} not found`
abbrev pub no_document : String → String
no_document id = String.◌++◌ "Document with id " (String.◌++◌ id " not found")

-- `{ items, total }`
pub record Page : Type 0 where
  pub items : List Object
  pub total : ℕ

module _ {W : Type 0} (model : Model W) where
  unfoldable pub create : Object → Action W Object
  create create_dto = model.create create_dto

  unfoldable pub find_one : Filter → Action W (Option Object)
  find_one filter = query (model.find_one filter)

  unfoldable pub find : Filter → QueryOptions → Action W (List Object)
  find filter options = query (model.find filter options)

  unfoldable pub find_by_id : String → Action W Object
  find_by_id id = do doc ← query (model.find_by_id id); or_not_found (no_document id) doc

  unfoldable pub find_one_and_update : Filter → Update → QueryOptions → Action W Object
  find_one_and_update filter update options = do
    doc ← model.find_one_and_update filter update (record options { return_new = true })
    or_not_found "Document not found" doc

  unfoldable pub delete_one : Filter → Action W Object
  delete_one filter = do
    doc ← model.find_one_and_delete filter
    or_not_found "Document not found" doc

  -- `now` is `new Date()`.
  unfoldable pub soft_delete : ℕ → Filter → Action W Object
  unfolding find_one_and_update
  soft_delete now filter =
      find_one_and_update filter (fields (put "deletedAt" (date now) empty)) no_options

  unfoldable pub count_documents : Filter → Action W ℕ
  count_documents filter = query (model.count_documents filter)

  -- The two calls that every listing method of the repositories makes, and `findAndCount` of
  -- apps/user-service/src/repositories.
  unfoldable pub find_and_count : Filter → QueryOptions → Action W Page
  unfolding find count_documents
  find_and_count filter options = do
    items ← find filter options
    total ← count_documents filter
    pure (record { items = items; total = total })
