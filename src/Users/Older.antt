-- ===== src/Users/Older.antt =====
-- apps/user-service/src/user.service.ts, user.controller.ts and repositories/user.repository.ts.
use nestjs_microservice_plat.Prelude.{ℕ, ℤ, String, [], ◌∷◌, Option, some, false}
use nestjs_microservice_plat.Js.{str, strs, Object, put, as_text, or_text}
use nestjs_microservice_plat.Action.{Action, pure, ◌>>=◌}
use nestjs_microservice_plat.Database.{Model, Update, set, by_id, no_options, descending}
use nestjs_microservice_plat.Database.Repository.{Page}
use nestjs_microservice_plat.Database.Repository

module _ {W : Type 0} (model : Model W) where
  -- `UserRepository.updateById`
  unfoldable pub update_by_id : String → Update → Action W Object
  update_by_id id update = Repository.find_one_and_update model (by_id id) update no_options

  unfoldable pub find_by_id : String → Action W Object
  find_by_id id = Repository.find_by_id model id

  unfoldable pub find_by_email : String → Action W (Option Object)
  find_by_email email = Repository.find_one model (("email", str email) ∷ [])

  -- `{ ...data, roles: [data.role || 'user'] }`
  unfoldable pub create : Object → Action W Object
  create user =
      Repository.create model
        (put "roles" (strs (or_text (as_text (user "role")) "user" ∷ [])) user)

  unfoldable pub update : String → Object → Action W Object
  unfolding update_by_id
  update id updates = update_by_id id (set updates)

  unfoldable pub soft_delete : ℕ → String → Action W Object
  soft_delete now id = Repository.soft_delete model now (by_id id)

  -- `{ items, total, skip, limit }`
  unfoldable pub list : ℤ → ℤ → Action W (Page × ℤ × ℤ)
  list skip limit = do
    page ← Repository.find_and_count model [] (record {
      skip = some skip;
      limit = some limit;
      sort = ("createdAt", descending) ∷ [];
      return_new = false;
    })
    pure (page, skip, limit)

-- The messages of `UserController`, each under its pattern.
pub data Message : Type 0 where
  find_by_id_message find_by_email_message delete_message : String → Message
  create_message : Object → Message
  update_message : String → Object → Message
  list_message : ℤ → ℤ → Message

pub data Reply : Type 0 where
  a_user : Object → Reply
  maybe_user : Option Object → Reply
  a_page : Page → ℤ → ℤ → Reply

-- the pattern of a message
abbrev pub pattern_of : Message → String
pattern_of (find_by_id_message id) = "user.find_by_id"
pattern_of (find_by_email_message email) = "user.find_by_email"
pattern_of (create_message user) = "user.create"
pattern_of (update_message id updates) = "user.update"
pattern_of (delete_message id) = "user.delete"
pattern_of (list_message skip limit) = "user.list"

module _ {W : Type 0} (model : Model W) where
  -- `now` is `new Date()` in `softDelete`.
  unfoldable pub controller : ℕ → Message → Action W Reply
  unfolding find_by_id find_by_email create update soft_delete list
  controller now (find_by_id_message id) = do user ← find_by_id model id; pure (a_user user)
  controller now (find_by_email_message email) = do
    user ← find_by_email model email
    pure (maybe_user user)
  controller now (create_message body) = do user ← create model body; pure (a_user user)
  controller now (update_message id updates) = do user ← update model id updates; pure (a_user user)
  controller now (delete_message id) = do user ← soft_delete model now id; pure (a_user user)
  controller now (list_message skip limit) = do
    (page, s, l) ← list model skip limit
    pure (a_page page s l)
