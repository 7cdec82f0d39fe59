-- ===== src/Constants/Patterns.antt =====
-- The message and event patterns of libs/common/src/constants/index.ts.
use nestjs_microservice_plat.Prelude.{String}

-- `AUTH_PATTERNS`
pub data AuthPattern : Type 0 where
  register login logout refresh_token validate_token : AuthPattern

abbrev pub auth_patterns : AuthPattern → String
auth_patterns AuthPattern.register = "auth.user.register"
auth_patterns AuthPattern.login = "auth.user.login"
auth_patterns AuthPattern.logout = "auth.user.logout"
auth_patterns AuthPattern.refresh_token = "auth.token.refresh"
auth_patterns AuthPattern.validate_token = "auth.token.validate"

-- `USER_PATTERNS`
pub data UserPattern : Type 0 where
  find_by_id find_by_email list create update delete : UserPattern

abbrev pub user_patterns : UserPattern → String
user_patterns UserPattern.find_by_id = "user.findById"
user_patterns UserPattern.find_by_email = "user.findByEmail"
user_patterns UserPattern.list = "user.list"
user_patterns UserPattern.create = "user.create"
user_patterns UserPattern.update = "user.update"
user_patterns UserPattern.delete = "user.delete"

-- `TODO_PATTERNS`
pub data TodoPattern : Type 0 where
  create find_by_id find_by_user find_by_status update delete list : TodoPattern

abbrev pub todo_patterns : TodoPattern → String
todo_patterns TodoPattern.create = "todo.create"
todo_patterns TodoPattern.find_by_id = "todo.findById"
todo_patterns TodoPattern.find_by_user = "todo.findByUser"
todo_patterns TodoPattern.find_by_status = "todo.findByStatus"
todo_patterns TodoPattern.update = "todo.update"
todo_patterns TodoPattern.delete = "todo.delete"
todo_patterns TodoPattern.list = "todo.list"

-- `BOOK_PATTERNS`
pub data BookPattern : Type 0 where
  create find_by_id find_by_user find_by_read_status find_by_genre update delete list : BookPattern

abbrev pub book_patterns : BookPattern → String
book_patterns BookPattern.create = "book.create"
book_patterns BookPattern.find_by_id = "book.findById"
book_patterns BookPattern.find_by_user = "book.findByUser"
book_patterns BookPattern.find_by_read_status = "book.findByReadStatus"
book_patterns BookPattern.find_by_genre = "book.findByGenre"
book_patterns BookPattern.update = "book.update"
book_patterns BookPattern.delete = "book.delete"
book_patterns BookPattern.list = "book.list"

-- `EVENT_PATTERNS`
pub data EventPattern : Type 0 where
  notification_send user_created user_deleted : EventPattern

abbrev pub event_patterns : EventPattern → String
event_patterns EventPattern.notification_send = "notification.send"
event_patterns EventPattern.user_created = "user.created"
event_patterns EventPattern.user_deleted = "user.deleted"
